-- ===== src/Tests.antt =====
-- The theorems at concrete inputs, and runs of the model.
mod TableTests
mod TypesysTests
mod X86Tests
mod Aarch64Tests
mod ContainersTests
mod ParserTests
mod ExeTests
