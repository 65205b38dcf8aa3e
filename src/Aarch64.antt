-- ===== src/Aarch64.antt =====
-- alc/bin-aarch64.c: the backend that writes AArch64 machine code.
pub mod Machine
pub mod Words
pub mod Mov
pub mod Asm
pub mod Alu
pub mod Memory
pub mod Element
pub mod Frame
pub mod Aggregate
