-- ===== src/Exe.antt =====
-- The writers of executables: alc/emit-bin.h, alc/emit_helper-elf-exe.h and the files that use it.
pub mod Image
pub mod Parts
pub mod Hash
pub mod Calls
pub mod Blocks
pub mod Machine
pub mod Elf
pub mod Pe
pub mod Macho
