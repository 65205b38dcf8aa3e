-- ===== src/Exe/Macho/Laws.antt =====
-- What the files of alc/exe-macho.c lead to.
pub mod Stub
pub mod Names
pub mod Calls
