-- ===== src/X86.antt =====
-- alc/bin-x86_64.c: machine code for x86-64.
pub mod Encode
pub mod Alu
pub mod Asm
pub mod Memory
pub mod Frame
pub mod Element
pub mod CondSet
pub mod Aggregate
pub mod Machine
