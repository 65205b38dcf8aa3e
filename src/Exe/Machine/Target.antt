-- ===== src/Exe/Machine/Target.antt =====
-- The machines that alc/exe-elf-x86_64.c and alc/exe-elf-aarch64.c write files for, by their values of
-- <elf.h>.
use allang.Base.{ℕ}
use allang.Exe.Machine.{ElfMachine, ElfLaws}
use allang.Exe.Machine.X86Elf.{x86_elf, x86_elf-ElfLaws}
use allang.Exe.Machine.Aarch64Elf.{aarch64_elf}
use allang.Exe.Machine.Aarch64Elf.Laws.{aarch64_elf-ElfLaws}

pub data Target : Type 0 where
  on_x86_64 on_aarch64 : (elf_machine jump_slot : ℕ) → Target

abbrev pub machine : Target → ElfMachine
machine (on_x86_64 em jump_slot) = x86_elf em jump_slot
machine (on_aarch64 em jump_slot) = aarch64_elf em jump_slot

-- The bytes between places for code.
abbrev pub grain_of : Target → ℕ
grain_of (on_x86_64 em jump_slot) = 1
grain_of (on_aarch64 em jump_slot) = 4

abbrev pub machine_laws : (k : Target) → ElfLaws (machine k) (grain_of k)
machine_laws (on_x86_64 em jump_slot) = x86_elf-ElfLaws em jump_slot
machine_laws (on_aarch64 em jump_slot) = aarch64_elf-ElfLaws em jump_slot
