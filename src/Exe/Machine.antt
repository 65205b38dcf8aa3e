-- ===== src/Exe/Machine.antt =====
-- What alc/emit_helper-elf-exe.h asks of a machine, and the laws that its clients rest on. The two
-- machines are alc/exe-elf-x86_64.c and alc/exe-elf-aarch64.c.
pub mod X86Elf
pub mod Aarch64Elf
pub mod Target
use allang.Base.{ℕ, Bool, true, ◌+◌, ◌*◌, ◌%◌, ◌^◌, ◌<◌, ◌≡◌, List, ◌++◌, length, ℤ, pos}
use allang.Str.{Str}
use allang.X86.Asm.{store}
use allang.X86.Asm.Store.{read32}
use allang.X86.Encode.{put32}

-- The names that a machine defines. `elf_machine` and `reloc_jump_slot` are values of <elf.h>. A
-- builder gives the bytes it writes; that of a PLT entry, also the first value of its slot.
pub record ElfMachine : Type 0 where
  pub elf_machine : ℕ
  pub reloc_jump_slot : ℕ
  pub interp : Str
  pub start_stub_size : ℕ
  pub dyn_start_stub_size : ℕ
  pub plt0_size : ℕ
  pub plt_entry_size : ℕ
  pub build_start_stub : (stub_vaddr main_vaddr : ℕ) → List ℕ
  pub build_dyn_start_stub : (stub_vaddr main_vaddr exit_plt_vaddr : ℕ) → List ℕ
  pub build_plt0 : (plt0_vaddr got_vaddr : ℕ) → List ℕ
  pub build_plt_entry : (index plt_vaddr plt0_vaddr got_entry_vaddr : ℕ) → List ℕ × ℕ
  pub patched_word : (w site_vaddr target_vaddr : ℕ) → ℕ

-- How the processor reads what the machine writes: whether the four bytes at a site are those of a
-- call, where the call goes, and the address of the slot whose value a PLT entry jumps to. Bytes that
-- do not call or jump give the address -1. Code stands at multiples of `grain`.
pub record ElfLaws (m : ElfMachine) (grain : ℕ) : Type 0 where
  pub is_call : ℕ → Bool
  pub call_target : (w site_vaddr : ℕ) → ℤ
  pub slot_target : List ℕ → (plt_vaddr : ℕ) → ℤ
  pub grain_text : (n : ℕ) → n % 16 ≡ 0 → n % grain ≡ 0
  pub grain_plt :
      (n i : ℕ)
      → n % 16 ≡ 0
      → (n + m.dyn_start_stub_size + m.plt0_size + i * m.plt_entry_size) % grain ≡ 0
  pub grain_sum : (n i : ℕ) → n % grain ≡ 0 → i % grain ≡ 0 → (n + i) % grain ≡ 0
  pub calls :
      (w s t : ℕ)
      → s < 2 ^ 26
      → t < 2 ^ 26
      → s % grain ≡ 0
      → t % grain ≡ 0
      → is_call w ≡ true
      → (m.patched_word w s t < 2 ^ 32) × (call_target (m.patched_word w s t) s ≡ pos t)
  pub jumps :
      (i p p0 g : ℕ)
      → p < 2 ^ 26
      → g < 2 ^ 26
      → g % 8 ≡ 0
      → (rest : List ℕ) → slot_target ((m.build_plt_entry i p p0 g).0 ++ rest) p ≡ pos g
  pub length_stub : (s t e : ℕ) → length (m.build_dyn_start_stub s t e) ≡ m.dyn_start_stub_size
  pub length_plt0 : (p g : ℕ) → length (m.build_plt0 p g) ≡ m.plt0_size
  pub length_entry : (i p p0 g : ℕ) → length (m.build_plt_entry i p p0 g).0 ≡ m.plt_entry_size
