-- ===== src/Exe/Machine/X86Elf.antt =====
-- alc/exe-elf-x86_64.c. The values of <elf.h> are parameters.
use allang.Base.{
  ℕ, ◌+◌, ◌%◌, ◌^◌, ◌<◌, ◌≡◌, refl, arith, List, [], ◌∷◌, ◌++◌, ℤ, pos, ◌+ℤ◌, sub_ℕ, to_bits,
  to_signed, leb, ◌==◌, ◌&&◌, if◌then◌else◌, get_or, true, negsuc, inl, inr, Bool-cases,
}
use allang.X86.Asm.Store.{read32}
use allang.X86.Encode.{put32}
use allang.X86.Encode.Disp.{bytes_32, to_bits-lt, IsI32, signed_32}
use allang.Exe.Machine.{ElfMachine, ElfLaws}

-- `(int32_t)((int64_t)target - (int64_t)from)`
abbrev pub rel_from : ℕ → ℕ → ℕ
rel_from target from = to_bits 32 (sub_ℕ target from)

abbrev pub build_start_stub : ℕ → ℕ → List ℕ
build_start_stub stub_vaddr main_vaddr =
    0xe8 ∷ put32 (rel_from main_vaddr (stub_vaddr + 5))
    ++ 0x89 ∷ 0xc7 ∷ 0xb8 ∷ 60 ∷ 0 ∷ 0 ∷ 0 ∷ 0x0f ∷ 0x05 ∷ []

abbrev pub build_dyn_start_stub : ℕ → ℕ → ℕ → List ℕ
build_dyn_start_stub stub_vaddr main_vaddr exit_plt_vaddr =
    0xe8 ∷ put32 (rel_from main_vaddr (stub_vaddr + 5))
    ++ 0x89 ∷ 0xc7 ∷ 0xe8 ∷ put32 (rel_from exit_plt_vaddr (stub_vaddr + 12))

abbrev pub build_plt0 : ℕ → ℕ → List ℕ
build_plt0 plt0_vaddr got_vaddr =
    0xff ∷ 0x35 ∷ put32 (rel_from (got_vaddr + 8) (plt0_vaddr + 6))
    ++ 0xff ∷ 0x25 ∷ put32 (rel_from (got_vaddr + 16) (plt0_vaddr + 12))
    ++ 0x0f ∷ 0x1f ∷ 0x40 ∷ 0x00 ∷ []

abbrev pub build_plt_entry : ℕ → ℕ → ℕ → ℕ → List ℕ × ℕ
build_plt_entry index plt_vaddr plt0_vaddr got_entry_vaddr = (
  0xff ∷ 0x25 ∷ put32 (rel_from got_entry_vaddr (plt_vaddr + 6))
      ++ 0x68 ∷ put32 index
      ++ 0xe9 ∷ put32 (rel_from plt0_vaddr (plt_vaddr + 16)),
  plt_vaddr + 6,
)

abbrev pub patched_word : ℕ → ℕ → ℕ → ℕ
patched_word w site_vaddr target_vaddr = rel_from target_vaddr (site_vaddr + 4)

unfoldable pub x86_elf : (em_x86_64 r_x86_64_jump_slot : ℕ) → ElfMachine
x86_elf em_x86_64 r_x86_64_jump_slot = record {
  elf_machine = em_x86_64;
  reloc_jump_slot = r_x86_64_jump_slot;
  interp =
      b'/' ∷ b'l' ∷ b'i' ∷ b'b' ∷ b'6' ∷ b'4' ∷ b'/' ∷ b'l' ∷ b'd' ∷ b'-' ∷ b'l' ∷ b'i' ∷ b'n'
      ∷ b'u' ∷ b'x' ∷ b'-' ∷ b'x' ∷ b'8' ∷ b'6' ∷ b'-' ∷ b'6' ∷ b'4' ∷ b'.' ∷ b's' ∷ b'o' ∷ b'.'
      ∷ b'2' ∷ [];
  start_stub_size = 14;
  dyn_start_stub_size = 12;
  plt0_size = 16;
  plt_entry_size = 16;
  build_start_stub = build_start_stub;
  build_dyn_start_stub = build_dyn_start_stub;
  build_plt0 = build_plt0;
  build_plt_entry = build_plt_entry;
  patched_word = patched_word;
}

-- JMP through a slot: FF 25 and four bytes, with the distance from behind them.
abbrev pub slot_target : List ℕ → ℕ → ℤ
slot_target bytes vaddr =
    if (get_or bytes 0 0 == 0xff) && (get_or bytes 1 0 == 0x25)
    then pos (vaddr + 6) +ℤ to_signed 32 (read32 bytes 2)
    else negsuc 0

-- CALL: E8 and four bytes, likewise.
abbrev pub call_from : List ℕ → ℕ → ℤ
call_from bytes vaddr =
    if get_or bytes 0 0 == 0xe8 then pos (vaddr + 5) +ℤ to_signed 32 (read32 bytes 1) else negsuc 0

-- The four bytes at a site, behind the opcode E8.
abbrev pub call_target : ℕ → ℕ → ℤ
call_target w vaddr = pos (vaddr + 4) +ℤ to_signed 32 w

distance-IsI32 : (t f : ℕ) → t < 2 ^ 26 → f < 2 ^ 31 → IsI32 (sub_ℕ t f)
distance-IsI32 t f ht hf = elim (Bool-cases (leb f t)) [
  | inl e ↦ rw e (omega arith)
  | inr e ↦ rw e (omega arith)
]

pub leads_to : (t f : ℕ) → t < 2 ^ 26 → f < 2 ^ 31 → pos f +ℤ to_signed 32 (rel_from t f) ≡ pos t
leads_to t f ht hf = rw (signed_32 (sub_ℕ t f) (distance-IsI32 t f ht hf)) (ground arith)

entry_jumps :
    (i p p0 g : ℕ)
    → p < 2 ^ 26
    → g < 2 ^ 26
    → g % 8 ≡ 0
    → (rest : List ℕ) → slot_target ((build_plt_entry i p p0 g).0 ++ rest) p ≡ pos g
unfolding read32
entry_jumps i p p0 g hp hg aligned rest =
    rw (bytes_32 (rel_from g (p + 6)) (to_bits-lt (sub_ℕ g (p + 6))))
      (leads_to g (p + 6) hg (omega arith))

-- The laws of the machine, for the instructions of x86-64.
pub x86_elf-ElfLaws : (em jump_slot : ℕ) → ElfLaws (x86_elf em jump_slot) 1
unfolding x86_elf
x86_elf-ElfLaws em jump_slot = record {
  is_call = λ w. true;
  call_target = call_target;
  slot_target = slot_target;
  grain_text = λ n h. omega arith;
  grain_plt = λ n i h. omega arith;
  grain_sum = λ n i h k. omega arith;
  calls =
      λ w s t hs ht gs gt c. (to_bits-lt (sub_ℕ t (s + 4)), leads_to t (s + 4) ht (omega arith));
  jumps = entry_jumps;
  length_stub = λ s t e. refl;
  length_plt0 = λ p g. refl;
  length_entry = λ i p p0 g. refl;
}

-- The opcode is before the site, so any four bytes may stand at it.
pub is_call_any : (em jump_slot w : ℕ) → (x86_elf-ElfLaws em jump_slot).is_call w ≡ true
unfolding x86_elf-ElfLaws
is_call_any em jump_slot w = refl
