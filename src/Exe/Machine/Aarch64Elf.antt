-- ===== src/Exe/Machine/Aarch64Elf.antt =====
-- alc/exe-elf-aarch64.c. The values of <elf.h> are parameters.
pub mod Laws
use allang.Base.{
  ℕ, ◌+◌, ◌-◌, ◌*◌, ◌/◌, ◌^◌, List, [], ◌∷◌, ◌++◌, ℤ, pos, negsuc, sub_ℕ, to_bits, bit_and, ◌|||◌,
  ◌>>>◌, shl, u32,
}
use allang.X86.Encode.{put32}
use allang.Exe.Machine.{ElfMachine}

-- `>>` on a signed number.
abbrev pub asr : ℤ → ℕ → ℤ
asr (pos n) k = pos (n / 2 ^ k)
asr (negsuc n) k = negsuc (n / 2 ^ k)

unfoldable pub enc_bl : ℕ → ℕ → ℕ
enc_bl pc target = 0x94000000 ||| bit_and (to_bits 32 (asr (sub_ℕ target pc) 2)) 0x3ffffff

-- `x & ~0xFFFULL`
abbrev pub page_of : ℕ → ℕ
page_of x = bit_and x (2 ^ 64 - 4096)

-- The distance of two pages, in 21 bits.
unfoldable pub page_bits : ℕ → ℕ → ℕ
page_bits pc target =
    u32 (bit_and (to_bits 64 (asr (sub_ℕ (page_of target) (page_of pc)) 12)) 0x1fffff)

unfoldable pub enc_adrp : ℕ → ℕ → ℕ → ℕ
unfolding page_bits
enc_adrp rd pc target =
    let imm = page_bits pc target in
    0x90000000 ||| shl (bit_and imm 3) 29 ||| shl (bit_and (imm >>> 2) 0x7ffff) 5 ||| rd

unfoldable pub enc_ldr64 : ℕ → ℕ → ℕ → ℕ
enc_ldr64 rt rn target = 0xf9400000 ||| shl (bit_and target 0xfff >>> 3) 10 ||| shl rn 5 ||| rt

unfoldable pub enc_add64 : ℕ → ℕ → ℕ → ℕ
enc_add64 rd rn target = 0x91000000 ||| shl (bit_and target 0xfff) 10 ||| shl rn 5 ||| rd

abbrev pub build_start_stub : ℕ → ℕ → List ℕ
build_start_stub stub_vaddr main_vaddr =
    put32 (enc_bl stub_vaddr main_vaddr) ++ put32 0x52800ba8 ++ put32 0xd4000001

abbrev pub build_dyn_start_stub : ℕ → ℕ → ℕ → List ℕ
build_dyn_start_stub stub_vaddr main_vaddr exit_plt_vaddr =
    put32 (enc_bl stub_vaddr main_vaddr) ++ put32 (enc_bl (stub_vaddr + 4) exit_plt_vaddr)

abbrev pub build_plt0 : ℕ → ℕ → List ℕ
build_plt0 plt0_vaddr got_vaddr =
    let g2 = got_vaddr + 16 in
    put32 0xa9bf7bf0
    ++ put32 (enc_adrp 16 (plt0_vaddr + 4) g2)
    ++ put32 (enc_ldr64 17 16 g2)
    ++ put32 (enc_add64 16 16 g2)
    ++ put32 0xd61f0220
    ++ put32 0xd503201f
    ++ put32 0xd503201f
    ++ put32 0xd503201f

abbrev pub build_plt_entry : ℕ → ℕ → ℕ → ℕ → List ℕ × ℕ
build_plt_entry index plt_vaddr plt0_vaddr got_entry_vaddr = (
  put32 (enc_adrp 16 plt_vaddr got_entry_vaddr)
      ++ put32 (enc_ldr64 17 16 got_entry_vaddr)
      ++ put32 (enc_add64 16 16 got_entry_vaddr)
      ++ put32 0xd61f0220,
  plt0_vaddr,
)

abbrev pub patched_word : ℕ → ℕ → ℕ → ℕ
patched_word w site_vaddr target_vaddr =
    bit_and w (2 ^ 32 - 1 - 0x3ffffff)
    ||| bit_and (to_bits 32 (asr (sub_ℕ target_vaddr site_vaddr) 2)) 0x3ffffff

unfoldable pub aarch64_elf : (em_aarch64 r_aarch64_jump_slot : ℕ) → ElfMachine
aarch64_elf em_aarch64 r_aarch64_jump_slot = record {
  elf_machine = em_aarch64;
  reloc_jump_slot = r_aarch64_jump_slot;
  interp =
      b'/' ∷ b'l' ∷ b'i' ∷ b'b' ∷ b'/' ∷ b'l' ∷ b'd' ∷ b'-' ∷ b'l' ∷ b'i' ∷ b'n' ∷ b'u' ∷ b'x'
      ∷ b'-' ∷ b'a' ∷ b'a' ∷ b'r' ∷ b'c' ∷ b'h' ∷ b'6' ∷ b'4' ∷ b'.' ∷ b's' ∷ b'o' ∷ b'.' ∷ b'1'
      ∷ [];
  start_stub_size = 12;
  dyn_start_stub_size = 8;
  plt0_size = 32;
  plt_entry_size = 16;
  build_start_stub = build_start_stub;
  build_dyn_start_stub = build_dyn_start_stub;
  build_plt0 = build_plt0;
  build_plt_entry = build_plt_entry;
  patched_word = patched_word;
}
