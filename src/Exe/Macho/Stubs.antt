-- ===== src/Exe/Macho/Stubs.antt =====
-- The stubs of alc/exe-macho.c, through which imports are called, and the calls.
use allang.Base.{
  ℕ, ◌+◌, ◌*◌, List, ◌++◌, ℤ, sub_ℕ, to_bits, to_signed, bit_and, ◌|||◌, ◌>>>◌, shl, u32,
}
use allang.X86.Encode.{put32}
use allang.Exe.Blocks.{build_blocks}
use allang.Exe.Machine.Aarch64Elf.{asr, page_of}

-- `(int64_t)(a - b)` of two numbers of 64 bits.
abbrev pub distance : ℕ → ℕ → ℤ
distance a b = to_signed 64 (to_bits 64 (sub_ℕ a b))

unfoldable pub stub_pages : ℕ → ℕ → ℤ
stub_pages got_vm stub_vm = asr (distance (page_of got_vm) (page_of stub_vm)) 12

unfoldable pub stub_adrp : ℕ → ℕ → ℕ
unfolding stub_pages
stub_adrp got_vm stub_vm =
    let pages = stub_pages got_vm stub_vm in
    let immlo = u32 (bit_and (to_bits 64 pages) 3) in
    let immhi = bit_and (to_bits 32 (asr pages 2)) 0x7ffff in
    0x90000010 ||| u32 (shl immlo 29) ||| u32 (shl immhi 5)

unfoldable pub stub_ldr : ℕ → ℕ
stub_ldr got_vm = 0xf9400210 ||| u32 (shl (u32 (bit_and got_vm 0xfff) >>> 3) 10)

abbrev pub stub_br : ℕ
stub_br = 0xd61f0200

unfoldable pub build_stub : (got_vm stub_vm : ℕ) → List ℕ
unfolding stub_adrp stub_ldr
build_stub got_vm stub_vm =
    put32 (stub_adrp got_vm stub_vm) ++ put32 (stub_ldr got_vm) ++ put32 stub_br

-- The stubs of `n` imports; `stubs_vm` is the address of the first.
abbrev pub build_stubs : (data_vm stubs_vm n : ℕ) → List ℕ
build_stubs data_vm stubs_vm n =
    build_blocks (λ (i : ℕ). build_stub (data_vm + i * 8) (stubs_vm + i * 12)) 0 n

-- BL, whatever the bytes were.
abbrev pub patched_bl : ℕ → ℕ → ℕ → ℕ
patched_bl w bl_vm stub_vm =
    0x94000000 ||| bit_and (to_bits 32 (asr (distance stub_vm bl_vm) 2)) 0x3ffffff
