-- ===== src/Tests/X86Tests.antt =====
-- Concrete runs of alc/bin-x86_64.c, as witnesses of the theorems about it.
use allang.Base.{
  ℕ, ◌+◌, ◌≡◌, refl, arith, true, false, none, some, inl, List, [], ◌∷◌, ◌++◌, pos, negsuc, ◌+ℤ◌,
  take, ◌-◌,
}
use allang.X86.Alu.{mov_imm}
use allang.X86.Alu.Effects.{Moved}
use allang.X86.Alu.Laws.{mov_imm_lem}
use allang.X86.Asm.{Asm, Label, Fixup, fx_jmp, fx_call, Image, patch_all, put_bytes, code_cap}
use allang.X86.Asm.Bytes.{put_bytes_lem, with_body}
use allang.X86.Asm.Laws.{patch_all-target, Refers, First}
use allang.X86.Asm.Store.{leads}
use allang.X86.Encode.{encode_rr, encode_mem}
use allang.X86.Encode.Fields.{w8, w64}
use allang.X86.Encode.RegMem.{read_insn-encode_mem}
use allang.X86.Encode.RegReg.{read_insn-encode_rr}
use allang.X86.Frame.{FnUse}
use allang.X86.Machine.{op_add, mov_load, in_reg, at_base, read_insn}
use allang.X86.Machine.Moves.{Regs, run_move}
use allang.X86.Memory.{fill_stores}
use allang.X86.Memory.Laws.{fill_stores_lem, Tiles, all_sizes}

-- `add sil, r9b`, and RET.
read_insn-encode_rr_example :
    read_insn (encode_rr 0x01 1 9 6 ++ 0xc3 ∷ [])
    ≡ some (record { op = op_add; size = 1; reg = 9; operand = in_reg 6 }, 0xc3 ∷ [])
read_insn-encode_rr_example =
    read_insn-encode_rr op_add w8 9 6 (0xc3 ∷ []) refl (omega arith) (omega arith)

-- `mov rax, [r13 + r9 * 8]`, whose displacement of 0 has a byte.
read_insn-encode_mem_example :
    read_insn (encode_mem 0x8b 8 0 13 true 9 8 (pos 0) ++ [])
    ≡ some (
      record { op = mov_load; size = 8; reg = 0; operand = at_base 13 (some (9, 8)) (pos 0) },
      [],
    )
read_insn-encode_mem_example =
    read_insn-encode_mem mov_load w64 0 13 true 9 3 (pos 0) [] refl (omega arith) (omega arith)
      (omega arith) (λ e. λ same. omega arith) (omega arith) (omega arith)

abbrev some_regs : Regs
some_regs r = r + 5

mov_imm_lem_example :
    Moved (run_move (mov_imm 8 12 (pos 0x100000000)) some_regs) some_regs 12 8 0x100000000
mov_imm_lem_example = mov_imm_lem w64 some_regs 12 (pos 0x100000000) (omega arith)

-- A jump back over a call ahead.
abbrev name_l : List ℕ
name_l = b'l' ∷ []

abbrev jump_l : Fixup
jump_l = record { key = name_l; site = 6; aux = 0; kind = fx_jmp; done = true }

abbrev call_l : Fixup
call_l = record { key = name_l; site = 1; aux = 0; kind = fx_call; done = true }

abbrev label_l : List Label
label_l = record { key = name_l; at = 0; done = true } ∷ []

abbrev symbol_l : List Label
symbol_l = record { key = name_l; at = 10; done = false } ∷ []

abbrev two_sites : Image
two_sites = record {
  code = 0xe8 ∷ 0 ∷ 0 ∷ 0 ∷ 0 ∷ 0xe9 ∷ 0 ∷ 0 ∷ 0 ∷ 0 ∷ 0xc3 ∷ [];
  imports = [];
  extcalls = [];
  reports = 0;
}

jump_l-Refers : Refers label_l symbol_l 11 jump_l fx_jmp 0
unfolding Refers First
jump_l-Refers = inl (refl, refl)

patch_all-target_example :
    leads (patch_all label_l symbol_l 11 two_sites (call_l ∷ jump_l ∷ [])).code 6 ≡ pos 0
patch_all-target_example =
    patch_all-target label_l symbol_l 11 (call_l ∷ jump_l ∷ []) two_sites 1 jump_l 0 refl refl
      (omega arith) refl jump_l-Refers (omega arith)

fill_stores_lem_example :
    let stores = fill_stores 11 8 (negsuc 15) 7 in
    Tiles (negsuc 15) (negsuc 15 +ℤ pos 7) stores × (all_sizes stores ≡ true)
fill_stores_lem_example = fill_stores_lem 7 (negsuc 15)

abbrev empty_asm : Asm
empty_asm = record {
  code = [];
  entry_off = 0;
  body = [];
  prol = [];
  emit_to_prol = false;
  labels = [];
  fixups = [];
  fn_syms = [];
  cstrs = [];
  contexts = [];
  active = none;
  reports = 0;
}

put_bytes_lem_example :
    put_bytes empty_asm (0x31 ∷ 0xc0 ∷ [])
    ≡ with_body empty_asm ([] ++ take (code_cap - 0) (0x31 ∷ 0xc0 ∷ [])) (0 + (2 - (code_cap - 0)))
put_bytes_lem_example = put_bytes_lem empty_asm (0x31 ∷ 0xc0 ∷ []) refl (omega arith)

abbrev calls_with_three : FnUse
calls_with_three = record { calls_fn = true; nreg_count = 3; stack_size = 20 }
