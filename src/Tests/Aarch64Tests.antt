-- ===== src/Tests/Aarch64Tests.antt =====
-- AArch64: a constant in a scratch register.
use allang.Aarch64.Asm.{Asm, Label, Fixup, fx_call, fx_branch, Image, patch_fixup, emit_fn_end}
use allang.Aarch64.Asm.Laws.{Refers, First, blank, Landed, patch_fixup-Landed}
use allang.Aarch64.Asm.Settle.{emit_fn_end_lem, Named}
use allang.Str.{Str}
use allang.Typesys.Reg.{eq}
use allang.Base.{
  inl, get_or, get_elem?, some, List, false, ℕ, ◌<◌, ◌≡◌, refl, true, arith, pos, negsuc, to_bits,
  ◌==◌, if◌then◌else◌, [], ◌∷◌,
}
use allang.Typesys.Reg.{Reg, plain_reg, scratch}
use allang.Aarch64.Words.{reg_no, is64, mov_word}
use allang.Typesys.Dtype.{dtype_tryget_addr}
use allang.Aarch64.Machine.{Regs, field, all_move_wide, run_moves}
use allang.Aarch64.Mov.{emit_mov_words}
use allang.Aarch64.Mov.Laws.{emit_mov_lem}

abbrev cleared : Regs
cleared r j = 0

-- `w9`
abbrev w9 : Reg
w9 = plain_reg scratch 1 4

two_words : emit_mov_words w9 (pos 0x12345) ≡ 0x528468a9 ∷ 0x72a00029 ∷ []
unfolding emit_mov_words is64 dtype_tryget_addr mov_word reg_no
two_words = refl

all_ones : emit_mov_words w9 (negsuc 0) ≡ 0x92800009 ∷ []
unfolding emit_mov_words is64 dtype_tryget_addr mov_word reg_no
all_ones = refl

w9_no : reg_no w9 < 31
unfolding reg_no
w9_no = omega arith

emit_mov_lem_example :
    (all_move_wide (emit_mov_words w9 (pos 0x12345)) ≡ true)
    × (run_moves (emit_mov_words w9 (pos 0x12345)) cleared 9 1
        ≡ (if 9 == reg_no w9 then field (to_bits 64 (pos 0x12345)) 16 16 else 0))
emit_mov_lem_example = emit_mov_lem w9 (pos 0x12345) cleared 9 1 w9_no (omega arith)

-- A call of a function one word on.
abbrev name_f : Str
name_f = b'f' ∷ []

abbrev call_f : Fixup
call_f = record { key = name_f; site = 0; aux = 0; kind = fx_call; done = true }

abbrev two_calls : Image
two_calls = record { code = 0x94000000 ∷ 0xd65f03c0 ∷ []; imports = []; extcalls = []; reports = 0 }

abbrev symbol_f : List Label
symbol_f = record { key = name_f; word = 1; done = false } ∷ []

symbol_f-Refers : Refers fx_call [] symbol_f name_f 1
unfolding Refers First
symbol_f-Refers = inl (refl, refl)

call_f-blank : 0x94000000 ≡ blank fx_call eq
unfolding blank
call_f-blank = refl

patch_fixup-Landed_example :
    Landed two_calls (patch_fixup [] symbol_f 8 two_calls call_f) fx_call eq 0 1
patch_fixup-Landed_example =
    patch_fixup-Landed [] symbol_f 8 two_calls 1 call_f eq symbol_f-Refers (omega arith)
      (omega arith) (omega arith) call_f-blank

-- A function of a prologue of one word and a body of two, with a label before the second.
abbrev label_two : Label
label_two = record { key = name_f; word = 1; done = false }

abbrev fixup_one : Fixup
fixup_one = record { key = name_f; site = 0; aux = 0; kind = fx_branch; done = false }

-- The label and the fixup of an earlier function.
abbrev old_label : Label
old_label = record { key = []; word = 0; done = true }

abbrev old_fixup : Fixup
old_fixup = record { key = []; site = 0; aux = 0; kind = fx_call; done = true }

abbrev one_function : Asm
one_function = record {
  code = 0xd65f03c0 ∷ [];
  entry_off = 0;
  body = 0x14000000 ∷ 0xd65f03c0 ∷ [];
  prol = 0xa9bf7bfd ∷ [];
  labels = old_label ∷ label_two ∷ [];
  fixups = old_fixup ∷ fixup_one ∷ [];
  fn_syms = [];
  cstrs = [];
  contexts = record { fn_name = name_f; fn_named = true } ∷ [];
  active = some 0;
  reports = 0;
}

emit_fn_end_lem_example :
    let a' = emit_fn_end one_function 0 in
    ((j : ℕ) → j < 1 → get_or a'.code j 0 ≡ get_or (0xd65f03c0 ∷ []) j 0)
    × ((l' : Label) × (get_elem? a'.labels 1 ≡ some l')
        × (l'.key ≡ name_f)
        × (l'.done ≡ true)
        × (get_or a'.code l'.word 0 ≡ 0xd65f03c0))
    × ((fx' : Fixup) × (get_elem? a'.fixups 1 ≡ some fx')
        × (fx'.key ≡ name_f)
        × (fx'.done ≡ true)
        × (get_or a'.code fx'.site 0 ≡ 0x14000000))
    × ((k : ℕ) (old : Label)
        → get_elem? one_function.labels k ≡ some old
        → old.done ≡ true
        → get_elem? a'.labels k ≡ some old)
    × ((k : ℕ) (old : Fixup)
        → get_elem? one_function.fixups k ≡ some old
        → old.done ≡ true
        → get_elem? a'.fixups k ≡ some old)
    × Named true one_function a'.fn_syms a'.entry_off (record { fn_name = name_f; fn_named = true })
emit_fn_end_lem_example =
    emit_fn_end_lem one_function 0 (omega arith) 1 label_two 1 fixup_one refl refl (omega arith)
      refl refl (omega arith)

-- `ldur w9, [x8, #-4]`
abbrev x8 : Reg
x8 = plain_reg scratch 0 8
