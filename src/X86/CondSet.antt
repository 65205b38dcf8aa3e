-- ===== src/X86/CondSet.antt =====
-- `emit_cond_set` of alc/bin-x86_64.c: a condition as a value.
use allang.Base.{ℕ, ◌+◌, none, some, List, [], ◌∷◌, ◌++◌, leb, if◌then◌else◌, bit_and, ◌|||◌}
use allang.Typesys.Reg.{Reg, Cond}
use allang.X86.Alu.{emit_mov_reg}
use allang.X86.Asm.{Asm, put_bytes, report, cond_cc}
use allang.X86.Encode.{RegTables, reg_no, rex_bit, put_rex, is_low_byte}

-- SETcc of a register.
unfoldable pub setcc : ℕ → ℕ → List ℕ
setcc cc' r =
    put_rex (rex_bit (leb 8 r) 1) (is_low_byte r)
    ++ 0x0f ∷ (0x90 + cc') ∷ (0xc0 ||| bit_and r 7) ∷ []

unfoldable pub emit_cond_set : RegTables → Asm → Reg → Cond → Asm
unfolding setcc emit_mov_reg put_bytes report cond_cc
emit_cond_set t a dst cond =
    let wide = if leb dst.rsize 1 then record dst { rsize = 4 } else dst in
    let byted : Reg = record dst {
      rsize = 1;
      dtype = record (dst.dtype) { base = none; decl_len = 0 };
    } in
    elim (cond_cc cond) [
      | none ↦ report a
      | some cc' ↦ put_bytes a (setcc cc' (reg_no t dst) ++ emit_mov_reg t wide byted)
    ]
