-- ===== src/Aarch64/Element.antt =====
-- Elements of arrays in alc/bin-aarch64.c.
use allang.Base.{ℕ, Bool, true, not, ◌&&◌, Option, none, some, leb, ◌==◌, if◌then◌else◌, pos, eqb_ℤ}
use allang.Aarch64.Alu.{emit_mov, emit_sub, addsub_ext, op_add_reg, zero_reg}
use allang.Aarch64.Asm.{Asm, put_word, report}
use allang.Aarch64.Memory.{fp, ldst_regoff, emit_str_regoff, emit_ldr_reg}
use allang.Aarch64.Words.{shl, ◌|||◌, reg_no, is64}
use allang.Typesys.Dtype.{addr, dtype_size, dtype_wrap}
use allang.Typesys.Exponent.{ctz, power_of_two_exponent}
use allang.Typesys.Reg.{Reg, kind_no, scratch, stack, plain_reg}

-- The base register of an array on the stack: its address in a scratch register.
unfoldable pub array_base : Asm → Reg → Asm × Reg
array_base a mem =
    let moved = record mem {
      reg_type = scratch;
      offset = pos 3;
      rsize = 8;
      dtype = dtype_wrap mem.dtype (record { tag = addr; amount = pos 1 });
    } in
    if (kind_no mem.reg_type == kind_no stack) && not (eqb_ℤ mem.offset (pos 0))
    then (emit_sub a moved fp mem.offset, moved)
    else (a, mem)

unfoldable pub access_plain : Asm → Bool → Reg → Reg → Reg → Asm
access_plain a is_store mem value offset =
    if is_store then emit_str_regoff a mem value offset else emit_ldr_reg a value mem offset

-- An element whose size is no power of two up to 8: the product is put in `w10`, and the access
-- takes the offset as it was given.
unfoldable pub access_scaled : Asm → Bool → Reg → Reg → Reg → ℕ → Asm
unfolding access_plain
access_scaled a is_store mem value offset array_size =
    let idx = plain_reg scratch 2 0 in
    let size = if array_size == 0 then zero_reg 0 else plain_reg scratch 1 0 in
    let sized = if array_size == 0 then a else emit_mov a size (pos array_size) in
    access_plain
      (put_word sized (0x9b207c00 ||| shl (reg_no size) 16 ||| shl (reg_no idx) 5 ||| reg_no idx))
      is_store mem value offset

unfoldable pub access_element : Asm → Bool → Reg → Reg → Reg → ℕ → ℕ → Asm
unfolding access_plain access_scaled power_of_two_exponent
access_element a is_store mem value offset array_size elem_size =
    if elem_size == 0
    then report a
    else if elem_size == 1
    then access_plain a is_store mem value offset
    else if leb elem_size 8 && not (power_of_two_exponent elem_size == 0)
    then ldst_regoff a (not is_store) value mem offset true
    else access_scaled a is_store mem value offset array_size

-- `none` where the size is read through NULL.
unfoldable pub emit_array_access : Asm → Reg → Reg → Reg → Bool → Option Asm
unfolding array_base access_element
emit_array_access a dst src offset is_store =
    let mem = if is_store then dst else src in
    let value = if is_store then src else dst in
    let based = array_base a mem in
    elim (dtype_size mem.dtype) [
      | none ↦ none
      | some array_size ↦ elim mem.dtype.base [
        | none ↦ none
        | some t ↦ some (access_element based.0 is_store based.1 value offset array_size t.size)
      ]
    ]

-- `none` where a type is read through NULL.
unfoldable pub emit_elem_addr : Asm → Reg → Reg → Reg → Option Asm
unfolding ctz
emit_elem_addr a dst object index =
    let on_stack = kind_no object.reg_type == kind_no stack in
    let base = if on_stack then plain_reg scratch 0 8 else object in
    let based = if on_stack then emit_sub a base fp object.offset else a in
    elim object.dtype.base [
      | none ↦ none
      | some t ↦ elim index.dtype.base [
        | none ↦ none
        | some itype ↦
            let shift = ctz t.size in
            some (
              if leb 8 itype.size
              then put_word based (
                  shl (is64 dst) 31
                  ||| op_add_reg
                  ||| shl (reg_no index) 16
                  ||| shl shift 10
                  ||| shl (reg_no base) 5
                  ||| reg_no dst)
              else addsub_ext based op_add_reg dst base (record index { rsize = 4 }) shift)
      ]
    ]
