-- ===== src/X86/Element.antt =====
-- Elements of arrays in alc/bin-x86_64.c.
use allang.Base.{
  ◌||◌, ℕ, Bool, true, not, ◌&&◌, Option, none, some, List, [], ◌∷◌, ◌++◌, leb, ◌==◌, if◌then◌else◌,
  pos, eqb_ℤ, ◌|||◌, u32,
}
use allang.Typesys.Exponent.{power_of_two_exponent}
use allang.Typesys.Reg.{Reg, kind_no, scratch, stack, frame, plain_reg}
use allang.X86.Alu.{emit_mov_reg, emit_add_reg, emit_sub}
use allang.X86.Asm.{Asm, put_bytes, report}
use allang.X86.Encode.{RegTables, reg_no, rsz, put32, rex_base, modrm_rr, encode_mem}
use allang.X86.Memory.{emit_str_reg, emit_ldr, emit_str_regoff, emit_ldr_reg}

abbrev pub frame_reg : Reg
frame_reg = plain_reg frame 0 8

abbrev pub idx_reg : Reg
idx_reg = plain_reg scratch 1 8

-- An index of one or two bytes is widened.
abbrev pub is_short : Reg → Bool
is_short r = (r.rsize == 1) || (r.rsize == 2)

module _ (t : RegTables) where
  -- IMUL of a register by the size of an element.
  unfoldable pub scale_by : ℕ → ℕ → List ℕ
  scale_by r elem_size =
      (rex_base ||| 8 ||| (if leb 8 r then 5 else 0))
      ∷ (if leb elem_size 127
          then 0x6b ∷ modrm_rr r r ∷ elem_size ∷ []
          else 0x69 ∷ modrm_rr r r ∷ put32 (u32 elem_size))

  unfoldable pub widen_index : Reg → List ℕ
  unfolding emit_mov_reg
  widen_index index =
      if is_short index then emit_mov_reg t (record index { rsize = 8 }) index else []

  -- What goes on once the element is known not to be empty; `offset` and `mem` have eight bytes.
  unfoldable pub access_element : Bool → Reg → Reg → Reg → ℕ → List ℕ
  unfolding emit_str_reg emit_ldr emit_str_regoff emit_ldr_reg scale_by emit_add_reg emit_mov_reg
      encode_mem power_of_two_exponent
  access_element is_store mem value offset elem_size =
      if elem_size == 1
      then (if is_store
          then emit_str_regoff t mem value offset
          else emit_ldr_reg t value mem offset)
      else if leb elem_size 8 && not (power_of_two_exponent elem_size == 0)
      then encode_mem (if is_store then 0x89 else 0x8b) (rsz value) (reg_no t value) (reg_no t mem)
          true (reg_no t offset) elem_size (pos 0)
      else emit_mov_reg t idx_reg offset
        ++ (scale_by (reg_no t idx_reg) elem_size
            ++ (emit_add_reg t idx_reg mem idx_reg
                ++ (if is_store
                    then emit_str_reg t idx_reg value (pos 0)
                    else emit_ldr t value idx_reg (pos 0))))

  -- `none` where a type is read through NULL.
  unfoldable pub emit_array_access : Asm → Reg → Reg → Reg → Bool → Option Asm
  unfolding emit_sub widen_index access_element put_bytes report
  emit_array_access a dst src offset is_store =
      let mem = if is_store then dst else src in
      let value = if is_store then src else dst in
      let on_stack = (kind_no mem.reg_type == kind_no stack) && not (eqb_ℤ mem.offset (pos 0)) in
      let moved = record mem { reg_type = scratch; offset = pos 2; rsize = 8 } in
      let based = if on_stack then put_bytes a (emit_sub t moved frame_reg mem.offset) else a in
      let base = if on_stack then moved else mem in
      elim mem.dtype.base [
        | none ↦ none
        | some type ↦ some (
            if type.size == 0
            then report based
            else put_bytes based (
                widen_index offset
                ++ access_element is_store (record base { rsize = 8 }) value
                    (record offset { rsize = 8 }) type.size))
      ]

  -- `none` where a type is read through NULL.
  unfoldable pub emit_elem_addr : Reg → Reg → Reg → Option (List ℕ)
  unfolding emit_sub emit_mov_reg widen_index encode_mem scale_by emit_add_reg power_of_two_exponent
  emit_elem_addr dst object index =
      let base = plain_reg scratch 0 8 in
      let wide = record index { rsize = 8 } in
      let based =
        if kind_no object.reg_type == kind_no stack
        then emit_sub t base frame_reg object.offset
        else emit_mov_reg t base object in
      elim object.dtype.base [
        | none ↦ none
        | some type ↦
            let size = type.size in
            some (
              based
              ++ (widen_index index
                  ++ (if leb size 8 && ((size == 1) || not (power_of_two_exponent size == 0))
                      then encode_mem 0x8d (rsz dst) (reg_no t dst) (reg_no t base) true
                          (reg_no t wide) size (pos 0)
                      else emit_mov_reg t idx_reg wide
                        ++ (scale_by (reg_no t idx_reg) size ++ emit_add_reg t dst base idx_reg))))
      ]
