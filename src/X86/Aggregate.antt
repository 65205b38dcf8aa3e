-- ===== src/X86/Aggregate.antt =====
-- How alc/bin-x86_64.c puts the members of an aggregate into a register of eight bytes. The
-- members of a struct are an argument, since `TypeT` has none.
use allang.Base.{
  ℕ, zero, suc, ◌+◌, ◌-◌, ◌*◌, ◌%◌, ◌^◌, Bool, true, false, not, ◌&&◌, Option, none, some, List, [],
  ◌++◌, leb, ltb, ◌==◌, if◌then◌else◌, ℤ, pos, ◌+ℤ◌, leb_ℤ, eqb_ℤ, to_bits, to_signed, u8, u64,
  get_elem?, length, i32,
}
use allang.Typesys.Agg.{Member, memb_at, AggMember, no_member, value_member, reg_member, agg_member}
use allang.Typesys.Dtype.{Dtype, array, kind_eq, dtype_outer, dtype_empty}
use allang.Typesys.Reg.{Reg, kind_no, scratch, stack, frame, plain_reg}
use allang.X86.Alu.{emit_mov, emit_mov_reg, emit_sub}
use allang.X86.Encode.{RegTables, alu_rr, alu_ri, shift_ri}

-- What the loop of `emit_eightbyte_struct` goes on with: the bytes put so far, the index of the
-- member, the size so far, and whether the register has been written.
pub record Fill : Type 0 where
  pub out : List ℕ
  pub index : ℕ
  pub size_acc : ℕ
  pub cleared : Bool

-- The scratch register after the destination, if that is one from the second on.
unfoldable pub shift_tmp : Reg → Reg
shift_tmp dst =
    let next = plain_reg scratch 1 8 in
    if (kind_no dst.reg_type == kind_no scratch) && leb_ℤ (pos 1) dst.offset
    then record next { offset = dst.offset +ℤ pos 1 }
    else next

-- The size of the register for the rest of an array, of `remaining` bytes.
unfoldable pub span_size : ℕ → ℕ
span_size remaining =
    let span = if ltb 8 remaining then 8 else remaining in
    if ltb 4 span then 8 else if ltb 2 span then 4 else if ltb 1 span then 2 else 1

module _ (t : RegTables) where
  unfoldable pub fill_value : Reg → ℤ → ℕ → Bool → List ℕ
  unfolding emit_mov alu_ri alu_rr shift_tmp
  fill_value dst v offset_bits cleared =
      let shifted = to_signed 64 (u64 (to_bits 64 v * 2 ^ offset_bits)) in
      if not cleared
      then emit_mov t dst shifted
      else if eqb_ℤ shifted (pos 0)
      then []
      else if eqb_ℤ shifted (i32 shifted)
      then alu_ri t 1 dst shifted
      else emit_mov t (shift_tmp dst) shifted ++ alu_rr t 0x09 dst (shift_tmp dst)

  -- MOV into the register the first time, and OR from then on.
  abbrev pub merge : Reg → Reg → Bool → List ℕ
  merge dst src cleared = alu_rr t (if cleared then 0x09 else 0x89) dst src

  unfoldable pub fill_reg : Reg → Reg → ℕ → ℕ → Bool → List ℕ
  unfolding emit_sub emit_mov_reg alu_rr shift_ri shift_tmp
  fill_reg dst src memb_size offset_bits cleared =
      let tmp = shift_tmp dst in
      let on_stack = kind_no src.reg_type == kind_no stack in
      let size = if ltb memb_size 4 then u8 memb_size else if leb memb_size 4 then 4 else 8 in
      let sized = record (if on_stack then tmp else src) { rsize = size } in
      let address = if on_stack then emit_sub t tmp (plain_reg frame 0 8) src.offset else [] in
      let through =
        (if ltb size 8 then emit_mov_reg t tmp sized else alu_rr t 0x89 tmp sized)
        ++ ((if offset_bits == 0 then [] else shift_ri t 4 tmp (pos offset_bits))
            ++ merge dst tmp cleared) in
      address
      ++ (if (offset_bits == 0) && (size == dst.rsize) then merge dst sized cleared else through)

  unfoldable pub fill_member : Reg → AggMember → ℕ → ℕ → Fill → Fill
  unfolding fill_value fill_reg
  fill_member dst (value_member v) memb_size offset_bits s = record s {
    out = s.out ++ fill_value dst v offset_bits s.cleared;
    cleared = true;
  }
  fill_member dst (reg_member r) memb_size offset_bits s = record s {
    out = s.out ++ fill_reg dst r memb_size offset_bits s.cleared;
    cleared = true;
  }
  fill_member dst no_member memb_size offset_bits s = s
  fill_member dst (agg_member a) memb_size offset_bits s = s

  -- A member that the eight bytes have no room for ends the loop.
  unfoldable pub fill_from :
      ℕ → Reg → Option (List Member) → ℕ → List AggMember → Fill → Option Fill
  unfolding fill_member
  fill_from zero dst members elem_size args s = some s
  fill_from (suc left) dst members elem_size args s = elim (get_elem? args s.index) [
    | none ↦ some s
    | some arg ↦ elim (memb_at members elem_size s.index) [
      | none ↦ none
      | some (memb_size, offset) ↦
          let put =
            fill_member dst arg memb_size (offset * 8 % 64)
              (record s { size_acc = s.size_acc + memb_size }) in
          let on = fill_from left dst members elem_size args (record put { index = s.index + 1 }) in
          if ltb 8 (s.size_acc + memb_size) then some s else on
    ]
  ]

  -- With the index and the size that the pointers are left with, and whether the register has been
  -- written. `none` is a read through NULL or out of range.
  unfoldable pub emit_eightbyte_struct :
      Reg → Dtype → List Member → List AggMember → ℕ → ℕ → Option (List ℕ × ℕ × ℕ × Bool)
  unfolding span_size fill_from
  emit_eightbyte_struct dst dtype members args index size = elim dtype.base [
    | none ↦ none
    | some type ↦
        let is_arr = not (dtype_empty dtype) && kind_eq (dtype_outer dtype).tag array in
        let remaining = u64 (u64 (length args + (2 ^ 64 - index)) * type.size) in
        let whole = if is_arr then record dst { rsize = span_size remaining } else dst in
        let memb = if is_arr then none else some members in
        let start : Fill = record { out = []; index = index; size_acc = 0; cleared = false } in
        elim (fill_from (length args) whole memb type.size args start) [
          | none ↦ none
          | some s ↦ some (s.out, s.index, size + s.size_acc, s.cleared)
        ]
  ]
