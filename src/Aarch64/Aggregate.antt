-- ===== src/Aarch64/Aggregate.antt =====
-- How alc/bin-aarch64.c packs the members of an aggregate into a register of eight bytes. A value
-- is its 64 bits. The members of a struct are an argument, since `TypeT` has none.
use allang.Base.{
  ℕ, zero, suc, ◌+◌, ◌-◌, ◌*◌, ◌/◌, ◌%◌, ◌^◌, Bool, true, false, ◌&&◌, Option, none, some, List,
  leb, ltb, ◌==◌, if◌then◌else◌, ℤ, pos, sub_ℕ, to_bits, bit_and, u8, u64, get_elem?, length,
}
use allang.Aarch64.Alu.{
  emit_mov, emit_mov_reg, emit_orr_reg, emit_sub, emit_and_lowbits, emit_bitfield, tmp_reg,
}
use allang.Aarch64.Asm.{Asm, put_word, report}
use allang.Aarch64.Memory.{fp}
use allang.Aarch64.Words.{shl, ◌|||◌, reg_no, is64, op_movk, op_movz}
use allang.Typesys.Agg.{Member, memb_at, AggMember, no_member, value_member, reg_member, agg_member}
use allang.Typesys.Dtype.{Dtype, array, kind_eq, dtype_outer, dtype_size}
use allang.Typesys.Reg.{Reg, kind_no, stack, no_dtype}

-- The value of type `i64` with these bits.
abbrev pub from_bits : ℕ → ℤ
from_bits bits = if ltb bits (2 ^ 63) then pos bits else sub_ℕ bits (2 ^ 64)

-- `packed` bytes up to the member at `index`, as one value.
pub record Pack : Type 0 where
  pub packed : ℕ
  pub index : ℕ
  pub value : ℕ

-- The size of a member, which is the first one's in an array; `none` is a read out of range.
abbrev pub next_size_of : Option (List Member) → ℕ → ℕ → Option ℕ
next_size_of none first_size i = some first_size
next_size_of (some members) first_size i = elim (get_elem? members i) [
  | none ↦ none
  | some memb ↦ dtype_size memb.dtype
]

-- One round of `pack_small_values`, given the rounds after it.
unfoldable pub pack_next : Pack → Option AggMember → Option ℕ → (Pack → Option Pack) → Option Pack
pack_next p (some (value_member v)) (some next_size) on =
    let more : Pack = record {
      packed = p.packed + next_size;
      index = p.index + 1;
      value = p.value ||| u64 (to_bits 64 v * 2 ^ (next_size * 8));
    } in
    if ltb 2 (p.packed + next_size) then some p else on more
pack_next p (some (value_member v)) none on = none
pack_next p (some (reg_member r)) next_size on = some p
pack_next p (some (agg_member a)) next_size on = some p
pack_next p (some no_member) next_size on = some p
pack_next p none next_size on = none

-- Each round goes on by one member, so as many rounds as members are enough.
unfoldable pub pack_small_values :
    ℕ → Option (List Member) → List AggMember → ℕ → Pack → Option Pack
unfolding pack_next
pack_small_values zero members args first_size p = some p
pack_small_values (suc left) members args first_size p =
    let next = p.index + 1 in
    let on =
      pack_next p (get_elem? args next) (next_size_of members first_size next)
        λ more. pack_small_values left members args first_size more in
    if leb 2 p.packed
    then some p
    else if leb (length args) next
    then some (record p { index = next })
    else on

unfoldable pub emit_mov_lane : Asm → Reg → ℕ → ℕ → Bool → Asm
emit_mov_lane a dst chunk offset_bits initialized =
    let base = if initialized then op_movk else op_movz in
    put_word a (
      shl (is64 dst) 31
      ||| base
      ||| shl (offset_bits / 16) 21
      ||| shl (bit_and chunk 0xffff) 5
      ||| reg_no dst)

-- What has been emitted of the aggregate.
pub record Progress : Type 0 where
  pub asm : Asm
  pub index : ℕ
  pub size_acc : ℕ
  pub base_offset_bits : ℕ
  pub initialized : Bool

-- `emit_member_value`, from the value that was packed.
unfoldable pub put_value : Reg → ℕ → Pack → Progress → Progress
unfolding emit_mov_lane
put_value dst offset_bits p s =
    let wide = if leb 32 offset_bits && ltb dst.rsize 8 then record dst { rsize = 8 } else dst in
    let tmp = tmp_reg wide.rsize no_dtype in
    let moved = emit_mov s.asm tmp (from_bits (u64 (p.value * 2 ^ offset_bits))) in
    let placed =
      if s.initialized then emit_orr_reg moved wide wide tmp else emit_mov_reg moved wide tmp in
    let packed = record s { index = p.index; size_acc = s.size_acc + p.packed } in
    if p.value == 0
    then packed
    else if offset_bits % 16 == 0
    then (record packed {
      asm = emit_mov_lane s.asm wide p.value offset_bits s.initialized;
      initialized = true;
    })
    else record packed { asm = placed; initialized = true }

unfoldable pub emit_member_value :
    Reg → Option (List Member) → List AggMember → ℤ → ℕ → ℕ → Progress → Option Progress
unfolding pack_small_values put_value
emit_member_value dst members args v memb_size offset_bits s =
    let p : Pack = record { packed = memb_size; index = s.index; value = to_bits 64 v } in
    let packed =
      if offset_bits % 16 == 0
      then pack_small_values (length args) members args memb_size p
      else some p in
    elim packed [ none ↦ none | some q ↦ some (put_value dst offset_bits q s) ]

-- `reg.rsize` is raised to that of `dst`.
abbrev pub raised : Reg → Reg → Reg
raised reg dst = if ltb reg.rsize dst.rsize then record reg { rsize = dst.rsize } else reg

unfoldable pub emit_member_reg : Asm → Reg → Reg → ℕ → ℕ → Bool → Asm
emit_member_reg a dst reg memb_size offset_bits dst_initialized =
    if kind_no reg.reg_type == kind_no stack
    then emit_sub a dst fp reg.offset
    else if offset_bits == 0
    then (if ltb memb_size 4
        then emit_and_lowbits a dst (raised reg dst) (memb_size * 8)
        else emit_mov_reg a (record dst { rsize = u8 memb_size }) reg)
    else if dst_initialized
    then emit_bitfield a 0x33000000 0xb3400000 dst (raised reg dst) offset_bits (memb_size * 8)
    else emit_bitfield a 0x53000000 0xd3400000 dst (raised reg dst) offset_bits (memb_size * 8)

-- One round of the loop, with what follows it; a member that is no value and no register is
-- reported and ends the loop.
unfoldable pub put_member :
    Reg
    → Option (List Member)
    → List AggMember
    → AggMember
    → ℕ
    → ℕ
    → Progress
    → (Progress → Option Progress)
    → Option Progress
unfolding emit_member_value emit_member_reg
put_member dst members args (value_member v) memb_size offset_bits s on =
    elim (emit_member_value dst members args v memb_size offset_bits s) [
      | none ↦ none
      | some s' ↦ on (record s' { index = s'.index + 1 })
    ]
put_member dst members args (reg_member r) memb_size offset_bits s on = on (record s {
  asm = emit_member_reg s.asm dst r memb_size offset_bits s.initialized;
  index = s.index + 1;
  size_acc = s.size_acc + memb_size;
  initialized = true;
})
put_member dst members args no_member memb_size offset_bits s on =
    some (record s { asm = report s.asm })
put_member dst members args (agg_member a) memb_size offset_bits s on =
    some (record s { asm = report s.asm })

unfoldable pub eightbyte_from :
    ℕ → Reg → Option (List Member) → ℕ → List AggMember → ℕ → Progress → Option Progress
unfolding put_member
eightbyte_from zero dst members elem_size args limit s = some s
eightbyte_from (suc left) dst members elem_size args limit s = elim (get_elem? args s.index) [
  | none ↦ some s
  | some r ↦ elim (memb_at members elem_size s.index) [
    | none ↦ none
    | some (memb_size, offset) ↦
        let whole = offset * 8 in
        let base = if s.size_acc == 0 then whole else s.base_offset_bits in
        let s' = record s { base_offset_bits = base } in
        let on =
          put_member dst members args r memb_size (u64 (whole + (2 ^ 64 - base))) s'
            λ next. eightbyte_from left dst members elem_size args limit next in
        if ltb limit (s.size_acc + memb_size) then some s else on
  ]
]

-- With the index and the size that the pointers are left with. `none` is a read through NULL or
-- out of range.
unfoldable pub emit_eightbyte_struct :
    Asm → Reg → Dtype → List Member → List AggMember → ℕ → ℕ → ℕ → Option (Asm × ℕ × ℕ × Bool)
unfolding eightbyte_from
emit_eightbyte_struct a dst dtype members args index size limit = elim dtype.base [
  | none ↦ none
  | some type ↦
      let narrow = record dst { rsize = if ltb 8 type.size then 8 else u8 type.size } in
      let memb = if kind_eq (dtype_outer dtype).tag array then none else some members in
      let start : Progress = record {
        asm = a;
        index = index;
        size_acc = 0;
        base_offset_bits = 0;
        initialized = false;
      } in
      elim (eightbyte_from (length args) narrow memb type.size args limit start) [
        | none ↦ none
        | some s ↦ some (s.asm, s.index, size + s.size_acc, s.initialized)
      ]
]
