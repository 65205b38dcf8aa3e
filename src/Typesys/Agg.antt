-- ===== src/Typesys/Agg.antt =====
-- alc/typesys.h: values, registers and aggregates as the members of an aggregate.
use allang.Base.{ℕ, ◌*◌, ℤ, Option, none, some, List, get_elem?}
use allang.Typesys.Dtype.{Dtype, dtype_size}
use allang.Typesys.Reg.{Reg}

-- `regable`, by its tag.
pub data Regable : Type 0 where
  no_regable : Regable
  value : ℤ → Regable
  reg : Reg → Regable
  aggregate : Regable

-- `agg_member`, by its tag; an aggregate is the address of its members.
pub data AggMember : Type 0 where
  no_member : AggMember
  value_member : ℤ → AggMember
  reg_member : Reg → AggMember
  agg_member : ℕ → AggMember

-- `none` is `unreachable`.
unfoldable pub agg_member_from : Regable → Option AggMember
agg_member_from (value v) = some (value_member v)
agg_member_from (reg r) = some (reg_member r)
agg_member_from no_regable = some no_member
agg_member_from aggregate = none

-- The fields of `member_t` that are read.
pub record Member : Type 0 where
  pub dtype : Dtype
  pub offset : ℕ

-- The member at an index: of an array, one of the base type.
abbrev pub memb_at : Option (List Member) → ℕ → ℕ → Option (ℕ × ℕ)
memb_at none elem_size i = some (elem_size, i * elem_size)
memb_at (some members) elem_size i = elim (get_elem? members i) [
  | none ↦ none
  | some memb ↦ elim (dtype_size memb.dtype) [ none ↦ none | some size ↦ some (size, memb.offset) ]
]
