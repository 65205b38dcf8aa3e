-- ===== src/Parser/Struct.antt =====
-- The layout of a struct in `stmt_struct_decl` of alc/main.c, given the types of its members.
pub mod Align
pub mod Laws
use allang.Base.{
  ℕ, ◌+◌, ◌-◌, ◌^◌, Option, none, some, List, [], ◌∷◌, ◌++◌, ltb, if◌then◌else◌, u64, bit_and,
}
use allang.Typesys.Agg.{Member}
use allang.Typesys.Dtype.{TypeT, Dtype}

-- `ALIGN_TO` on `size_t`
unfoldable pub align_to : ℕ → ℕ → ℕ
align_to n align =
    bit_and (u64 (n + align + (2 ^ 64 - 1))) (2 ^ 64 - 1 - u64 (align + (2 ^ 64 - 1)))

-- The fields of the new `type_t` that a member changes.
pub record Layout : Type 0 where
  pub size : ℕ
  pub align : ℕ
  pub members : List Member

-- `none` where the type is NULL and is read.
unfoldable pub place_member : Layout → Dtype → Option TypeT → Option Layout
place_member l dtype none = none
place_member l dtype (some t) =
    let offset = align_to l.size t.align in
    some (record {
      size = u64 (offset + t.size);
      align = if ltb l.align t.align then t.align else l.align;
      members = l.members ++ (record { dtype = dtype; offset = offset }) ∷ [];
    })

unfoldable pub place_members : List Dtype → Layout → Option Layout
place_members [] l = some l
place_members (d ∷ ds) l = elim (place_member l d d.base) [
  | none ↦ none
  | some m ↦ place_members ds m
]

-- A struct without members.
abbrev pub no_layout : Layout
no_layout = record { size = 0; align = 0; members = [] }

-- A type without members, to which they are added.
unfoldable pub struct_layout : List Dtype → Option Layout
struct_layout ds = elim (place_members ds no_layout) [
  | none ↦ none
  | some l ↦ some (record l { size = align_to l.size l.align })
]
