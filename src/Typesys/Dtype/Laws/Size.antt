-- ===== src/Typesys/Dtype/Laws/Size.antt =====
-- The size of a dtype, from its declarators.
use allang.Base.{
  ℕ, zero, suc, ◌<◌, ◌≡◌, refl, ◌∙◌, ap, List, [], ◌∷◌, arith, Option, none, some, ◌*◌, ◌%◌, ◌^◌, ℤ,
  to_bits,
}
use allang.Typesys.Dtype.{
  Dtype, Declarator, TypeT, DtypeKind, addr, slice, check, array, dk_none, scaled, base_size,
  size_under, size_rounds, dtype_size, dtype_unwrap_dup, dtype_outer,
}
use allang.Typesys.Dtype.View.{
  view, IsDtype, view-dtype_unwrap, decl_len-dtype_unwrap, dtype_unwrap-IsDtype,
}

-- The outermost declarator that is no check decides: 8 bytes for an address, 16 for a slice, and the
-- base's size times the length, modulo 2 ^ 64, for an array. A dtype without a base has no size.
unfoldable pub size_of : Option TypeT → List Declarator → Option ℕ
size_of none [] = none
size_of (some t) [] = some t.size
size_of base (d ∷ ds) = elim d.tag [
  | addr ↦ some 8
  | slice ↦ some 16
  | check ↦ size_of base ds
  | array ↦ elim base [ none ↦ none | some t ↦ some (t.size * to_bits 64 d.amount % 2 ^ 64) ]
  | dk_none ↦ none
]

size_of-base : (base : Option TypeT) → base_size base ≡ size_of base []
unfolding size_of base_size
size_of-base none = refl
size_of-base (some t) = refl

under :
    (base : Option TypeT) (tag : DtypeKind) (n : ℤ) (ds : List Declarator)
    → size_under base (record { tag = tag; amount = n }) (size_of base ds)
      ≡ size_of base (record { tag = tag; amount = n } ∷ ds)
unfolding size_of size_under scaled base_size
under base addr n ds = refl
under base slice n ds = refl
under base check n ds = refl
under base dk_none n ds = refl
under none array n ds = refl
under (some t) array n ds = refl

under-size_of :
    (base : Option TypeT) (d : Declarator) (ds : List Declarator)
    → size_under base d (size_of base ds) ≡ size_of base (d ∷ ds)
under-size_of base d ds = under base d.tag d.amount ds

rounds-step :
    (n : ℕ) (d : Dtype)
    → 0 < d.decl_len
    → size_rounds (suc n) d ≡ size_under d.base (dtype_outer d) (size_rounds n (dtype_unwrap_dup d))
unfolding size_rounds
rounds-step n d some_decl = ground arith

rounds-size_of :
    (n : ℕ) (d : Dtype) → IsDtype d → d.decl_len ≡ n → size_rounds n d ≡ size_of d.base (view d)
unfolding size_of size_rounds dtype_unwrap_dup
rounds-size_of zero d v e = rw e (size_of-base d.base)
rounds-size_of (suc n) d v e =
    let (len, base, outer) = decl_len-dtype_unwrap d (omega arith) in
    let inner = dtype_unwrap_dup d in
    let rec : size_rounds n inner ≡ size_of d.base (view inner) =
      rounds-size_of n inner (dtype_unwrap-IsDtype d v (omega arith)) (omega arith)
      ∙ ap (λ b. size_of b (view inner)) base in
    rounds-step n d (omega arith)
    ∙ rw (view-dtype_unwrap d v (omega arith), rec, outer)
        (under-size_of d.base (dtype_outer d) (view (dtype_unwrap_dup d)))

-- The size of a dtype is that of its outermost declarator that is no check: a pointer for an
-- address, two for a slice, the base's size times the length, modulo 2 ^ 64, for an array; with
-- checks only, it is the base's size.
pub dtype_size-size_of : (d : Dtype) → IsDtype d → dtype_size d ≡ size_of d.base (view d)
unfolding dtype_size
dtype_size-size_of d v = rounds-size_of d.decl_len d v refl
