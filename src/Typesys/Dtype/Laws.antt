-- ===== src/Typesys/Dtype/Laws.antt =====
-- Wrapping and unwrapping are inverse, and the comparisons of two dtypes say what they should of
-- the lists of declarators.
pub mod Compare
pub mod Size
use allang.Base.{
  ℕ, zero, suc, ◌+◌, ◌-◌, ◌≤◌, ◌<◌, ◌≡◌, refl, sym, ◌∙◌, ap, List, [], ◌∷◌, arith, ltb, leb, ◌==◌,
  if◌then◌else◌, length, length-set, Bool, true, false, ◌&&◌, ◌↔◌,
}
use allang.Typesys.Dtype.{
  Dtype, Declarator, declarator_max, dtype_full, dtype_append, dtype_wrap, dtype_unwrap, dtype_eq,
  dtype_check, base_eq,
}
use allang.Typesys.Dtype.View.{
  view, IsDtype, view-dtype_wrap, view-dtype_unwrap, dtype_wrap-IsDtype, decl_len-dtype_wrap,
}

dtype_unwrap-base : (d : Dtype) → (dtype_unwrap d).0.base ≡ d.base
unfolding dtype_unwrap
dtype_unwrap-base d = ground arith

-- Below eight declarators `dtype_unwrap` undoes `dtype_wrap`: it returns the declarator that was
-- put in front, and leaves the declarators and the base that were there.
pub dtype_unwrap-dtype_wrap :
    (d : Dtype) (x : Declarator)
    → IsDtype d
    → d.decl_len < declarator_max
    → (view (dtype_unwrap (dtype_wrap d x)).0 ≡ view d)
      × ((dtype_unwrap (dtype_wrap d x)).1 ≡ x)
      × ((dtype_unwrap (dtype_wrap d x)).0.base ≡ d.base)
dtype_unwrap-dtype_wrap d x v h =
    let w = dtype_wrap d x in
    let (longer, base) = decl_len-dtype_wrap d x h in
    let parts =
      sym (view-dtype_unwrap w (dtype_wrap-IsDtype d x v h) (omega arith))
      ∙ view-dtype_wrap d x v h in
    (cc parts, cc parts, dtype_unwrap-base w ∙ base)
