-- ===== src/Typesys/Dtype/Laws/Compare.antt =====
-- The loops of `dtype_eq` and `dtype_check` against recursions on the lists of declarators.
use allang.Base.{
  ℕ, zero, suc, ◌+◌, ◌≤◌, ◌<◌, ◌≡◌, refl, ◌∙◌, ap, List, [], ◌∷◌, arith, ltb, ◌==◌, if◌then◌else◌,
  ◌&&◌, Bool, true, false, drop, length, get_or-take, drop-eq-cons, drop-length, not, ◌≢◌, ◌⊎◌, ◌↔◌,
  ℤ, eqb_ℤ, inl, inr, Bool-cases, ltb→lt, sym,
}
use allang.Typesys.Dtype.{
  Dtype, Declarator, zero_declarator, decl_at, decl_agree, eq_from, dtype_eq, base_eq, check,
  kind_eq, skip_checks, ends_match, check_from, dtype_check, slice,
}
use allang.Typesys.Dtype.View.{view, IsDtype, length-view}
use native.Mathlib.Numerals.{add-one}

rest : Dtype → ℕ → List Declarator
rest d i = drop i (view d)

rest-eq-cons :
    (d : Dtype) → IsDtype d → (i : ℕ) → i < d.decl_len → rest d i ≡ decl_at d i ∷ rest d (i + 1)
unfolding rest
rest-eq-cons d v i low = rw (add-one i) (
    drop-eq-cons (view d) i zero_declarator (rw (length-view d v) low)
    ∙ ap (λ t. t ∷ drop (suc i) (view d)) (get_or-take d.decl_len d.decl i zero_declarator low))

rest-nil : (d : Dtype) → IsDtype d → (i : ℕ) → d.decl_len ≤ i → rest d i ≡ []
unfolding rest
rest-nil d v i h = drop-length (view d) i (rw (length-view d v) h)

-- Declarators that agree one by one.
pub list_eq : List Declarator → List Declarator → Bool
list_eq [] [] = true
list_eq [] (y ∷ ys) = false
list_eq (x ∷ xs) [] = false
list_eq (x ∷ xs) (y ∷ ys) = decl_agree x y && list_eq xs ys

eq_from-list_eq :
    (a b : Dtype)
    → IsDtype a
    → IsDtype b
    → a.decl_len ≡ b.decl_len
    → (left i : ℕ) → i + left ≡ a.decl_len
    → eq_from a b left i ≡ list_eq (rest a i) (rest b i)
unfolding eq_from list_eq
eq_from-list_eq a b va vb same zero i h =
    rw (rest-nil a va i (omega arith), rest-nil b vb i (omega arith)) refl
eq_from-list_eq a b va vb same (suc left) i h =
    rw
      (
        rest-eq-cons a va i (omega arith),
        rest-eq-cons b vb i (omega arith),
        eq_from-list_eq a b va vb same left (i + 1) (omega arith),
      )
      refl

-- The declarators that may be given for those of a target: the target may have checks besides.
pub accepts : List Declarator → List Declarator → Bool
accepts [] [] = true
accepts [] (y ∷ ys) = kind_eq y.tag check && accepts [] ys
accepts (x ∷ xs) [] = false
accepts (x ∷ xs) (y ∷ ys) =
    if kind_eq y.tag check && not (kind_eq x.tag check)
    then accepts (x ∷ xs) ys
    else decl_agree x y && accepts xs ys

-- Two declarators agree: one kind, and one amount unless they are slices.
abbrev pub Agree : Declarator → Declarator → Type 0
Agree a b = (a.tag ≡ b.tag) × ((a.tag ≡ slice) ⊎ (a.amount ≡ b.amount))

pub data Same : List Declarator → List Declarator → Type 0 where
  nil : Same [] []
  cons :
      {x y : Declarator} {xs ys : List Declarator} → Agree x y → Same xs ys → Same (x ∷ xs) (y ∷ ys)

-- What is given, and a target that may have checks besides where nothing, or no check, is given.
pub data Accepts : List Declarator → List Declarator → Type 0 where
  done : Accepts [] []
  extra_last :
      {y : Declarator} {ys : List Declarator} → y.tag ≡ check → Accepts [] ys → Accepts [] (y ∷ ys)
  extra :
      {x y : Declarator} {xs ys : List Declarator}
      → y.tag ≡ check
      → x.tag ≢ check
      → Accepts (x ∷ xs) ys
      → Accepts (x ∷ xs) (y ∷ ys)
  both :
      {x y : Declarator} {xs ys : List Declarator}
      → Agree x y
      → Accepts xs ys
      → Accepts (x ∷ xs) (y ∷ ys)

eqb_ℤ_iff : (a b : ℤ) → (eqb_ℤ a b ≡ true) ↔ (a ≡ b)
eqb_ℤ_iff a b = ground arith

decl_agree_iff : (a b : Declarator) → (decl_agree a b ≡ true) ↔ Agree a b
unfolding decl_agree
decl_agree_iff a b = ground (arith, eqb_ℤ_iff a.amount b.amount)

list_eq_sound : (xs ys : List Declarator) → list_eq xs ys ≡ true → Same xs ys
unfolding list_eq
list_eq_sound [] [] h = nil
list_eq_sound [] (y ∷ ys) h = cc
list_eq_sound (x ∷ xs) [] h = cc
list_eq_sound (x ∷ xs) (y ∷ ys) h =
    cons ((decl_agree_iff x y).0 (ground arith)) (list_eq_sound xs ys (ground arith))

Same-length : {xs ys : List Declarator} → Same xs ys → length xs ≡ length ys
Same-length nil = refl
Same-length (cons a s) = ap suc (Same-length s)

list_eq_complete : {xs ys : List Declarator} → Same xs ys → list_eq xs ys ≡ true
unfolding list_eq
list_eq_complete nil = refl
list_eq_complete (cons {x} {y} a s) = rw ((decl_agree_iff x y).1 a, list_eq_complete s) refl

accepts_sound : (xs ys : List Declarator) → accepts xs ys ≡ true → Accepts xs ys
unfolding accepts
accepts_sound [] [] h = done
accepts_sound [] (y ∷ ys) h = extra_last (ground arith) (accepts_sound [] ys (ground arith))
accepts_sound (x ∷ xs) [] h = cc
accepts_sound (x ∷ xs) (y ∷ ys) h =
    elim (Bool-cases (kind_eq y.tag check && not (kind_eq x.tag check))) [
      | inl t ↦ extra (ground arith) (ground arith) (accepts_sound (x ∷ xs) ys (rw t at h))
      | inr f ↦
          let h' = rw f at h in
          both ((decl_agree_iff x y).0 (ground arith)) (accepts_sound xs ys (ground arith))
    ]

accepts_complete : {xs ys : List Declarator} → Accepts xs ys → accepts xs ys ≡ true
unfolding accepts
accepts_complete done = refl
accepts_complete (extra_last {y} e s) = ground (arith, accepts_complete s)
accepts_complete (extra {x} {y} e ne s) = ground (arith, accepts_complete s)
accepts_complete (both {x} {y} a s) = ground (arith, (decl_agree_iff x y).1 a, accepts_complete s)

skip_checks-accepts :
    (b : Dtype)
    → IsDtype b
    → (left j : ℕ) → j + left ≡ b.decl_len
    → (skip_checks b left j == b.decl_len) ≡ accepts [] (rest b j)
unfolding skip_checks accepts
skip_checks-accepts b v zero j h = rw (rest-nil b v j (omega arith)) (ground arith)
skip_checks-accepts b v (suc left) j h =
    rw (rest-eq-cons b v j (omega arith)) (ground (arith, skip_checks-accepts b v left (j + 1)))

check_from-accepts :
    (a b : Dtype)
    → IsDtype a
    → IsDtype b
    → (left i j : ℕ) → j + left ≡ b.decl_len
    → i ≤ a.decl_len
    → check_from a b left i j ≡ accepts (rest a i) (rest b j) && base_eq a.base b.base
unfolding check_from accepts ends_match
check_from-accepts a b va vb zero i j h low = elim (Bool-cases (ltb i a.decl_len)) [
  | inl more ↦ rw (rest-nil b vb j (omega arith), rest-eq-cons a va i (ground arith)) (ground arith)
  | inr over ↦ rw (rest-nil b vb j (omega arith), rest-nil a va i (ground arith)) (ground arith)
]
check_from-accepts a b va vb (suc left) i j h low = elim (Bool-cases (ltb i a.decl_len)) [
  | inl more ↦
      let given = rest-eq-cons a va i (ltb→lt i a.decl_len more) in
      let skipped = rw given at (check_from-accepts a b va vb left i (j + 1) (omega arith) low) in
      let both = check_from-accepts a b va vb left (i + 1) (j + 1) (omega arith) (ground arith) in
      rw (more, given, rest-eq-cons b vb j (omega arith), skipped, both) (ground arith)
  | inr over ↦
      let at_end : i ≡ a.decl_len = ground arith in
      rw (over, rest-nil a va i (ground arith), skip_checks-accepts b vb (suc left) j h)
        (ground (arith, at_end))
]

-- `dtype_eq` returns true exactly when the bases are one object and the declarators agree one by
-- one: in kind, and in amount unless they are slices.
pub dtype_eq_iff :
    (a b : Dtype)
    → IsDtype a
    → IsDtype b
    → (dtype_eq a b ≡ true) ↔ (Same (view a) (view b) × (base_eq a.base b.base ≡ true))
unfolding dtype_eq rest
dtype_eq_iff a b va vb = (there, back)
  where
    there : dtype_eq a b ≡ true → Same (view a) (view b) × (base_eq a.base b.base ≡ true)
    there h =
        let len : a.decl_len ≡ b.decl_len = ground arith in
        let loop = eq_from-list_eq a b va vb len a.decl_len 0 (omega arith) in
        (list_eq_sound (view a) (view b) (ground (arith, loop)), ground arith)

    back : Same (view a) (view b) × (base_eq a.base b.base ≡ true) → dtype_eq a b ≡ true
    back (s, e) =
        let len : a.decl_len ≡ b.decl_len =
          sym (length-view a va) ∙ Same-length s ∙ length-view b vb in
        let loop = eq_from-list_eq a b va vb len a.decl_len 0 (omega arith) in
        ground (arith, loop, len, list_eq_complete s, e)

-- `dtype_check` returns true exactly when the bases are one object and the declarators of `to` are
-- those of `from`, agreeing one by one, with any number of checks put in where `from` has none.
pub dtype_check_iff :
    (a b : Dtype)
    → IsDtype a
    → IsDtype b
    → (dtype_check a b ≡ true) ↔ (Accepts (view a) (view b) × (base_eq a.base b.base ≡ true))
unfolding dtype_check rest
dtype_check_iff a b va vb =
    let loop = check_from-accepts a b va vb b.decl_len 0 0 (omega arith) (omega arith) in
    (
      λ h. (accepts_sound (view a) (view b) (ground (arith, loop)), ground (arith, loop)),
      λ (s, e). ground (arith, loop, accepts_complete s, e),
    )

Same-Accepts : {xs ys : List Declarator} → Same xs ys → Accepts xs ys
Same-Accepts nil = done
Same-Accepts (cons a s) = both a (Same-Accepts s)

-- Where `dtype_eq` holds `dtype_check` does.
dtype_check_of_dtype_eq :
    (a b : Dtype) → IsDtype a → IsDtype b → dtype_eq a b ≡ true → dtype_check a b ≡ true
dtype_check_of_dtype_eq a b va vb h =
    let (same, base) = (dtype_eq_iff a b va vb).0 h in
    (dtype_check_iff a b va vb).1 (Same-Accepts same, base)
