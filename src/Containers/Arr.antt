-- ===== src/Containers/Arr.antt =====
-- alc/arr.h, `ARR_GENERIC(T, SIZE)` and `ARR_GENERICP(T, SIZE)`: a stack in an array of a fixed
-- size. Pointers into `data` are indices.
use allang.Base.{
  ℕ, zero, suc, false, ◌+◌, ◌-◌, ◌<◌, ◌≡◌, refl, ap, Bool, Option, none, some, List, [], ◌∷◌, ◌++◌,
  arith, ◌==◌, if◌then◌else◌, Run, ok, abort, Returns, get_elem?, set, take, length,
  get_elem?-set_self,
}

pub record Arr {ℓ} (V : Type ℓ) : Type ℓ where
  pub places : List V
  pub cur : ℕ

module _ {ℓ} {V : Type ℓ} (size : ℕ) where
  unfoldable pub init : Arr V → Arr V
  init arr = record arr { cur = 0 }

  -- With the index of the value.
  unfoldable pub push : Arr V → V → Run (Arr V × ℕ)
  push arr value =
      if arr.cur == size
      then abort
      else ok (record { places = set arr.places arr.cur value; cur = arr.cur + 1 }, arr.cur + 1 - 1)

  unfoldable pub pop : Arr V → Arr V
  pop arr = if arr.cur == 0 then arr else record arr { cur = arr.cur - 1 }

  unfoldable pub top : Arr V → Option ℕ
  top arr = if arr.cur == 0 then none else some (arr.cur - 1)

  -- The pointer's own value, in an array of pointers.
  unfoldable pub top_value : Arr V → Option V
  top_value arr = if arr.cur == 0 then none else get_elem? arr.places (arr.cur - 1)

  unfoldable pub is_empty : Arr V → Bool
  is_empty arr = arr.cur == 0

  unfoldable pub len : Arr V → ℕ
  len arr = arr.cur

  -- The values in use.
  abbrev pub values : Arr V → List V
  values arr = take arr.cur arr.places

  take_more :
      (xs : List V) (i : ℕ) (v : V)
      → i < length xs
      → take (i + 1) (set xs i v) ≡ take i xs ++ v ∷ []
  take_more [] i v h = absurd (omega arith)
  take_more (x ∷ xs) zero v h = refl
  take_more (x ∷ xs) (suc i) v h =
      let next : suc i + 1 ≡ suc (i + 1) = omega arith in
      rw next (ap (λ t. x ∷ t) (take_more xs i v (omega arith)))

  take_same : (xs : List V) (i : ℕ) (v : V) → take i (set xs i v) ≡ take i xs
  take_same [] i v = refl
  take_same (x ∷ xs) zero v = refl
  take_same (x ∷ xs) (suc i) v = ap (λ t. x ∷ t) (take_same xs i v)

  -- A push onto an array that is not full returns, with the place of the value, which is then the
  -- last and on top; a pop takes it off again.
  top-push :
      (arr : Arr V) (v : V)
      → length arr.places ≡ size
      → arr.cur < size
      → Returns (push arr v) λ r.
        (values r.0 ≡ values arr ++ v ∷ [])
        × (top r.0 ≡ some r.1)
        × (top_value r.0 ≡ some v)
        × (values (pop r.0) ≡ values arr)
        × (len (pop r.0) ≡ len arr)
  unfolding push pop top top_value len
  top-push arr v sized room =
      let i = arr.cur in
      let not_full : (i == size) ≡ false = ground arith in
      let not_empty : (i + 1 == 0) ≡ false = ground arith in
      let back : i + 1 - 1 ≡ i = omega arith in
      let a : Arr V = record { places = set arr.places i v; cur = i + 1 } in
      (
        (a, i),
        rw (not_full, back) refl,
        (
          take_more arr.places i v (omega arith),
          rw (not_empty, back) refl,
          rw (not_empty, back) (get_elem?-set_self arr.places i v (omega arith)),
          rw (not_empty, back) (take_same arr.places i v),
          rw (not_empty, back) refl,
        ),
      )
