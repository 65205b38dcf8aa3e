-- ===== src/Typesys/Dtype/View.antt =====
-- The declarators of a dtype as a list, and what the array loops do to it.
use allang.Base.{
  ℕ, zero, suc, ◌+◌, ◌-◌, ◌≤◌, ◌<◌, ◌≡◌, refl, ◌∙◌, ap, List, ◌∷◌, arith, ltb, leb, if◌then◌else◌,
  ◌&&◌, get_or, set, take, length, length-set, length-take, get_or-take, get_or_ext, get_or-set,
  get_or-set_self, get_or-set_ne,
}
use native.Mathlib.Numerals.{add-one}
use allang.Typesys.Dtype.{
  Dtype, Declarator, zero_declarator, declarator_max, shift_up, shift_down, dtype_wrap,
  dtype_unwrap, dtype_outer,
}

abbrev pub view : Dtype → List Declarator
view d = take d.decl_len d.decl

-- The array has its eight places, and no more than those are in use.
pub record IsDtype (d : Dtype) : Type 0 where
  pub places : length d.decl ≡ declarator_max
  pub few : d.decl_len ≤ declarator_max

abbrev at : List Declarator → ℕ → Declarator
at xs i = get_or xs i zero_declarator

length-shift_up : (n : ℕ) (xs : List Declarator) → length (shift_up n xs) ≡ length xs
unfolding shift_up
length-shift_up zero xs = refl
length-shift_up (suc n) xs = length-shift_up n _ ∙ length-set xs (suc n) _

at-shift_up :
    (n : ℕ) (xs : List Declarator) (j : ℕ)
    → n < length xs
    → at (shift_up n xs) j ≡ (if ltb 0 j && leb j n then at xs (j - 1) else at xs j)
unfolding shift_up
at-shift_up zero xs j h = ground arith
at-shift_up (suc n) xs j h =
    let xs' = set xs (suc n) (at xs n) in
    at-shift_up n xs' j (rw (length-set xs (suc n) (at xs n)) (omega arith))
    ∙ rw
        (
          get_or-set xs (suc n) (j - 1) (at xs n) zero_declarator h,
          get_or-set xs (suc n) j (at xs n) zero_declarator h,
        )
        (ground arith)

length-shift_down : (left i : ℕ) (xs : List Declarator) → length (shift_down left i xs) ≡ length xs
unfolding shift_down
length-shift_down zero i xs = refl
length-shift_down (suc left) i xs = length-shift_down left (i + 1) _ ∙ length-set xs i _

at-shift_down :
    (left i : ℕ) (xs : List Declarator) (j : ℕ)
    → i + left < length xs
    → at (shift_down left i xs) j ≡ (if leb i j && ltb j (i + left) then at xs (j + 1) else at xs j)
unfolding shift_down
at-shift_down zero i xs j h = ground arith
at-shift_down (suc left) i xs j h =
    let xs' = set xs i (at xs (i + 1)) in
    at-shift_down left (i + 1) xs' j (rw (length-set xs i (at xs (i + 1))) (omega arith))
    ∙ rw
        (
          get_or-set xs i (j + 1) (at xs (i + 1)) zero_declarator (omega arith),
          get_or-set xs i j (at xs (i + 1)) zero_declarator (omega arith),
        )
        (ground arith)

pub length-view : (d : Dtype) → IsDtype d → length (view d) ≡ d.decl_len
length-view d v = length-take d.decl_len d.decl (omega arith)

-- The view of `n + 1` declarators, by its head and its tail.
view_cons :
    (x : Declarator) (n : ℕ) (xs ys : List Declarator)
    → n < length xs
    → n ≤ length ys
    → at xs 0 ≡ x
    → ((i : ℕ) → i < n → at xs (i + 1) ≡ at ys i)
    → take (n + 1) xs ≡ x ∷ take n ys
view_cons x n xs ys hx hy head tail =
    get_or_ext (take (n + 1) xs) (x ∷ take n ys) zero_declarator sized places
  where
    sized : length (take (n + 1) xs) ≡ length (x ∷ take n ys)
    sized = length-take (n + 1) xs (omega arith) ∙ omega (arith, length-take n ys hy)

    place : (i : ℕ) → i < n + 1 → at (take (n + 1) xs) i ≡ at (x ∷ take n ys) i
    place zero low = get_or-take (n + 1) xs 0 zero_declarator low ∙ head
    place (suc i) low =
        let step = rw (add-one i) at (tail i (omega arith)) in
        rw (get_or-take n ys i zero_declarator (omega arith))
          (get_or-take (n + 1) xs (suc i) zero_declarator low ∙ step)

    places : (i : ℕ) → i < length (take (n + 1) xs) → at (take (n + 1) xs) i ≡ at (x ∷ take n ys) i
    places i low = place i (omega (arith, length-take (n + 1) xs (omega arith)))

dtype_wrap-eq :
    (d : Dtype) (x : Declarator)
    → d.decl_len < declarator_max
    → dtype_wrap d x
      ≡ record d { decl = set (shift_up d.decl_len d.decl) 0 x; decl_len = d.decl_len + 1 }
unfolding dtype_wrap
dtype_wrap-eq d x room = ground arith

dtype_unwrap-eq :
    (d : Dtype)
    → 0 < d.decl_len
    → dtype_unwrap d ≡ (
      record d { decl = shift_down (d.decl_len - 1) 0 d.decl; decl_len = d.decl_len - 1 },
      at d.decl 0,
    )
unfolding dtype_unwrap
dtype_unwrap-eq d some_decl = ground arith

pub dtype_wrap-IsDtype :
    (d : Dtype) (x : Declarator)
    → IsDtype d
    → d.decl_len < declarator_max
    → IsDtype (dtype_wrap d x)
dtype_wrap-IsDtype d x v room = rw (dtype_wrap-eq d x room) (record {
  places =
      length-set (shift_up d.decl_len d.decl) 0 x ∙ length-shift_up d.decl_len d.decl ∙ v.places;
  few = omega arith;
})

pub decl_len-dtype_wrap :
    (d : Dtype) (x : Declarator)
    → d.decl_len < declarator_max
    → ((dtype_wrap d x).decl_len ≡ d.decl_len + 1) × ((dtype_wrap d x).base ≡ d.base)
decl_len-dtype_wrap d x room = rw (dtype_wrap-eq d x room) (refl, refl)

-- Below eight declarators `dtype_wrap` puts one in front.
pub view-dtype_wrap :
    (d : Dtype) (x : Declarator)
    → IsDtype d
    → d.decl_len < declarator_max
    → view (dtype_wrap d x) ≡ x ∷ view d
view-dtype_wrap d x v room =
    let up = shift_up d.decl_len d.decl in
    let sized : length up ≡ declarator_max = length-shift_up d.decl_len d.decl ∙ v.places in
    rw (dtype_wrap-eq d x room) (
      view_cons x d.decl_len (set up 0 x) d.decl (rw (length-set up 0 x) (omega arith))
        (omega arith) (get_or-set_self up 0 x zero_declarator (omega arith))
        λ i low.
          get_or-set_ne up 0 (i + 1) x zero_declarator (omega arith)
          ∙ ground (arith, at-shift_up d.decl_len d.decl (i + 1)))

-- `dtype_unwrap` takes the outermost declarator off.
pub view-dtype_unwrap :
    (d : Dtype) → IsDtype d → 0 < d.decl_len → view d ≡ (dtype_unwrap d).1 ∷ view (dtype_unwrap d).0
view-dtype_unwrap d v some_decl =
    let n = d.decl_len - 1 in
    let down = shift_down n 0 d.decl in
    rw (dtype_unwrap-eq d some_decl) (
      ap (λ m. take m d.decl) (omega arith)
      ∙ view_cons (at d.decl 0) n d.decl down (omega arith)
          (omega (arith, length-shift_down n 0 d.decl)) refl
          λ i low. ground (arith, at-shift_down n 0 d.decl i))

pub decl_len-dtype_unwrap :
    (d : Dtype)
    → 0 < d.decl_len
    → ((dtype_unwrap d).0.decl_len ≡ d.decl_len - 1)
      × ((dtype_unwrap d).0.base ≡ d.base)
      × ((dtype_unwrap d).1 ≡ dtype_outer d)
unfolding dtype_outer
decl_len-dtype_unwrap d some_decl = rw (dtype_unwrap-eq d some_decl) (refl, refl, ground arith)

pub dtype_unwrap-IsDtype : (d : Dtype) → IsDtype d → 0 < d.decl_len → IsDtype (dtype_unwrap d).0
dtype_unwrap-IsDtype d v some_decl =
    rw (dtype_unwrap-eq d some_decl) (record {
      places = length-shift_down (d.decl_len - 1) 0 d.decl ∙ v.places;
      few = omega arith;
    })
