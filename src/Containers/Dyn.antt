-- ===== src/Containers/Dyn.antt =====
-- alc/dyn.h, `DYN_GENERIC(T)`: a growing array. `items` are the values from `begin` to `cur`, and
-- `capa` is the room from `begin` to `end`. Allocations succeed.
use allang.Base.{
  ℕ, zero, suc, ◌+◌, ◌*◌, ◌<◌, ◌≤◌, ◌≡◌, refl, ap, ◌∙◌, Option, none, some, List, [], ◌∷◌, ◌++◌,
  arith, ltb, leb, ◌==◌, if◌then◌else◌, true, false, length, length-append, Bool-cases, inl, inr,
  Run, ok, running,
}

pub record Dyn {ℓ} (V : Type ℓ) : Type ℓ where
  pub items : List V
  pub capa : ℕ

module _ {ℓ} {V : Type ℓ} where
  abbrev pub no_items : Dyn V
  no_items = record { items = []; capa = 0 }

  unfoldable pub dyn_realloc : Dyn V → Dyn V
  dyn_realloc self =
      if self.capa == 0
      then record { items = []; capa = 8 }
      else record self { capa = self.capa * 2 }

  -- The loop, with the rounds that it may make.
  unfoldable pub dyn_reserve : ℕ → Dyn V → ℕ → Run (Dyn V)
  unfolding dyn_realloc
  dyn_reserve zero self len = running
  dyn_reserve (suc fuel) self len =
      let grown = dyn_reserve fuel (dyn_realloc self) len in
      if ltb self.capa len then grown else ok self

  -- `*(self->cur++) = *elem`; `none` is a write past the end.
  unfoldable pub put_item : Dyn V → V → Option (Dyn V)
  put_item self elem =
      if ltb (length self.items) self.capa
      then some (record self { items = self.items ++ elem ∷ [] })
      else none

  unfoldable pub dyn_push : Dyn V → V → Option (Dyn V)
  unfolding dyn_realloc put_item
  dyn_push self elem = put_item (if length self.items == 0 then dyn_realloc self else self) elem

  -- Go on with the array, where no write went past its end.
  abbrev pub if_put : Option (Dyn V) → (Dyn V → Option (Dyn V)) → Option (Dyn V)
  if_put none next = none
  if_put (some self) next = next self

  -- `dyn_push` of each.
  unfoldable pub push_all : Dyn V → List V → Option (Dyn V)
  push_all self [] = some self
  push_all self (v ∷ vs) = if_put (dyn_push self v) (λ self'. push_all self' vs)

  unfoldable pub dyn_free : Dyn V → Dyn V
  dyn_free self = no_items

  unfoldable pub dyn_len : Dyn V → ℕ
  dyn_len self = length self.items

  push_next :
      (xs : List V) (v : V)
      → 0 < length xs
      → dyn_push (record { items = xs; capa = 8 }) v
        ≡ (if ltb (length xs) 8 then some (record { items = xs ++ v ∷ []; capa = 8 }) else none)
  unfolding dyn_push put_item
  push_next xs v h = let more : (length xs == 0) ≡ false = ground arith in rw more refl

  append_one : (xs : List V) (v : V) (ys : List V) → (xs ++ v ∷ []) ++ ys ≡ xs ++ v ∷ ys
  append_one [] v ys = refl
  append_one (x ∷ xs) v ys = ap (λ t. x ∷ t) (append_one xs v ys)

  append_nil : (xs : List V) → xs ++ [] ≡ xs
  append_nil [] = refl
  append_nil (x ∷ xs) = ap (λ t. x ∷ t) (append_nil xs)

  push_rest :
      (vs xs : List V)
      → 0 < length xs
      → length xs ≤ 8
      → push_all (record { items = xs; capa = 8 }) vs ≡ (
          if leb (length xs + length vs) 8
          then some (record { items = xs ++ vs; capa = 8 })
          else none)
  unfolding push_all
  push_rest [] xs h k =
      let fits : leb (length xs + 0) 8 ≡ true = ground arith in rw (fits, append_nil xs) refl
  push_rest (v ∷ vs) xs h k = elim (Bool-cases (ltb (length xs) 8)) [
    | inl room ↦
        let longer = length-append xs (v ∷ []) in
        let same : length (xs ++ v ∷ []) + length vs ≡ length xs + suc (length vs) =
          omega (arith, longer) in
        let rest = push_rest vs (xs ++ v ∷ []) (omega (arith, longer)) (ground (arith, longer)) in
        ap (λ o. if_put o (λ d. push_all d vs)) (push_next xs v h)
        ∙ rw room (rest ∙ rw (same, append_one xs v vs) refl)
    | inr full ↦
        let over : leb (length xs + suc (length vs)) 8 ≡ false = ground arith in
        ap (λ o. if_put o (λ d. push_all d vs)) (push_next xs v h) ∙ rw (full, over) refl
  ]

  -- Pushing values one after another into an array that starts as `{0}`: up to eight are there in
  -- order, and with nine or more a write goes past the end of the allocation.
  pub push_all_lem :
      (v : V) (vs : List V)
      → push_all no_items (v ∷ vs)
        ≡ (if leb (suc (length vs)) 8 then some (record { items = v ∷ vs; capa = 8 }) else none)
  unfolding push_all dyn_push dyn_realloc put_item
  push_all_lem v vs =
      push_rest vs (v ∷ []) (omega arith) (omega arith)
      ∙ (let one : 1 + length vs ≡ suc (length vs) = omega arith in rw one refl)
