-- ===== src/X86/Memory/Laws.antt =====
-- Which bytes `emit_zerofill` of alc/bin-x86_64.c stores.
use allang.Base.{
  ℕ, zero, suc, ◌+◌, ◌-◌, ◌/◌, ◌^◌, ◌<◌, ◌≤◌, ◌≡◌, inl, inr, refl, sym, ◌∙◌, ap, arith, Bool, true,
  false, List, [], ◌∷◌, leb, ◌==◌, ◌&&◌, Bool-cases, ℤ, pos, negsuc, ◌+ℤ◌, ◌||◌,
}
use mathlib.Core.Path.{subst}
use native.Mathlib.Nat.{pow-suc, one-le-pow}
use allang.X86.Memory.{fill_stores}

-- Stores that follow one another without a gap from an offset to an end.
unfoldable pub Tiles : ℤ → ℤ → List (ℤ × ℕ) → Type 0
Tiles start end [] = start ≡ end
Tiles start end ((offset, size) ∷ rest) = (offset ≡ start) × Tiles (start +ℤ pos size) end rest

-- Are the sizes those of a register?
unfoldable pub all_sizes : List (ℤ × ℕ) → Bool
all_sizes [] = true
all_sizes ((offset, size) ∷ rest) =
    ((size == 8) || (size == 4) || (size == 2) || (size == 1)) && all_sizes rest

add_assoc : (a : ℤ) (m n : ℕ) → (a +ℤ pos m) +ℤ pos n ≡ a +ℤ pos (m + n)
add_assoc (pos a) m n = ground arith
add_assoc (negsuc a) m n = ground arith

add_zero : (a : ℤ) → a +ℤ pos 0 ≡ a
add_zero (pos a) = ground arith
add_zero (negsuc a) = ground arith

pow_pos : (k : ℕ) → 1 ≤ 2 ^ k
pow_pos k = one-le-pow k 2 (omega arith)

-- A size that is a power of two below 16.
size_ok : (k : ℕ) → k < 4 → (2 ^ k == 8) || (2 ^ k == 4) || (2 ^ k == 2) || (2 ^ k == 1) ≡ true
size_ok zero h = refl
size_ok (suc zero) h = refl
size_ok (suc (suc zero)) h = refl
size_ok (suc (suc (suc zero))) h = refl
size_ok (suc (suc (suc (suc k)))) h = absurd (omega arith)

Filled : ℤ → ℕ → List (ℤ × ℕ) → Type 0
Filled offset size stores = Tiles offset (offset +ℤ pos size) stores × (all_sizes stores ≡ true)

Filled-cons :
    (k size : ℕ) (offset : ℤ) (rest : List (ℤ × ℕ))
    → k < 4
    → 2 ^ k ≤ size
    → Filled (offset +ℤ pos (2 ^ k)) (size - 2 ^ k) rest
    → Filled offset size ((offset, 2 ^ k) ∷ rest)
unfolding Filled Tiles all_sizes
Filled-cons k size offset rest hk fits (tiles, sizes) =
    let whole : 2 ^ k + (size - 2 ^ k) ≡ size = omega arith in
    (
      (
        refl,
        subst (λ end. Tiles (offset +ℤ pos (2 ^ k)) end rest)
            (add_assoc offset (2 ^ k) (size - 2 ^ k) ∙ ap (λ n. offset +ℤ pos n) whole) tiles,
      ),
      rw (size_ok k hk, sizes) refl,
    )

fill_stores-Filled :
    (fuel k size : ℕ) (offset : ℤ)
    → k < 4
    → size + k < fuel
    → Filled offset size (fill_stores fuel (2 ^ k) offset size)
unfolding fill_stores
fill_stores-Filled zero k size offset hk h = absurd (omega arith)
fill_stores-Filled (suc fuel) k zero offset hk h =
    unfold Filled Tiles all_sizes in (sym (add_zero offset), refl)
fill_stores-Filled (suc fuel) zero (suc size) offset hk h =
    let busy : (suc size == 0) ≡ false = ground arith in
    let fit : leb 1 (suc size) ≡ true = ground arith in
    rw (busy, fit)
      (Filled-cons 0 (suc size) offset _ hk (omega arith)
        (fill_stores-Filled fuel 0 (suc size - 2 ^ 0) (offset +ℤ pos (2 ^ 0)) hk (omega arith)))
fill_stores-Filled (suc fuel) (suc k) (suc size) offset hk h =
    let power = pow-suc 2 k in
    let busy : (suc size == 0) ≡ false = ground arith in
    elim (Bool-cases (leb (2 ^ suc k) (suc size))) [
      | inl e ↦
          let fits : 2 ^ suc k ≤ suc size = ground (arith, e) in
          rw (busy, e)
            (Filled-cons (suc k) (suc size) offset _ hk fits (
              fill_stores-Filled fuel (suc k) (suc size - 2 ^ suc k) (offset +ℤ pos (2 ^ suc k)) hk
                (omega (arith, pow_pos (suc k)))))
      | inr e ↦
          let wide : (2 ^ suc k == 1) ≡ false = ground (arith, power, pow_pos k) in
          let half : 2 ^ suc k / 2 ≡ 2 ^ k = omega (arith, power) in
          rw (busy, e, wide, half)
            (fill_stores-Filled fuel k (suc size) offset (omega arith) (omega arith))
    ]

-- The stores of a fill of any number of bytes go from the offset to the end of the bytes without a
-- gap or an overlap, each with the size of a register.
pub fill_stores_lem :
    (size : ℕ) (offset : ℤ)
    → let stores = fill_stores (size + 4) 8 offset size in
      Tiles offset (offset +ℤ pos size) stores × (all_sizes stores ≡ true)
unfolding Filled
fill_stores_lem size offset =
    fill_stores-Filled (size + 4) 3 size offset (omega arith) (omega arith)
