-- ===== src/Parser/Types/Laws.antt =====
-- The sizes of registers.
use allang.Base.{
  ℕ, zero, suc, ◌+◌, ◌-◌, ◌*◌, ◌/◌, ◌^◌, ◌<◌, ◌≤◌, ◌≡◌, inl, inr, refl, ◌∙◌, ap, arith, false, leb,
  ◌==◌, if◌then◌else◌, Bool-cases, ==_iff, shl,
}
use native.Mathlib.Nat.{pow-suc}
use allang.Parser.Types.{bit_count, next_pow2}

-- A number lies between the powers of two that its bits say.
bit_count_lem :
    (left n : ℕ)
    → n < 2 ^ left
    → (n < 2 ^ bit_count left n)
      × (2 ^ bit_count left n ≤ 2 * n + (if n == 0 then 1 else 0))
      × (bit_count left n ≤ left)
unfolding bit_count
bit_count_lem zero n h = (omega arith, ground arith, omega arith)
bit_count_lem (suc left) n h = elim (Bool-cases (n == 0)) [
  | inl e ↦ rw e (ground (arith, e), ground (arith, e), omega arith)
  | inr e ↦
      let half : n / 2 < 2 ^ left = omega (arith, pow-suc 2 left) in
      let (a, b, c) = bit_count_lem left (n / 2) half in
      let power = pow-suc 2 (bit_count left (n / 2)) in
      rw e (omega (arith, a, power), ground (arith, power, b, e), omega (arith, c))
]

pow_suc_ge : (k : ℕ) → 2 ^ k ≤ 2 ^ suc k
pow_suc_ge k = omega (arith, pow-suc 2 k)

pow_le : (k j : ℕ) → 2 ^ k ≤ 2 ^ (j + k)
pow_le k zero = let none_more : 0 + k ≡ k = omega arith in rw none_more (omega arith)
pow_le k (suc j) =
    let next : suc j + k ≡ suc (j + k) = omega arith in
    rw next (omega (arith, pow_suc_ge (j + k), pow_le k j))

shl_one : (k : ℕ) → k < 32 → shl 1 k ≡ 2 ^ k
shl_one k h =
    let whole : 31 - k + k ≡ 31 = omega arith in
    let low : 2 ^ k ≤ 2 ^ 31 = rw whole at (pow_le k (31 - k)) in
    let one_times : 1 * 2 ^ k ≡ 2 ^ k = omega arith in rw one_times (omega (arith, low))

-- A number of bits between the two is below 32.
few_bits : (n k : ℕ) → n ≤ 2 ^ 31 → 2 ^ k ≤ 2 * (n - 1) → k ≤ 32 → k < 32
few_bits n k most low h = elim (Bool-cases (k == 32)) [
  | inl e ↦
      let same : 2 ^ k ≡ 2 ^ 32 = ap (λ (j : ℕ). 2 ^ j) ((==_iff k 32).0 e) in
      absurd (ground (arith, same, low, most))
  | inr e ↦ ground (arith, e)
]

shifted :
    (n k : ℕ)
    → 1 < n
    → n ≤ 2 ^ 31
    → (n - 1 < 2 ^ k) × (2 ^ k ≤ 2 * (n - 1) + (if n - 1 == 0 then 1 else 0)) × (k ≤ 32)
    → (j : ℕ) × (j < 32) × (shl 1 (32 - (32 - k)) ≡ 2 ^ j) × (n ≤ 2 ^ j) × (2 ^ j < 2 * n)
shifted n k large most (above, below, few) =
    let busy : (n - 1 == 0) ≡ false = ground arith in
    let low : 2 ^ k ≤ 2 * (n - 1) = ground (arith, busy, below) in
    let small = few_bits n k most low few in
    let back : 32 - (32 - k) ≡ k = omega arith in
    rw back (k, small, shl_one k small, omega arith, omega (arith, low))

-- A size of up to 2^31 is rounded up to the least power of two that is no smaller.
pub next_pow2_lem :
    (n : ℕ)
    → 1 ≤ n
    → n ≤ 2 ^ 31
    → (k : ℕ) × (k < 32) × (next_pow2 n ≡ 2 ^ k) × (n ≤ 2 ^ k) × (2 ^ k < 2 * n)
unfolding next_pow2
next_pow2_lem n least most = elim (Bool-cases (leb n 1)) [
  | inl e ↦ rw e (0, omega arith, refl, ground (arith, e), ground (arith, e))
  | inr e ↦ rw e (
      shifted n (bit_count 32 (n - 1)) (ground (arith, e)) most
        (bit_count_lem 32 (n - 1) (omega arith)))
]

pow_below : (k j : ℕ) → 2 ^ k < 2 * 2 ^ j → k ≤ j
pow_below k j h = elim (Bool-cases (leb k j)) [
  | inl e ↦ ground (arith, e)
  | inr e ↦
      let above : k - suc j + suc j ≡ k = ground (arith, e) in
      let low : 2 ^ suc j ≤ 2 ^ k = rw above at (pow_le (suc j) (k - suc j)) in
      absurd (omega (arith, low, pow-suc 2 j, h))
]

-- There is one such power.
pub next_pow2-power :
    (n k : ℕ) → 1 ≤ n → n ≤ 2 ^ 31 → n ≤ 2 ^ k → 2 ^ k < 2 * n → next_pow2 n ≡ 2 ^ k
next_pow2-power n k least most enough tight =
    let (j, low, e, a, b) = next_pow2_lem n least most in
    let same : j ≡ k =
      omega (
        arith,
        pow_below j k (omega (arith, b, enough)),
        pow_below k j (omega (arith, tight, a)),
      ) in
    e ∙ ap (λ (i : ℕ). 2 ^ i) same
