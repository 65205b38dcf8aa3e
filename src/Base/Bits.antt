-- ===== src/Base/Bits.antt =====
-- `|` of disjoint fields and `&` with a mask of low bits, as arithmetic.
mod Step
pub use Step.{bit_xor_self}
use Step.{bit_or_step, bit_and_step}
use Prim.Native.Nat.{
  ℕ, zero, suc, ◌+◌, ◌-◌, ◌*◌, ◌/◌, ◌%◌, ◌^◌, ◌≤◌, ◌<◌, bit_and, bit_or, bit_and-bitwise,
}
use mathlib.Core.Path.{◌≡◌, refl, ap, ◌∙◌}
use native.Mathlib.Nat.{pow-suc, one-le-pow}
use native.Mathlib.Omega.{arith}

-- Both halve their first argument, hence the bound by fuel.
bit_or-zero_below : (n a : ℕ) → a ≤ n → bit_or a 0 ≡ a
bit_or-zero_below n zero h = refl
bit_or-zero_below zero (suc a) h = absurd (omega arith)
bit_or-zero_below (suc n) (suc a) h =
    omega (arith, bit_or_step (suc a) 0, bit_or-zero_below n (suc a / 2) (omega arith))

bit_and-zero_below : (n a : ℕ) → a ≤ n → bit_and a 0 ≡ 0
bit_and-zero_below n zero h = refl
bit_and-zero_below zero (suc a) h = absurd (omega arith)
bit_and-zero_below (suc n) (suc a) h =
    omega (arith, bit_and_step (suc a) 0, bit_and-zero_below n (suc a / 2) (omega arith))

bit_or_sum : (k q r : ℕ) → r < 2 ^ k → bit_or (q * 2 ^ k) r ≡ q * 2 ^ k + r
bit_or_sum zero q r fits = ground (arith, bit_or-zero_below q q)
bit_or_sum (suc k) q r fits =
    let double : q * 2 ^ suc k ≡ 2 * (q * 2 ^ k) =
      omega (arith, ap (λ (t : ℕ). q * t) (pow-suc 2 k)) in
    ground (
      arith,
      bit_or_step (q * 2 ^ suc k) r,
      pow-suc 2 k,
      double,
      bit_or_sum k q (r / 2) (omega arith),
    )

-- Where the low `k` bits of `x` are clear and `r` fits in them, `x | r` is the sum.
pub bit_or_disjoint : (k x r : ℕ) → x % 2 ^ k ≡ 0 → r < 2 ^ k → bit_or x r ≡ x + r
bit_or_disjoint k x r clear fits = ground (arith, one-le-pow k 2, bit_or_sum k (x / 2 ^ k) r)

-- The low `k` bits of one side stay, where those of the other are clear.
pub bit_or_above :
    (k a m c : ℕ) → c < 2 ^ k → bit_or (a * 2 ^ k + c) (m * 2 ^ k) ≡ bit_or a m * 2 ^ k + c
bit_or_above zero a m c fits =
    let none_left : a * 1 + c ≡ a = omega arith in
    let whole : m * 1 ≡ m = omega arith in rw (none_left, whole) (omega arith)
bit_or_above (suc k) a m c fits =
    let power = pow-suc 2 k in
    let half_left : (a * 2 ^ suc k + c) / 2 ≡ a * 2 ^ k + c / 2 =
      omega (arith, power, ap (λ (t : ℕ). a * t) power) in
    let half_right : m * 2 ^ suc k / 2 ≡ m * 2 ^ k =
      omega (arith, power, ap (λ (t : ℕ). m * t) power) in
    let inner = bit_or_above k a m (c / 2) (omega (arith, power)) in
    bit_or_step (a * 2 ^ suc k + c) (m * 2 ^ suc k)
    ∙ rw (half_left, half_right, inner)
        (ground (
          arith,
          power,
          ap (λ (t : ℕ). bit_or a m * t) power,
          ap (λ (t : ℕ). a * t) power,
          ap (λ (t : ℕ). m * t) power,
        ))

bit_and_sum : (k q r : ℕ) → r < 2 ^ k → bit_and (q * 2 ^ k + r) (2 ^ k - 1) ≡ r
bit_and_sum zero q r fits = ground (arith, bit_and-zero_below (q * 1 + r) (q * 1 + r))
bit_and_sum (suc k) q r fits =
    let double : q * 2 ^ suc k ≡ 2 * (q * 2 ^ k) =
      omega (arith, ap (λ (t : ℕ). q * t) (pow-suc 2 k)) in
    ground (
      arith,
      bit_and_step (q * 2 ^ suc k + r) (2 ^ suc k - 1),
      double,
      pow-suc 2 k,
      bit_and_sum k q (r / 2) (omega arith),
    )

-- A mask of the `k` low bits is the remainder by `2 ^ k`.
pub bit_and_low : (k a : ℕ) → bit_and a (2 ^ k - 1) ≡ a % 2 ^ k
bit_and_low k a = ground (arith, one-le-pow k 2, bit_and_sum k (a / 2 ^ k) (a % 2 ^ k))

-- A mask without the `k` low bits clears them.
pub bit_and_above :
    (k a m c : ℕ) → c < 2 ^ k → bit_and (a * 2 ^ k + c) (m * 2 ^ k) ≡ bit_and a m * 2 ^ k
bit_and_above zero a m c fits =
    let none_left : a * 1 + c ≡ a = omega arith in
    let whole : m * 1 ≡ m = omega arith in rw (none_left, whole) (omega arith)
bit_and_above (suc k) a m c fits =
    let power = pow-suc 2 k in
    let half_left : (a * 2 ^ suc k + c) / 2 ≡ a * 2 ^ k + c / 2 =
      omega (arith, power, ap (λ (t : ℕ). a * t) power) in
    let half_right : m * 2 ^ suc k / 2 ≡ m * 2 ^ k =
      omega (arith, power, ap (λ (t : ℕ). m * t) power) in
    let inner = bit_and_above k a m (c / 2) (omega (arith, power)) in
    bit_and_step (a * 2 ^ suc k + c) (m * 2 ^ suc k)
    ∙ rw (half_left, half_right, inner)
        (ground (
          arith,
          power,
          ap (λ (t : ℕ). bit_and a m * t) power,
          ap (λ (t : ℕ). a * t) power,
          ap (λ (t : ℕ). m * t) power,
        ))

bit_and-le_below : (n a b : ℕ) → a ≤ n → bit_and a b ≤ b
bit_and-le_below n zero b h = rw (bit_and-bitwise 0 b) (omega arith)
bit_and-le_below zero (suc a) b h = absurd (omega arith)
bit_and-le_below (suc n) (suc a) b h =
    omega (arith, bit_and_step (suc a) b, bit_and-le_below n (suc a / 2) (b / 2) (omega arith))

pub bit_and-le_right : (a b : ℕ) → bit_and a b ≤ b
bit_and-le_right a b = bit_and-le_below a a b (omega arith)
