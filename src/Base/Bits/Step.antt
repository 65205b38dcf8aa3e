-- ===== src/Base/Bits/Step.antt =====
-- One equation for the lowest digit of `|` and `&`: the native operations are a recursion on
-- binary digits with fuel, and the result does not depend on the fuel.
use Prim.Native.Nat.{
  ℕ, zero, suc, ◌+◌, ◌*◌, ◌/◌, ◌%◌, ◌≤◌, min, max, bit_and, bit_or, digits, bit_and-bitwise,
  bit_or-bitwise, bit_xor, bit_xor-bitwise, differ,
}
use mathlib.Core.Path.{◌≡◌, refl}
use native.Mathlib.Nat.{le_refl}
use native.Mathlib.Omega.{arith}

module _ (rest : ℕ → ℕ) (op : ℕ → ℕ → ℕ) where
  more_fuel : (x y n m : ℕ) → x ≤ n → x ≤ m → digits rest op n x y ≡ digits rest op m x y
  more_fuel zero y zero zero h k = refl
  more_fuel zero y (suc n) (suc m) h k = refl
  more_fuel zero y (suc n) zero h k = refl
  more_fuel zero y zero (suc m) h k = refl
  more_fuel (suc x) y zero m h k = absurd (omega arith)
  more_fuel (suc x) y (suc n) zero h k = absurd (omega arith)
  more_fuel (suc x) y (suc n) (suc m) h k =
      rw (more_fuel (suc x / 2) (y / 2) n m (omega arith) (omega arith))

pub bit_or_step : (x y : ℕ) → bit_or x y ≡ max (x % 2) (y % 2) + 2 * bit_or (x / 2) (y / 2)
bit_or_step zero y = simp bit_or-bitwise (omega arith)
bit_or_step (suc x) y = simp bit_or-bitwise (
    omega
      (arith, more_fuel (λ d. d) max (suc x / 2) (y / 2) x (suc x / 2) (omega arith) (le_refl _)))

pub bit_and_step : (x y : ℕ) → bit_and x y ≡ min (x % 2) (y % 2) + 2 * bit_and (x / 2) (y / 2)
bit_and_step zero y = simp bit_and-bitwise (omega arith)
bit_and_step (suc x) y = simp bit_and-bitwise (
    omega
      (arith, more_fuel (λ d. 0) min (suc x / 2) (y / 2) x (suc x / 2) (omega arith) (le_refl _)))

differ_self : (d : ℕ) → differ d d ≡ 0
differ_self zero = refl
differ_self (suc d) = differ_self d

digits_zero : (n : ℕ) → digits (λ d. d) differ n 0 0 ≡ 0
digits_zero zero = refl
digits_zero (suc n) = refl

digits_self : (n x : ℕ) → x ≤ n → digits (λ d. d) differ n x x ≡ 0
digits_self n zero h = digits_zero n
digits_self zero (suc x) h = absurd (omega arith)
digits_self (suc n) (suc x) h =
    rw (digits_self n (suc x / 2) (omega arith), differ_self (suc x % 2)) refl

pub bit_xor_self : (x : ℕ) → bit_xor x x ≡ 0
bit_xor_self x = simp bit_xor-bitwise (digits_self x x (le_refl _))
