-- ===== src/Typesys/Exponent.antt =====
-- alc/typesys.h, `power_of_two_exponent`.
use allang.Base.{ℕ, zero, suc, ◌-◌, ◌/◌, ◌%◌, not, ◌||◌, ◌==◌, if◌then◌else◌, bit_and}

-- `__builtin_ctzll` of a number that is not 0, with a round for each place of a zero.
trailing_zeros : ℕ → ℕ → ℕ
trailing_zeros zero n = 0
trailing_zeros (suc left) n =
    let more = trailing_zeros left (n / 2) in if n % 2 == 0 then suc more else 0

unfoldable pub ctz : ℕ → ℕ
unfolding trailing_zeros
ctz n = trailing_zeros 64 n

unfoldable pub power_of_two_exponent : ℕ → ℕ
unfolding ctz
power_of_two_exponent n = if n == 0 || not (bit_and n (n - 1) == 0) then 0 else ctz n
