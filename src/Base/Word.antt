-- ===== src/Base/Word.antt =====
-- Casts to the fixed widths, and shifts. `%` wraps as the C conversions do.
use Prim.Native.Nat.{ℕ, bit_or, ◌-◌, ◌*◌, ◌/◌, ◌%◌, ◌^◌}
use allang.Base.Int.{ℤ, pos, negsuc, sub_ℕ}
use allang.Base.Tests.{ltb, if◌then◌else◌}

abbrev pub u8 : ℕ → ℕ
u8 n = n % 2 ^ 8

abbrev pub u32 : ℕ → ℕ
u32 n = n % 2 ^ 32

abbrev pub u64 : ℕ → ℕ
u64 n = n % 2 ^ 64

infixl 75 ◌<<<◌ ◌>>>◌
abbrev pub ◌<<<◌ : ℕ → ℕ → ℕ
x <<< k = x * 2 ^ k

abbrev pub ◌>>>◌ : ℕ → ℕ → ℕ
x >>> k = x / 2 ^ k

-- The two's complement bits of a signed value, at `w` bits: `(uintw_t)v`.
abbrev pub to_bits : ℕ → ℤ → ℕ
to_bits w (pos n) = n % 2 ^ w
to_bits w (negsuc n) = 2 ^ w - 1 - n % 2 ^ w

-- `x << k` at 32 bits
abbrev pub shl : ℕ → ℕ → ℕ
shl x k = u32 (x * 2 ^ k)

infixl 60 ◌|||◌
abbrev pub ◌|||◌ : ℕ → ℕ → ℕ
a ||| b = bit_or a b

-- `w` bits read as a signed value, and the cast to `int32_t`.
abbrev pub to_signed : ℕ → ℕ → ℤ
to_signed w bits = if ltb bits (2 ^ (w - 1)) then pos bits else sub_ℕ bits (2 ^ w)

abbrev pub i32 : ℤ → ℤ
i32 v = to_signed 32 (to_bits 32 v)
