-- ===== src/Str.antt =====
-- alc/str.h: a `str` is the bytes from `data` up to `end`. A `str` whose `data` is NULL stands in
-- the tables as a missing key. Of the C library only what the code uses is modelled: `memcmp` as a
-- test for equal bytes, `strlen` and `memcpy` on the bytes of a literal.
use allang.Base.{
  ℕ, zero, suc, ◌-◌, ◌≡◌, refl, ◌↔◌, Bool, true, false, ◌&&◌, Option, none, some, List, [], ◌∷◌,
  ◌++◌, arith, leb, ◌==◌, ==_refl, if◌then◌else◌, length, drop,
}

abbrev pub Str : Type 0
Str = List ℕ

abbrev pub str_len : Str → ℕ
str_len s = length s

-- `memcmp(a, b, n) == 0`; a read past either end is no match.
pub memcmp_eq : ℕ → Str → Str → Bool
memcmp_eq zero a b = true
memcmp_eq (suc n) [] b = false
memcmp_eq (suc n) (x ∷ a) [] = false
memcmp_eq (suc n) (x ∷ a) (y ∷ b) = (x == y) && memcmp_eq n a b

unfoldable pub str_eq : Str → Str → Bool
unfolding memcmp_eq
str_eq lhs rhs = (str_len lhs == str_len rhs) && memcmp_eq (str_len lhs) lhs rhs

unfoldable pub str_empty : Str → Bool
str_empty s = length s == 0

-- A comparison with a literal.
unfoldable pub str_eq_lit : Str → Str → Bool
unfolding memcmp_eq
str_eq_lit s cstr = (str_len s == str_len cstr) && memcmp_eq (str_len cstr) s cstr

unfoldable pub str_ends_with : Str → Str → Bool
unfolding memcmp_eq
str_ends_with token cstr =
    let len = str_len cstr in
    leb len (str_len token) && memcmp_eq len (drop (str_len token - len) token) cstr

-- The buffer after the copy, with its terminating zero, or `none` for the `false` return.
unfoldable pub str_to_cstr : Str → ℕ → Option (List ℕ)
str_to_cstr s bufsize = if leb bufsize (str_len s) then none else some (s ++ 0 ∷ [])

memcmp_eq_refl : (a : Str) → memcmp_eq (length a) a a ≡ true
unfolding memcmp_eq
memcmp_eq_refl [] = refl
memcmp_eq_refl (x ∷ a) = ground (arith, memcmp_eq_refl a)

memcmp_eq-eq : (a b : Str) → length a ≡ length b → memcmp_eq (length a) a b ≡ true → a ≡ b
unfolding memcmp_eq
memcmp_eq-eq [] [] l h = refl
memcmp_eq-eq [] (y ∷ b) l h = absurd (omega arith)
memcmp_eq-eq (x ∷ a) [] l h = absurd (omega arith)
memcmp_eq-eq (x ∷ a) (y ∷ b) l h = ground (arith, memcmp_eq-eq a b)

-- `str_eq` decides equality of the bytes.
pub str_eq_iff : (a b : Str) → (str_eq a b ≡ true) ↔ (a ≡ b)
unfolding str_eq
str_eq_iff a b =
    (λ h. ground (arith, memcmp_eq-eq a b), λ e. rw (← e, ==_refl, memcmp_eq_refl) refl)

pub str_eq_refl : (a : Str) → str_eq a a ≡ true
str_eq_refl a = (str_eq_iff a a).1 refl
