-- ===== src/Parser/Struct/Align.antt =====
-- Rounding up to an alignment.
use allang.Base.{
  ℕ, ◌+◌, ◌-◌, ◌*◌, ◌/◌, ◌%◌, ◌^◌, ◌<◌, ◌≤◌, ◌≡◌, ◌∙◌, ap, arith, Bool, true, ◌||◌, ◌==◌, ==_iff,
  Bool-cases, inl, inr, u64, bit_and,
}
use allang.Base.Bits.{bit_and_above, bit_and_low}
use native.Mathlib.Nat.{one-le-pow, mod-eq_of_lt}
use allang.Parser.Struct.{align_to}

-- The alignments of the fundamental types.
abbrev pub is_align : ℕ → Bool
is_align a = (a == 1) || (a == 2) || (a == 4) || (a == 8) || (a == 16)

-- What rounding gives.
abbrev pub Rounded : ℕ → ℕ → ℕ → Type 0
Rounded n a r = (r % a ≡ 0) × (n ≤ r) × (r < n + a)

-- A mask of `j` bits above `k` clear ones clears the low bits.
pub masked : (k j n : ℕ) → n / 2 ^ k < 2 ^ j → bit_and n ((2 ^ j - 1) * 2 ^ k) ≡ n / 2 ^ k * 2 ^ k
masked k j n h =
    let split : n / 2 ^ k * 2 ^ k + n % 2 ^ k ≡ n = ground (arith, one-le-pow k 2) in
    let low : n % 2 ^ k < 2 ^ k = ground (arith, one-le-pow k 2) in
    let above = bit_and_above k (n / 2 ^ k) (2 ^ j - 1) (n % 2 ^ k) low in
    let whole : n / 2 ^ k % 2 ^ j ≡ n / 2 ^ k = mod-eq_of_lt h in
    (rw split at above) ∙ ap (λ (x : ℕ). x * 2 ^ k) (bit_and_low j (n / 2 ^ k) ∙ whole)

to_1 : (n : ℕ) → n + 16 ≤ 2 ^ 64 → Rounded n 1 (align_to n 1)
unfolding align_to
to_1 n room =
    let up : u64 (n + 1 + (2 ^ 64 - 1)) ≡ n + 0 = omega arith in
    let cleared : bit_and (n + 0) (2 ^ 64 - 1) ≡ (n + 0) / 1 * 1 =
      masked 0 64 (n + 0) (omega arith) in
    rw (up, cleared) (omega arith, omega arith, omega arith)

to_2 : (n : ℕ) → n + 16 ≤ 2 ^ 64 → Rounded n 2 (align_to n 2)
unfolding align_to
to_2 n room =
    let up : u64 (n + 2 + (2 ^ 64 - 1)) ≡ n + 1 = omega arith in
    let cleared : bit_and (n + 1) (2 ^ 64 - 2) ≡ (n + 1) / 2 * 2 =
      masked 1 63 (n + 1) (omega arith) in
    rw (up, cleared) (omega arith, omega arith, omega arith)

to_4 : (n : ℕ) → n + 16 ≤ 2 ^ 64 → Rounded n 4 (align_to n 4)
unfolding align_to
to_4 n room =
    let up : u64 (n + 4 + (2 ^ 64 - 1)) ≡ n + 3 = omega arith in
    let cleared : bit_and (n + 3) (2 ^ 64 - 4) ≡ (n + 3) / 4 * 4 =
      masked 2 62 (n + 3) (omega arith) in
    rw (up, cleared) (omega arith, omega arith, omega arith)

to_8 : (n : ℕ) → n + 16 ≤ 2 ^ 64 → Rounded n 8 (align_to n 8)
unfolding align_to
to_8 n room =
    let up : u64 (n + 8 + (2 ^ 64 - 1)) ≡ n + 7 = omega arith in
    let cleared : bit_and (n + 7) (2 ^ 64 - 8) ≡ (n + 7) / 8 * 8 =
      masked 3 61 (n + 7) (omega arith) in
    rw (up, cleared) (omega arith, omega arith, omega arith)

to_16 : (n : ℕ) → n + 16 ≤ 2 ^ 64 → Rounded n 16 (align_to n 16)
unfolding align_to
to_16 n room =
    let up : u64 (n + 16 + (2 ^ 64 - 1)) ≡ n + 15 = omega arith in
    let cleared : bit_and (n + 15) (2 ^ 64 - 16) ≡ (n + 15) / 16 * 16 =
      masked 4 60 (n + 15) (omega arith) in
    rw (up, cleared) (omega arith, omega arith, omega arith)

-- A page of 4096 bytes.
pub to_page : (n : ℕ) → n + 4096 ≤ 2 ^ 64 → Rounded n 4096 (align_to n 4096)
unfolding align_to
to_page n room =
    let up : u64 (n + 4096 + (2 ^ 64 - 1)) ≡ n + 4095 = omega arith in
    let cleared : bit_and (n + 4095) (2 ^ 64 - 4096) ≡ (n + 4095) / 4096 * 4096 =
      masked 12 52 (n + 4095) (omega arith) in
    rw (up, cleared) (omega arith, omega arith, omega arith)

-- A predicate that holds at the five alignments.
pub by_align : (P : ℕ → Type 0) → P 1 → P 2 → P 4 → P 8 → P 16 → (a : ℕ) → is_align a ≡ true → P a
by_align P p1 p2 p4 p8 p16 a h = elim (Bool-cases (a == 1)) [
  | inl e ↦ rw ((==_iff a 1).0 e) p1
  | inr e1 ↦ elim (Bool-cases (a == 2)) [
    | inl e ↦ rw ((==_iff a 2).0 e) p2
    | inr e2 ↦ elim (Bool-cases (a == 4)) [
      | inl e ↦ rw ((==_iff a 4).0 e) p4
      | inr e4 ↦ elim (Bool-cases (a == 8)) [
        | inl e ↦ rw ((==_iff a 8).0 e) p8
        | inr e8 ↦ let last : a ≡ 16 = ground (arith, h, e1, e2, e4, e8) in rw last p16
      ]
    ]
  ]
]

-- Rounding up to an alignment gives its next multiple.
pub align_to_lem : (n a : ℕ) → is_align a ≡ true → n + 16 ≤ 2 ^ 64 → Rounded n a (align_to n a)
align_to_lem n a h room =
    by_align (λ b. Rounded n b (align_to n b)) (to_1 n room) (to_2 n room) (to_4 n room)
      (to_8 n room) (to_16 n room) a h
