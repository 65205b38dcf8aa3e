-- ===== src/Exe/Macho/Laws/Names.antt =====
-- What the loader makes of the chained fixups of a Mach-O file: the slots that it fills, and the
-- name for each.
use allang.Base.{
  Option, none, some, ◌&&◌, ℕ, zero, suc, ◌+◌, ◌*◌, ◌/◌, ◌%◌, ◌^◌, ◌<◌, ◌≤◌, ◌≡◌, refl, ◌∙◌, ap,
  sym, arith, List, [], ◌∷◌, ◌++◌, length, length-append, get_or, drop, drop-append, u32, shl,
  ◌|||◌, ltb, ◌==◌, if◌then◌else◌, true, false, inl, inr, Bool-cases,
}
use mathlib.Core.List.{append_assoc}
use allang.Base.Bits.{bit_or_disjoint, bit_or_above}
use allang.Str.{Str}
use allang.Exe.Macho.Chained.{import_entry, put_symbol, build_imports, got_slot, build_got}

-- The import that a slot is bound to.
abbrev pub bound_to : ℕ → Option ℕ
bound_to slot =
    if (slot / 2 ^ 63 == 1) && (slot / 2 ^ 24 % 2 ^ 8 == 0) then some (slot % 2 ^ 24) else none

-- The slots that the loader visits from the slot `k` on, with the index of the import that each
-- names (DYLD_CHAINED_PTR_64: 24 bits of index, 8 of an addend, and 12 bits at 51 that count words of
-- four bytes to the next slot; zero ends the chain). Without bit 63, or with an addend, a slot is not
-- bound to an import as it is: `none`.
unfoldable pub walk : ℕ → List ℕ → ℕ → List (ℕ × Option ℕ)
walk zero got k = []
walk (suc fuel) got k =
    let slot = get_or got k 0 in
    let next = slot / 2 ^ 51 % 2 ^ 12 in
    let rest = walk fuel got (k + next * 4 / 8) in
    (k, bound_to slot) ∷ (if next == 0 then [] else rest)

-- From `i` on, `n` slots that name the imports in their order.
unfoldable pub in_order : ℕ → ℕ → List (ℕ × Option ℕ)
in_order i zero = []
in_order i (suc n) = (i, some i) ∷ in_order (i + 1) n

-- The sizes of the names with an underscore and a zero.
abbrev pub names_size : List Str → ℕ
names_size [] = 0
names_size (name ∷ names) = length (put_symbol name) + names_size names

none_before : (n : ℕ) → 0 + n ≡ n
none_before n = omega arith

got_slot-sum :
    (i n : ℕ) → i < 2 ^ 24 → got_slot i n ≡ 2 ^ 63 + (if ltb (i + 1) n then 2 else 0) * 2 ^ 51 + i
got_slot-sum i n h = elim (Bool-cases (ltb (i + 1) n)) [
  | inl e ↦ rw e (bit_or_disjoint 51 (2 ^ 63 + 2 * 2 ^ 51) i refl (omega (arith, h)))
  | inr e ↦ rw e (bit_or_disjoint 51 (2 ^ 63) i refl (omega (arith, h)))
]

build_got-at : (n i m j : ℕ) → j < m → get_or (build_got n i m) j 0 ≡ got_slot (i + j) n
unfolding build_got
build_got-at n i zero j low = absurd (omega arith)
build_got-at n i (suc m) zero low =
    let same : i ≡ i + 0 = omega arith in ap (λ k. got_slot k n) same
build_got-at n i (suc m) (suc j) low =
    let same : i + 1 + j ≡ i + suc j = omega arith in
    build_got-at n (i + 1) m j (omega (arith, low)) ∙ ap (λ k. got_slot k n) same

-- From the slot `k` the rest of the slots is visited, whatever fuel is left.
walk-from :
    (n m k fuel : ℕ)
    → k + m ≡ n
    → 1 ≤ m
    → m ≤ fuel
    → n ≤ 2 ^ 24
    → walk fuel (build_got n 0 n) k ≡ in_order k m
unfolding walk in_order
walk-from n zero k fuel e some_left enough low = absurd (omega arith)
walk-from n (suc zero) k zero e some_left enough low = absurd (omega arith)
walk-from n (suc zero) k (suc fuel) e some_left enough low =
    let last : ltb (k + 1) n ≡ false = ground (arith, e) in
    let slot : get_or (build_got n 0 n) k 0 ≡ 2 ^ 63 + k =
      build_got-at n 0 n k (omega (arith, e))
      ∙ ap (λ j. got_slot j n) (none_before k)
      ∙ got_slot-sum k n (omega (arith, e, low))
      ∙ rw last (omega arith) in
    let next : (2 ^ 63 + k) / 2 ^ 51 % 2 ^ 12 ≡ 0 = omega (arith, e, low) in
    let named : (2 ^ 63 + k) % 2 ^ 24 ≡ k = omega (arith, e, low) in
    let bind : (2 ^ 63 + k) / 2 ^ 63 ≡ 1 = omega (arith, e, low) in
    let plain : (2 ^ 63 + k) / 2 ^ 24 % 2 ^ 8 ≡ 0 = omega (arith, e, low) in
    rw (slot, next, named, bind, plain) refl
walk-from n (suc (suc m)) k zero e some_left enough low = absurd (omega arith)
walk-from n (suc (suc m)) k (suc fuel) e some_left enough low =
    let more : ltb (k + 1) n ≡ true = ground (arith, e) in
    let slot : get_or (build_got n 0 n) k 0 ≡ 2 ^ 63 + 2 ^ 52 + k =
      build_got-at n 0 n k (omega (arith, e))
      ∙ ap (λ j. got_slot j n) (none_before k)
      ∙ got_slot-sum k n (omega (arith, e, low))
      ∙ rw more (omega arith) in
    let next : (2 ^ 63 + 2 ^ 52 + k) / 2 ^ 51 % 2 ^ 12 ≡ 2 = omega (arith, e, low) in
    let named : (2 ^ 63 + 2 ^ 52 + k) % 2 ^ 24 ≡ k = omega (arith, e, low) in
    let bind : (2 ^ 63 + 2 ^ 52 + k) / 2 ^ 63 ≡ 1 = omega (arith, e, low) in
    let plain : (2 ^ 63 + 2 ^ 52 + k) / 2 ^ 24 % 2 ^ 8 ≡ 0 = omega (arith, e, low) in
    rw (slot, next, named, bind, plain)
      (ap (λ rest. (k, some k) ∷ rest)
        (walk-from n (suc m) (k + 1) fuel (omega (arith, e)) (omega arith) (omega (arith, enough))
          low))

-- The chain goes through all slots once, in the order of the imports, and ends.
pub walk-build_got :
    (n fuel : ℕ) → 1 ≤ n → n ≤ fuel → n ≤ 2 ^ 24 → walk fuel (build_got n 0 n) 0 ≡ in_order 0 n
walk-build_got n fuel some_left enough low =
    walk-from n n 0 fuel (none_before n) some_left enough low

import_entry-parts :
    (off : ℕ) → off < 2 ^ 23 → (import_entry off % 256 ≡ 1) × (import_entry off / 2 ^ 9 ≡ off)
import_entry-parts off low =
    let shifted : u32 (shl off 9) ≡ off * 2 ^ 9 = omega (arith, low) in
    let sum : (1 ||| off * 2 ^ 9) ≡ off * 2 ^ 9 + 1 =
      bit_or_above 9 0 off 1 (omega arith)
      ∙ rw (bit_or_disjoint 23 0 off refl low, none_before off) refl in
    rw (shifted, sum) (omega arith, omega arith)

-- The entry of an import names the library, and where its name stands: behind `cur` other bytes.
build_imports-at :
    (cur : ℕ) (names : List Str) (before : List ℕ) (i : ℕ)
    → length before ≡ cur
    → cur + names_size names < 2 ^ 23
    → i < length names
    → let table = build_imports cur names in
      let entry = get_or table.0 i 0 in
      (rest : List ℕ) × (entry % 256 ≡ 1)
      × (drop (entry / 2 ^ 9) (before ++ table.1) ≡ put_symbol (get_or names i []) ++ rest)
unfolding build_imports
build_imports-at cur [] before i long low at_i = absurd (omega arith)
build_imports-at cur (name ∷ names) before zero long low at_i =
    let (library, off) = import_entry-parts cur (omega (arith, low)) in
    let ys = build_imports (u32 (cur + length (put_symbol name))) names in
    let here : length before + 0 ≡ cur = omega (arith, long) in
    (ys.1, library, rw off (rw here at (drop-append before (put_symbol name ++ ys.1) 0)))
build_imports-at cur (name ∷ names) before (suc i) long low at_i =
    let flat : u32 (cur + length (put_symbol name)) ≡ cur + length (put_symbol name) =
      omega (arith, low) in
    let table = build_imports (cur + length (put_symbol name)) names in
    let (rest, library, found) =
      build_imports-at (cur + length (put_symbol name)) names (before ++ put_symbol name) i
        (length-append before (put_symbol name) ∙ ap (λ n. n + length (put_symbol name)) long)
        (omega (arith, low)) (omega (arith, at_i)) in
    let joined = append_assoc before (put_symbol name) table.1 in
    rw flat (rest, library, ap (drop (get_or table.0 i 0 / 2 ^ 9)) (sym joined) ∙ found)

-- The entry of an import is for the first library, and its name stands behind an underscore.
pub import-name :
    (names : List Str) (i : ℕ)
    → 1 + names_size names < 2 ^ 23
    → i < length names
    → let table = build_imports 1 names in
      let entry = get_or table.0 i 0 in
      (rest : List ℕ) × (entry % 256 ≡ 1)
      × (drop (entry / 2 ^ 9) (0 ∷ table.1) ≡ put_symbol (get_or names i []) ++ rest)
import-name names i low at_i = build_imports-at 1 names (0 ∷ []) i refl low at_i
