-- ===== src/Table/ConstHashmap/Endless.antt =====
-- With 26 slots the mask `array_len - 1` is 25, which is no mask of low bits: the step leads into
-- one of four cycles of two slots, and a search may never come back to where it started.
use allang.Base.{
  ℕ, zero, suc, ◌+◌, ◌<◌, ◌≡◌, ◌≢◌, refl, Bool, true, false, ◌&&◌, ◌||◌, some, arith, ◌==◌, ==_iff,
  running, inl, inr, sym, ap, ◌∙◌, Bool-cases,
}
use allang.Base.Bits.{bit_and-le_right}
use mathlib.Core.Bool.{false≢true}
use allang.Str.{Str, str_eq, str_eq_iff}
use allang.Table.ConstHashmap.{ConstMap, next_index, home_index, find_index}
use allang.Table.MiniHashset.{array_len}
use allang.Table.Probe.{Keys, key_at, probe, visit, search_from_home}

-- The slots that the step leads to: {0, 1}, {8, 9}, {16, 17} and {24, 25}.
abbrev pub in_cycle : ℕ → Bool
in_cycle i = i == 0 || i == 1 || i == 8 || i == 9 || i == 16 || i == 17 || i == 24 || i == 25

steps_in_cycle : ℕ → Bool
steps_in_cycle zero = true
steps_in_cycle (suc i) = steps_in_cycle i && in_cycle (next_index i)

steps_in_cycle-at :
    (n : ℕ) → steps_in_cycle n ≡ true → (i : ℕ) → i < n → in_cycle (next_index i) ≡ true
unfolding steps_in_cycle
steps_in_cycle-at zero all i low = absurd (omega arith)
steps_in_cycle-at (suc n) all i low = elim (Bool-cases (i == n)) [
  | inl e ↦ let same : i ≡ n = ground (arith, e) in rw same (ground arith)
  | inr ne ↦ steps_in_cycle-at n (ground arith) i (ground arith)
]

next_index-in_cycle : (i : ℕ) → i < array_len → in_cycle (next_index i) ≡ true
unfolding steps_in_cycle
next_index-in_cycle i low = steps_in_cycle-at array_len refl i low

-- A slot holds another key than `id`.
abbrev pub IsTaken : Keys → Str → ℕ → Type 0
IsTaken keys id j = (k : Str) × (key_at keys j ≡ some k) × (k ≢ id)

module _ (keys : Keys) (id : Str) (start : ℕ) (outside : in_cycle start ≡ false)
    (crowded : (j : ℕ) → in_cycle j ≡ true → IsTaken keys id j) where
  cycle-ne-start : (i : ℕ) → in_cycle i ≡ true → (i == start) ≡ false
  cycle-ne-start i h = elim (Bool-cases (i == start)) [
    | inl e ↦ absurd (false≢true (sym outside ∙ ap in_cycle (sym ((==_iff i start).0 e)) ∙ h))
    | inr ne ↦ ne
  ]

  other-str_eq : (k : Str) → k ≢ id → str_eq k id ≡ false
  other-str_eq k ne = elim (Bool-cases (str_eq k id)) [
    | inl e ↦ absurd (ne ((str_eq_iff k id).0 e))
    | inr h ↦ h
  ]

  probe_endless :
      (fuel index : ℕ)
      → index < array_len
      → IsTaken keys id index
      → probe next_index keys id start fuel index ≡ running
  unfolding probe visit
  probe_endless zero index low taken = refl
  probe_endless (suc fuel) index low (k, taken, other) =
      let on = next_index-in_cycle index low in
      rw (taken, other-str_eq k other, cycle-ne-start (next_index index) on)
        (probe_endless fuel (next_index index) (omega (arith, bit_and-le_right (index + 1) 25))
          (crowded (next_index index) on))

-- A search whose home slot is on none of the cycles, with that slot and the eight slots of the
-- cycles taken by other keys, makes any number of rounds without ending, though seventeen of the
-- 26 slots may be free.
pub find_index_endless :
    (widen : ℕ → ℕ) (m : ConstMap) (id : Str)
    → in_cycle (home_index widen id) ≡ false
    → IsTaken m.keys id (home_index widen id)
    → ((j : ℕ) → in_cycle j ≡ true → IsTaken m.keys id j)
    → (fuel : ℕ) → find_index widen fuel m id ≡ running
unfolding find_index search_from_home
find_index_endless widen m id outside home crowded fuel =
    probe_endless m.keys id (home_index widen id) outside crowded fuel (home_index widen id)
      (omega arith) home
