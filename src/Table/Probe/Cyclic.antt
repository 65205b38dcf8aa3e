-- ===== src/Table/Probe/Cyclic.antt =====
-- The loop where the step goes round all `n` slots: it ends within `n` rounds, and gives up only
-- on a table with no free slot.
use allang.Base.{
  ℕ, zero, suc, ◌+◌, ◌-◌, ◌%◌, ◌≤◌, ◌≡◌, ◌≢◌, refl, ◌<◌, ◌⊎◌, inl, inr, none, arith, leb, ◌==◌,
  ==_refl, if◌then◌else◌, Run, ok, abort, Option-cases, Bool-cases,
}
use allang.Str.{Str, str_eq}
use allang.Table.Probe.Slots.{Keys, key_at, probe, visit}
use native.Mathlib.Nat.{mod-eq_of_lt, mod_self}
use native.Mathlib.Decide.{ℕ_discrete}

-- The number of steps from `start` to `j`.
abbrev pub offset : ℕ → ℕ → ℕ → ℕ
offset n start j = if leb start j then j - start else j + n - start

abbrev pub IsRound : ℕ → (ℕ → ℕ) → Type 0
IsRound n next = (i : ℕ) → i < n → next i ≡ (if i + 1 == n then 0 else i + 1)

pub mod-IsRound : (n : ℕ) → IsRound n (λ i. (i + 1) % n)
mod-IsRound n i low = elim (ℕ_discrete (i + 1) n) [
  | yes e ↦ rw (e, mod_self n, ==_refl n) refl
  | no ne ↦ let less : i + 1 < n = omega arith in rw (mod-eq_of_lt less) (ground (arith, ne))
]

abbrev pub IsCrowded : ℕ → Keys → Type 0
IsCrowded n keys = (j : ℕ) → j < n → key_at keys j ≢ none

abbrev pub Ends : ℕ → Keys → Run ℕ → Type 0
Ends n keys r = ((j : ℕ) × (r ≡ ok j) × (j < n)) ⊎ ((r ≡ abort) × IsCrowded n keys)

module _ (n : ℕ) (next : ℕ → ℕ) (wraps : IsRound n next) (keys : Keys) (id : Str) (start : ℕ)
    (low : start < n) where
  pub probe-Ends :
      (fuel index : ℕ)
      → index < n
      → n ≤ fuel + offset n start index
      → ((j : ℕ) → j < n → offset n start j < offset n start index → key_at keys j ≢ none)
      → Ends n keys (probe next keys id start fuel index)
  unfolding probe visit
  probe-Ends zero index bound enough seen = absurd (ground arith)
  probe-Ends (suc fuel) index bound enough seen = elim (Option-cases (key_at keys index)) [
    | inl free ↦ rw free (inl (index, refl, bound))
    | inr (k, taken) ↦ elim (Bool-cases (str_eq k id)) [
      | inl same ↦ rw (taken, same) (inl (index, refl, bound))
      | inr other ↦ elim (Bool-cases (next index == start)) [
        | inl back ↦
            rw (taken, other, back)
              (inr (
                refl,
                λ j b. elim (ℕ_discrete j index) [
                  | yes e ↦ λ free. ground (arith, e, free, taken)
                  | no ne ↦ seen j b (ground (arith, wraps index))
                ],
              ))
        | inr on ↦
            rw (taken, other, on)
              (probe-Ends fuel (next index) (ground (arith, wraps index))
                (ground (arith, wraps index))
                λ j b nearer. elim (ℕ_discrete j index) [
                  | yes e ↦ λ free. ground (arith, e, free, taken)
                  | no ne ↦ seen j b (ground (arith, wraps index))
                ])
      ]
    ]
  ]
