-- ===== src/Table/Probe/Slots.antt =====
-- The loop, and what a write to a free slot does to the searches for every key, whatever the step.
use allang.Base.{
  ℕ, zero, suc, ◌≡◌, refl, sym, ap, ◌∙◌, ◌<◌, ◌⊎◌, inl, inr, Bool, Option, none, some, List, arith,
  ◌==◌, if◌then◌else◌, get_or, set, replicate, get_or-replicate, length, get_or-set_self,
  get_or-set_ne, set-get_or_self, Run, ok, abort, running, Option-cases,
}
use allang.Str.{Str, str_eq, str_eq_iff, str_eq_refl}
use native.Mathlib.Decide.{ℕ_discrete}

abbrev pub Keys : Type 0
Keys = List (Option Str)

abbrev pub key_at : Keys → ℕ → Option Str
key_at keys i = get_or keys i none

-- One round at a slot, given what the rounds after it return.
unfoldable pub visit : Option Str → Str → ℕ → Bool → Run ℕ → Run ℕ
visit none id index back rest = ok index
visit (some key) id index back rest =
    if str_eq key id then ok index else if back then abort else rest

module _ (next : ℕ → ℕ) (keys : Keys) (id : Str) (start : ℕ) where
  unfoldable pub probe : ℕ → ℕ → Run ℕ
  unfolding visit
  probe zero index = running
  probe (suc fuel) index =
      let rest = probe fuel (next index) in
      visit (key_at keys index) id index (next index == start) rest

-- Where the loop stops, the slot is free or has the key.
pub probe_stops :
    (next : ℕ → ℕ) (keys : Keys) (id : Str) (start fuel index : ℕ) {j : ℕ}
    → probe next keys id start fuel index ≡ ok j
    → (key_at keys j ≡ none) ⊎ (key_at keys j ≡ some id)
unfolding probe
probe_stops next keys id start zero index h = cc
probe_stops next keys id start (suc fuel) index {j} h = elim (Option-cases (key_at keys index)) [
  | inl e ↦ inl (ground (arith, e))
  | inr (k, e) ↦
      ground (arith, e, str_eq_iff k id, probe_stops next keys id start fuel (next index) {j = j})
]

probe_free :
    (next : ℕ → ℕ) (keys : Keys) (id : Str) (start fuel index : ℕ)
    → 0 < fuel
    → key_at keys index ≡ none
    → probe next keys id start fuel index ≡ ok index
unfolding probe
probe_free next keys id start zero index h free = absurd (omega arith)
probe_free next keys id start (suc fuel) index h free = rw free refl

pub probe_inside :
    (next : ℕ → ℕ) (n : ℕ)
    → ((i : ℕ) → i < n → next i < n)
    → (keys : Keys) (id : Str) (start fuel index : ℕ) {j : ℕ} → index < n
    → probe next keys id start fuel index ≡ ok j
    → j < n
unfolding probe
probe_inside next n stays keys id start zero index low h = cc
probe_inside next n stays keys id start (suc fuel) index {j} low h = ground (
  arith,
  Option-cases (key_at keys index),
  stays index,
  probe_inside next n stays keys id start fuel (next index) {j = j},
)

module _ (next : ℕ → ℕ) (keys : Keys) (id : Str) (i : ℕ) (bound : i < length keys) where
  abbrev written : Keys
  written = set keys i (some id)

  -- A search that ends at the free slot `i` ends there too once `id` is stored in it.
  pub probe-set_self :
      (start fuel index : ℕ)
      → key_at keys i ≡ none
      → probe next keys id start fuel index ≡ ok i
      → probe next written id start fuel index ≡ ok i
  unfolding probe
  probe-set_self start zero index free h = cc
  probe-set_self start (suc fuel) index free h = elim (ℕ_discrete i index) [
    | yes e ↦ rw (← e, get_or-set_self keys i (some id) none bound, str_eq_refl id) refl
    | no ne ↦
        rw (get_or-set_ne keys i index (some id) none ne)
          (ground (arith, probe-set_self start fuel (next index), Option-cases (key_at keys index)))
  ]

  -- A search for another key that found it before finds it in the same slot afterwards.
  pub probe-set_other :
      (k : Str) (start fuel index : ℕ) {j : ℕ}
      → key_at keys i ≡ none
      → key_at keys j ≡ some k
      → probe next keys k start fuel index ≡ ok j
      → probe next written k start fuel index ≡ ok j
  unfolding probe
  probe-set_other k start zero index free there h = cc
  probe-set_other k start (suc fuel) index {j} free there h = elim (ℕ_discrete i index) [
    | yes e ↦ absurd (ground arith)
    | no ne ↦ rw (get_or-set_ne keys i index (some id) none ne) (
        ground (
          arith,
          probe-set_other k start fuel (next index) {j = j},
          Option-cases (key_at keys index),
        ))
  ]

-- The searches of a table: from a key's home slot, within a fixed number of rounds.
module _ (next : ℕ → ℕ) (fuel : ℕ) (home : Str → ℕ) where
  unfoldable pub search_from_home : Keys → Str → Run ℕ
  unfolding probe
  search_from_home keys id = probe next keys id (home id) fuel (home id)

  -- From a free home slot the search goes nowhere else.
  pub search_free :
      (keys : Keys) (id : Str)
      → 0 < fuel
      → key_at keys (home id) ≡ none
      → search_from_home keys id ≡ ok (home id)
  unfolding search_from_home
  search_free keys id some_fuel free =
      probe_free next keys id (home id) fuel (home id) some_fuel free

  pub search_stops :
      (keys : Keys) (id : Str) {j : ℕ}
      → search_from_home keys id ≡ ok j
      → (key_at keys j ≡ none) ⊎ (key_at keys j ≡ some id)
  unfolding search_from_home
  search_stops keys id h = probe_stops next keys id (home id) fuel (home id) h

  pub search_inside :
      (n : ℕ)
      → ((i : ℕ) → i < n → next i < n)
      → (keys : Keys) (id : Str) {j : ℕ} → home id < n
      → search_from_home keys id ≡ ok j
      → j < n
  unfolding search_from_home
  search_inside n stays keys id low h =
      probe_inside next n stays keys id (home id) fuel (home id) low h

  -- Every stored key is found in its own slot. So no key stands in two slots.
  abbrev pub IsReachable : Keys → Type 0
  IsReachable keys = (j : ℕ) (k : Str) → key_at keys j ≡ some k → search_from_home keys k ≡ ok j

  pub replicate-IsReachable : (n : ℕ) → IsReachable (replicate n none)
  replicate-IsReachable n j k h =
      absurd (ground (arith, get_or-replicate {A = Option Str} n j none))

  module _ (keys : Keys) (id : Str) (i : ℕ) (bound : i < length keys) where
    -- Storing `id` where its search ends keeps every key reachable, and `id` with them.
    pub set-IsReachable :
        IsReachable keys → search_from_home keys id ≡ ok i → IsReachable (set keys i (some id))
    unfolding search_from_home
    set-IsReachable reach found j k h =
        elim (probe_stops next keys id (home id) fuel (home id) found) [
          | inr same ↦
              let unchanged = ap (set keys i) (sym same) ∙ set-get_or_self keys i none in
              rw unchanged (reach j k (rw unchanged at h))
          | inl free ↦ elim (ℕ_discrete i j) [
            | yes e ↦
                let got : some id ≡ some k =
                  sym (get_or-set_self keys i (some id) none bound) ∙ rw (← e) at h in
                cc (e, got, probe-set_self next keys id i bound (home id) fuel (home id) free found)
            | no ne ↦
                let old = rw (get_or-set_ne keys i j (some id) none ne) at h in
                probe-set_other next keys id i bound k (home k) fuel (home k) free old
                  (reach j k old)
          ]
        ]
