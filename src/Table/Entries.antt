-- ===== src/Table/Entries.antt =====
-- A table as an array of entries, searched by a step and a home slot: what alc/hashmap.h and the
-- entry tables of alc/mini_hashset.h have in common.
pub mod Laws
pub mod Total
use allang.Base.{ℕ, Bool, Option, none, some, List, map, Run, ok, ◌>>=◌, set, get_elem?}
use allang.Str.{Str}
use allang.Table.Probe.{Keys, key_at, search_from_home}

pub record Entry {ℓ} (V : Type ℓ) : Type ℓ where
  pub key : Option Str
  pub value : V

abbrev pub keys_of {ℓ} : {V : Type ℓ} → List (Entry V) → Keys
keys_of self = map (λ e. e.key) self

-- `entry->key.data` is not NULL
abbrev pub is_valid : Option Str → Bool
is_valid none = Bool.false
is_valid (some k) = Bool.true

-- A pointer to the entry's value, as the value that it reads.
abbrev pub value_if {ℓ} : {V : Type ℓ} → Option (Entry V) → Option V
value_if none = none
value_if (some e) = elim e.key [ none ↦ none | some k ↦ some e.value ]

module _ {ℓ} {V : Type ℓ} (next : ℕ → ℕ) (fuel : ℕ) (home : Str → ℕ) where
  -- The slot that the search returns a pointer to.
  unfoldable pub find : List (Entry V) → Str → Run ℕ
  find self id = search_from_home next fuel home (keys_of self) id

  -- NULL is `none`.
  unfoldable pub tryfind : List (Entry V) → Str → Run (Option V)
  tryfind self s = do i ← find self s; ok (value_if (get_elem? self i))

  unfoldable pub overwrite : List (Entry V) → Str → V → Run (List (Entry V))
  overwrite self id value = do
    i ← find self id
    ok (set self i (record { key = some id; value = value }))

  -- The flag is false for the NULL return, which leaves the table as it was.
  unfoldable pub tryadd : List (Entry V) → Str → V → Run (Bool × List (Entry V))
  tryadd self id value = do
    i ← find self id
    ok (elim (key_at (keys_of self) i) [
      | some k ↦ (Bool.false, self)
      | none ↦ (Bool.true, set self i (record { key = some id; value = value }))
    ])
