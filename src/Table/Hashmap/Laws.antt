-- ===== src/Table/Hashmap/Laws.antt =====
-- The hash map of alc/hashmap.h with 2 ^ k slots: lookups against the entries that it holds.
use allang.Base.{
  ℕ, ◌+◌, ◌^◌, ◌<◌, ◌≡◌, ◌≢◌, ◌⊎◌, ◌↔◌, true, false, none, some, List, arith, ok, Returns,
  replicate,
}
use allang.Base.Bits.{bit_and_low}
use allang.Str.{Str}
use allang.Table.Probe.{key_at}
use allang.Table.Probe.Cyclic.{IsRound, mod-IsRound}
use allang.Table.Entries.{Entry, keys_of}
use allang.Table.Entries.Laws.{IsTable, Holds, cleared-IsTable}
use allang.Table.Entries.Total
use allang.Table.Hashmap.{next_index, home_index, tryfind, overwrite, tryadd}
use native.Mathlib.Nat.{one-le-pow}

next_index-IsRound : (k : ℕ) → IsRound (2 ^ k) (next_index (2 ^ k))
next_index-IsRound k i low = rw (bit_and_low k (i + 1)) (mod-IsRound (2 ^ k) i low)

home_index-lt : (k : ℕ) (hash_fn : Str → ℕ) (id : Str) → home_index (2 ^ k) hash_fn id < 2 ^ k
home_index-lt k hash_fn id = omega (arith, one-le-pow k 2)

-- 2 ^ k entries, and a search for a stored key ends where the key is stored.
abbrev pub IsHashmap {ℓ} : {V : Type ℓ} → ℕ → (Str → ℕ) → List (Entry V) → Type ℓ
IsHashmap k hash_fn es =
    IsTable (next_index (2 ^ k)) (2 ^ k) (home_index (2 ^ k) hash_fn) (2 ^ k) es

-- A map whose slots are all free, as a global one starts, is in order.
pub free_slots-IsHashmap {ℓ} :
    {V : Type ℓ} (k : ℕ) (hash_fn : Str → ℕ) (v : V)
    → IsHashmap k hash_fn (replicate (2 ^ k) (record { key = none; value = v }))
free_slots-IsHashmap k hash_fn v = cleared-IsTable _ (2 ^ k) _ (2 ^ k) v

module _ {ℓ} {V : Type ℓ} (k : ℕ) (hash_fn : Str → ℕ) (self : List (Entry V))
    (t : IsHashmap k hash_fn self) (id : Str) (j : ℕ) (low : j < 2 ^ k)
    (free : key_at (keys_of self) j ≡ none) where
  abbrev size : ℕ
  size = 2 ^ k

  -- In a map with a free slot a write returns. Afterwards the map is in order, a lookup of the key
  -- gives the value, and a lookup of any other key gives a value exactly when it did before.
  pub overwrite_total :
      (v : V)
      → Returns (overwrite size hash_fn self id v) λ self'.
        IsHashmap k hash_fn self'
        × (tryfind size hash_fn self' id ≡ ok (some v))
        × ((q : Str) (w : V)
            → q ≢ id
            → (tryfind size hash_fn self' q ≡ ok (some w))
              ↔ (tryfind size hash_fn self q ≡ ok (some w)))
  unfolding overwrite tryfind
  overwrite_total v =
      Total.overwrite_total size (next_index size) (next_index-IsRound k) (home_index size hash_fn)
        (home_index-lt k hash_fn) self t id v j low free

  -- In a map with a free slot a lookup returns the value of an entry under the key, or NULL where
  -- no entry has the key.
  pub tryfind_total :
      ((v : V) × (tryfind size hash_fn self id ≡ ok (some v)) × Holds self id v)
      ⊎ ((tryfind size hash_fn self id ≡ ok none) × ((v : V) → ¬ Holds self id v))
  unfolding tryfind
  tryfind_total =
      Total.tryfind_total size (next_index size) (next_index-IsRound k) (home_index size hash_fn)
        (home_index-lt k hash_fn) self t id j low free

  -- In a map with a free slot `tryadd` returns: NULL, with nothing changed, where the key has a
  -- value already, and otherwise what `overwrite` does.
  pub tryadd_total :
      (v : V)
      → ((w : V) × (tryadd size hash_fn self id v ≡ ok (false, self))
          × (tryfind size hash_fn self id ≡ ok (some w)))
        ⊎ ((self' : List (Entry V)) × (tryadd size hash_fn self id v ≡ ok (true, self'))
            × (tryfind size hash_fn self id ≡ ok none)
            × (overwrite size hash_fn self id v ≡ ok self'))
  unfolding tryfind tryadd overwrite
  tryadd_total v =
      Total.tryadd_total size (next_index size) (next_index-IsRound k) (home_index size hash_fn)
        (home_index-lt k hash_fn) self t id v j low free
