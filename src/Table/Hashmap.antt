-- ===== src/Table/Hashmap.antt =====
-- alc/hashmap.h: `HASHMAP_GENERIC(T, array_len, hash_fn)`. The compiler makes it for symbols and
-- for types with 128 slots and `hash_fnv_1a`; the model takes any power of two and any hash.
pub mod Laws
use allang.Base.{ℕ, ◌+◌, ◌-◌, ◌%◌, ◌^◌, bit_and, Bool, Option, List, Run}
use allang.Str.{Str}
use allang.Table.Entries
use allang.Table.Entries.{Entry}

-- `index += 1; index &= array_len - 1`
abbrev pub next_index : ℕ → ℕ → ℕ
next_index array_len index = bit_and (index + 1) (array_len - 1)

-- `real_hash % array_len`
abbrev pub home_index : ℕ → (Str → ℕ) → Str → ℕ
home_index array_len hash_fn id = hash_fn id % array_len

module _ {ℓ} {V : Type ℓ} (array_len : ℕ) (hash_fn : Str → ℕ) where
  unfoldable pub find : List (Entry V) → Str → Run ℕ
  find self id =
      Entries.find (next_index array_len) array_len (home_index array_len hash_fn) self id

  unfoldable pub tryfind : List (Entry V) → Str → Run (Option V)
  tryfind self s =
      Entries.tryfind (next_index array_len) array_len (home_index array_len hash_fn) self s

  unfoldable pub overwrite : List (Entry V) → Str → V → Run (List (Entry V))
  overwrite self id value =
      Entries.overwrite (next_index array_len) array_len (home_index array_len hash_fn) self id
        value

  unfoldable pub tryadd : List (Entry V) → Str → V → Run (Bool × List (Entry V))
  tryadd self id value =
      Entries.tryadd (next_index array_len) array_len (home_index array_len hash_fn) self id value
