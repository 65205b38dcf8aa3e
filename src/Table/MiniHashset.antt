-- ===== src/Table/MiniHashset.antt =====
-- alc/mini_hashset.h, `mini_hashset`: the names of one scope, in 26 slots. The values are the
-- registers `reg_t`; the model takes any type. `widen` is the conversion of a `char` to `u64`.
use allang.Base.{
  ℕ, ◌+◌, ◌%◌, Bool, none, List, map, Run, ok, ◌>>=◌, ◌≡◌, refl, ap, suc, replicate, length, [],
  ◌∷◌,
}
use allang.Str.{Str}
use allang.Table.Entries
use allang.Table.Entries.{Entry, is_valid, keys_of}
use allang.Table.Fnv.{hash}
use allang.Table.Probe.{key_at}

-- `'Z' - 'A' + 1`
abbrev pub array_len : ℕ
array_len = 26

-- `index += 1; index %= array_len`
abbrev pub next_index : ℕ → ℕ
next_index index = (index + 1) % array_len

abbrev pub home_index : (ℕ → ℕ) → Str → ℕ
home_index widen id = hash widen id % array_len

module _ {ℓ} {V : Type ℓ} (widen : ℕ → ℕ) where
  unfoldable pub find_entry : List (Entry V) → Str → Run ℕ
  find_entry self id = Entries.find next_index array_len (home_index widen) self id

  unfoldable pub has_entry : List (Entry V) → Str → Run Bool
  has_entry self s = do i ← find_entry self s; ok (is_valid (key_at (keys_of self) i))

  unfoldable pub overwrite_id : List (Entry V) → Str → V → Run (List (Entry V))
  overwrite_id self id value =
      Entries.overwrite next_index array_len (home_index widen) self id value

  unfoldable pub add_id : List (Entry V) → Str → V → Run (Bool × List (Entry V))
  add_id self id value = Entries.tryadd next_index array_len (home_index widen) self id value

unfoldable pub entry_invalidate {ℓ} : {V : Type ℓ} → Entry V → Entry V
entry_invalidate e = record e { key = none }

-- `mini_hashset_clear`: the keys become NULL, the values stay.
unfoldable pub clear {ℓ} : {V : Type ℓ} → List (Entry V) → List (Entry V)
unfolding entry_invalidate
clear self = map entry_invalidate self

pub keys_of-clear {ℓ} :
    {V : Type ℓ} (es : List (Entry V)) → keys_of (clear es) ≡ replicate (length es) none
unfolding clear
keys_of-clear [] = refl
keys_of-clear (e ∷ es) = ap (λ t. none ∷ t) (keys_of-clear es)

pub length-clear {ℓ} : {V : Type ℓ} (es : List (Entry V)) → length (clear es) ≡ length es
unfolding clear
length-clear [] = refl
length-clear (e ∷ es) = ap suc (length-clear es)
