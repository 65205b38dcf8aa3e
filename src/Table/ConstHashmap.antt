-- ===== src/Table/ConstHashmap.antt =====
-- alc/mini_hashset.h, `const_hashmap`: the compile-time constants. Its arrays have 64 slots, but
-- the search uses `array_len`, which is 26 there, and steps by `index &= (array_len - 1)`. The
-- loop need not end, so the search takes the rounds that it may make as `fuel`.
pub mod Laws
pub mod Endless
use allang.Base.{
  ℕ, ◌+◌, ◌-◌, ◌%◌, bit_and, Bool, true, false, Option, none, some, List, Run, ok, ◌>>=◌, get_elem?,
  set, ℤ,
}
use allang.Str.{Str}
use allang.Table.Fnv.{hash}
use allang.Table.MiniHashset.{array_len}
use allang.Table.Probe.{Keys, key_at, search_from_home}

abbrev pub const_size : ℕ
const_size = 64

pub record ConstMap : Type 0 where
  pub keys : Keys
  pub values : List ℤ

-- `index += 1; index &= (array_len - 1)`
abbrev pub next_index : ℕ → ℕ
next_index index = bit_and (index + 1) (array_len - 1)

abbrev pub home_index : (ℕ → ℕ) → Str → ℕ
home_index widen id = hash widen id % array_len

module _ (widen : ℕ → ℕ) (fuel : ℕ) where
  unfoldable pub find_index : ConstMap → Str → Run ℕ
  find_index self id = search_from_home next_index fuel (home_index widen) self.keys id

  unfoldable pub tryadd : ConstMap → Str → ℤ → Run (Bool × ConstMap)
  tryadd self id value = do
    index ← find_index self id
    ok (elim (key_at self.keys index) [
      | some k ↦ (false, self)
      | none ↦ (
        true,
        record { keys = set self.keys index (some id); values = set self.values index value },
      )
    ])

  unfoldable pub tryfind : ConstMap → Str → Run (Option ℤ)
  tryfind self id = do
    index ← find_index self id
    ok (elim (key_at self.keys index) [ none ↦ none | some k ↦ get_elem? self.values index ])
