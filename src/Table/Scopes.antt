-- ===== src/Table/Scopes.antt =====
-- alc/mini_hashset.h, `arr_mini_hashset`: the stack of scopes. `cur` is the index of the innermost
-- scope in `data`, which has `MAX_DEPTH` tables. The debug prints are not modelled.
pub mod Laws
use allang.Base.{
  ℕ, zero, suc, ◌+◌, ◌-◌, Bool, true, false, Option, none, some, List, [], Run, ok, abort, running,
  ◌>>=◌, ◌==◌, if◌then◌else◌, get_or, set,
}
use allang.Str.{Str}
use allang.Table.Entries.{Entry, is_valid, keys_of}
use allang.Table.MiniHashset.{find_entry, clear}
use allang.Table.Probe.{key_at}

abbrev pub max_depth : ℕ
max_depth = 7

pub record Scopes {ℓ} (V : Type ℓ) : Type ℓ where
  pub tables : List (List (Entry V))
  pub cur : ℕ

module _ {ℓ} {V : Type ℓ} where
  abbrev pub scope_at : Scopes V → ℕ → List (Entry V)
  scope_at arr i = get_or arr.tables i []

  unfoldable pub init : Scopes V → Scopes V
  init arr = record { tables = set arr.tables 0 (clear (scope_at arr 0)); cur = 0 }

  -- With the index of the scope below, `arr->cur - 1`.
  unfoldable pub push : Scopes V → Run (Scopes V × ℕ)
  push arr =
      if arr.cur + 1 == max_depth
      then abort
      else (let cur = arr.cur + 1 in
          ok
            (record { tables = set arr.tables cur (clear (scope_at arr cur)); cur = cur }, cur - 1))

  unfoldable pub pop : Scopes V → Scopes V
  pop arr = if arr.cur == 0 then arr else record arr { cur = arr.cur - 1 }

  -- The index behind the pointer, or `none` for NULL.
  unfoldable pub top : Scopes V → Option ℕ
  top arr = if arr.cur == 0 then none else some (arr.cur - 1)

-- The pointer that `find_id` sets: a scope and a slot in it. `found` is the value returned.
pub record IdRef : Type 0 where
  pub found : Bool
  pub scope : ℕ
  pub slot : ℕ

-- One round of the loop: a valid entry in scope `i`, or else what the scopes further out give.
unfoldable pub first_hit : Run (Option ℕ) → ℕ → Run (Option (ℕ × ℕ)) → Run (Option (ℕ × ℕ))
first_hit (ok (some slot)) i rest = ok (some (i, slot))
first_hit (ok none) i rest = rest
first_hit abort i rest = abort
first_hit running i rest = running

-- What `find_id` returns, from the loop's result and the slot in the innermost scope.
unfoldable pub deliver : Run (Option (ℕ × ℕ)) → ℕ → Run ℕ → Run IdRef
deliver (ok (some (scope, slot))) cur here =
    ok (record { found = true; scope = scope; slot = slot })
deliver (ok none) cur here =
    here >>= λ slot. ok (record { found = false; scope = cur; slot = slot })
deliver abort cur here = abort
deliver running cur here = running

module _ {ℓ} {V : Type ℓ} (widen : ℕ → ℕ) where
  -- `find_entry` and `entry_valid` in one scope.
  unfoldable pub find_in : List (Entry V) → Str → Run (Option ℕ)
  find_in self id = do
    slot ← find_entry widen self id
    ok (if is_valid (key_at (keys_of self) slot) then some slot else none)

  -- The loop from the scope `i` down to the outermost.
  unfoldable pub find_from : Scopes V → Str → ℕ → Run (Option (ℕ × ℕ))
  unfolding first_hit
  find_from arr id zero = first_hit (find_in (scope_at arr zero) id) zero (ok none)
  find_from arr id (suc i) =
      let rest = find_from arr id i in first_hit (find_in (scope_at arr (suc i)) id) (suc i) rest

  unfoldable pub find_id : Scopes V → Str → Run IdRef
  unfolding deliver
  find_id arr id =
      deliver (find_from arr id arr.cur) arr.cur (find_entry widen (scope_at arr arr.cur) id)
