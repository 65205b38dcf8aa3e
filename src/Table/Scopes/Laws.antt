-- ===== src/Table/Scopes/Laws.antt =====
-- Entering a scope, declaring a name in it, and leaving it.
use allang.Base.{
  ℕ, zero, suc, ◌+◌, ◌<◌, ◌≤◌, ◌≡◌, refl, ◌∙◌, true, none, some, List, [], arith, ok, Returns, set,
  length, length-set, get_or-replicate, get_or-set_self, get_or-set_ne, get_elem?, Option,
}
use allang.Str.{Str}
use allang.Table.Entries.{Entry, is_valid, keys_of}
use allang.Table.Entries
use allang.Table.Entries.Laws.{IsTable, overwrite_lem, tryfind_iff, key_at-keys_of}
use allang.Table.Entries.Total
use allang.Table.Entries.Total.{searchable}
use allang.Table.Probe.Cyclic.{mod-IsRound}
use native.Mathlib.Numerals.{add-one}
use allang.Table.MiniHashset.{
  array_len, next_index, home_index, find_entry, overwrite_id, clear, keys_of-clear,
}
use allang.Table.Probe.{key_at, search_free}
use allang.Table.Scopes.{Scopes, scope_at, max_depth, push, pop, find_in, find_from, find_id}

module _ {ℓ} {V : Type ℓ} (widen : ℕ → ℕ) where
  -- A search looks at the scopes up to the one that it starts in.
  find_from_congr :
      (a b : Scopes V) (id : Str) (i : ℕ)
      → ((j : ℕ) → j ≤ i → scope_at a j ≡ scope_at b j)
      → find_from widen a id i ≡ find_from widen b id i
  unfolding find_from
  find_from_congr a b id zero same = rw (same 0 (omega arith)) refl
  find_from_congr a b id (suc i) same =
      rw (same (suc i) (omega arith), find_from_congr a b id i (λ j h. same j (omega arith))) refl

  find_id_congr :
      (a b : Scopes V) (id : Str)
      → a.cur ≡ b.cur
      → ((j : ℕ) → j ≤ b.cur → scope_at a j ≡ scope_at b j)
      → find_id widen a id ≡ find_id widen b id
  unfolding find_id
  find_id_congr a b id e same =
      simp (e, find_from_congr a b id b.cur same, same b.cur (omega arith)) refl

  clear_search :
      (es : List (Entry V)) (id : Str) → find_entry widen (clear es) id ≡ ok (home_index widen id)
  unfolding find_entry Entries.find
  clear_search es id =
      search_free next_index array_len (home_index widen) (keys_of (clear es)) id (omega arith)
        (rw (keys_of-clear es) (get_or-replicate (length es) (home_index widen id) none))

  find_in-clear : (es : List (Entry V)) (id : Str) → find_in widen (clear es) id ≡ ok none
  unfolding find_in
  find_in-clear es id =
      rw
        (
          clear_search es id,
          keys_of-clear es,
          get_or-replicate {A = Option Str} (length es) (home_index widen id) none,
        )
        refl

  find_from-add_one :
      (a : Scopes V) (id : Str) (i : ℕ)
      → find_in widen (scope_at a (i + 1)) id ≡ ok none
      → find_from widen a id (i + 1) ≡ find_from widen a id i
  unfolding find_from
  find_from-add_one a id i h = rw add-one (rw (rw add-one at h) refl)

  find_from-hit :
      (a : Scopes V) (id : Str) (i : ℕ) {slot : ℕ}
      → find_in widen (scope_at a i) id ≡ ok (some slot)
      → find_from widen a id i ≡ ok (some (i, slot))
  unfolding find_from
  find_from-hit a id zero h = rw h refl
  find_from-hit a id (suc i) h = rw h refl

  leave :
      (ts : List (List (Entry V))) (c : ℕ)
      → pop (record { tables = ts; cur = c + 1 }) ≡ record { tables = ts; cur = c }
  unfolding pop
  leave ts c = ground arith

  -- A table of one scope in which every stored name is found.
  abbrev pub IsScope : List (Entry V) → Type ℓ
  IsScope es = IsTable next_index array_len (home_index widen) array_len es

  module _ (s : Scopes V) (sized : length s.tables ≡ max_depth) (room : s.cur + 1 < max_depth) where
    abbrev entered : Scopes V
    entered = record {
      tables = set s.tables (s.cur + 1) (clear (scope_at s (s.cur + 1)));
      cur = s.cur + 1;
    }

    push-eq : push s ≡ ok (entered, s.cur)
    unfolding push
    push-eq = ground arith

    entered_below : (j : ℕ) → j ≤ s.cur → scope_at entered j ≡ scope_at s j
    entered_below j h = get_or-set_ne s.tables (s.cur + 1) j _ [] (omega arith)

    -- Entering a scope returns, one level further in. The new scope is empty and the names of the
    -- scopes around it are found as before.
    pub push_lem : Returns (push s) λ r.
        (r.0.cur ≡ s.cur + 1)
        × (length r.0.tables ≡ max_depth)
        × (r.1 ≡ s.cur)
        × ((id : Str) → find_in widen (scope_at r.0 r.0.cur) id ≡ ok none)
        × ((id : Str) → find_from widen r.0 id r.0.cur ≡ find_from widen s id s.cur)
    push_lem = (
      (entered, s.cur),
      push-eq,
      (refl, length-set s.tables (s.cur + 1) _ ∙ sized, refl, empty, outer),
    )
      where
        here : scope_at entered (s.cur + 1) ≡ clear (scope_at s (s.cur + 1))
        here = get_or-set_self s.tables (s.cur + 1) _ [] (omega arith)

        empty : (id : Str) → find_in widen (scope_at entered (s.cur + 1)) id ≡ ok none
        empty id = rw (here, find_in-clear (scope_at s (s.cur + 1)) id) refl

        outer : (id : Str) → find_from widen entered id (s.cur + 1) ≡ find_from widen s id s.cur
        outer id =
            find_from-add_one entered id s.cur (empty id)
            ∙ find_from_congr entered s id s.cur entered_below

    -- Whatever is declared in a scope is forgotten on leaving it: every name is found as before the
    -- scope was entered.
    pub pop-push :
        (inner : List (Entry V)) (id : Str)
        → Returns (push s) λ r.
          let left = pop (record r.0 { tables = set r.0.tables r.0.cur inner }) in
          (left.cur ≡ s.cur) × (find_id widen left id ≡ find_id widen s id)
    pop-push inner id = (
      (entered, s.cur),
      push-eq,
      rw (leave (set entered.tables (s.cur + 1) inner) s.cur) (
        refl,
        find_id_congr (record { tables = set entered.tables (s.cur + 1) inner; cur = s.cur }) s id
            refl
            λ j h.
              get_or-set_ne entered.tables (s.cur + 1) j inner [] (omega arith) ∙ entered_below j h,
      ),
    )

  find_id_of_written :
      (s : Scopes V) (id : Str) (v : V) {t : List (Entry V)}
      → s.cur < length s.tables
      → IsScope (scope_at s s.cur)
      → overwrite_id widen (scope_at s s.cur) id v ≡ ok t
      → (slot : ℕ) × (find_id widen (record s { tables = set s.tables s.cur t }) id
          ≡ ok (record { found = true; scope = s.cur; slot = slot }))
        × (get_elem? t slot ≡ some (record { key = some id; value = v }))
  unfolding overwrite_id find_id find_in find_entry Entries.find
  find_id_of_written s id v {t} low table run =
      let home = home_index widen in
      let here = searchable array_len next_index (mod-IsRound array_len) home (λ k. omega arith) in
      let (ordered, value, _) =
        overwrite_lem next_index array_len home array_len here (scope_at s s.cur) table id v run in
      let (slot, e) =
        (tryfind_iff next_index array_len home array_len here t ordered id v).0 value in
      let a : Scopes V = record { tables = set s.tables s.cur t; cur = s.cur } in
      let found : find_in widen t id ≡ ok (some slot) =
        rw (ordered.reachable slot id (key_at-keys_of t slot e), key_at-keys_of t slot e) refl in
      let hit : find_in widen (scope_at a s.cur) id ≡ ok (some slot) =
        rw (get_or-set_self s.tables s.cur t [] low) found in
      (slot, rw (find_from-hit a id s.cur hit) refl, e)

  -- In an innermost scope with a free slot the declaration of a name returns, and the name is then
  -- found in that scope, with its value, whatever the scopes around it hold.
  pub find_id-overwrite_id :
      (s : Scopes V) (id : Str) (v : V) (j : ℕ)
      → s.cur < length s.tables
      → IsScope (scope_at s s.cur)
      → j < array_len
      → key_at (keys_of (scope_at s s.cur)) j ≡ none
      → Returns (overwrite_id widen (scope_at s s.cur) id v) λ t.
        (slot : ℕ) × (find_id widen (record s { tables = set s.tables s.cur t }) id
          ≡ ok (record { found = true; scope = s.cur; slot = slot }))
        × (get_elem? t slot ≡ some (record { key = some id; value = v }))
  unfolding overwrite_id
  find_id-overwrite_id s id v j low table inside free =
      let (t, run, _) =
        Total.overwrite_total array_len next_index (mod-IsRound array_len) (home_index widen)
          (λ k. omega arith) (scope_at s s.cur) table id v j inside free in
      (t, run, find_id_of_written s id v low table run)
