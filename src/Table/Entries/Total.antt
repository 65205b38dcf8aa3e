-- ===== src/Table/Entries/Total.antt =====
-- Where the step goes round all the slots, the operations of a table end, and they give up only on
-- a table with no free slot.
use allang.Base.{
  ℕ, ◌<◌, ◌≡◌, ◌≢◌, ◌⊎◌, ◌↔◌, inl, inr, none, some, true, false, List, arith, ok, Returns, refl, ap,
  ◌∙◌, set, get_elem?, Option-cases,
}
use allang.Str.{Str}
use allang.Table.Probe.{key_at, search_from_home}
use allang.Table.Probe.Cyclic.{IsRound, Ends, probe-Ends}
use allang.Table.Entries.{Entry, keys_of, value_if, find, tryfind, overwrite, tryadd}
use allang.Table.Entries.Laws.{
  IsTable, IsSearchable, Holds, overwrite_lem, tryfind_iff, value_if-eq_none, elem_of_key,
}

module _ (n : ℕ) (next : ℕ → ℕ) (wraps : IsRound n next) (home : Str → ℕ)
    (homes : (k : Str) → home k < n) where
  pub searchable : IsSearchable next n home n
  searchable = record { stays = λ i low. rw (wraps i low) (ground arith); homes = homes }

  module _ {ℓ} {V : Type ℓ} (self : List (Entry V)) (t : IsTable next n home n self) where
    -- A search ends in one of the slots, or aborts and no slot is free.
    pub find-Ends : (id : Str) → Ends n (keys_of self) (find next n home self id)
    unfolding find search_from_home
    find-Ends id =
        probe-Ends n next wraps (keys_of self) id (home id) (homes id) n (home id) (homes id)
          (ground arith) (λ j b near. absurd (ground arith))

    find_returns :
        (id : Str) (j : ℕ)
        → j < n
        → key_at (keys_of self) j ≡ none
        → (i : ℕ) × (find next n home self id ≡ ok i)
    find_returns id j low free = elim (find-Ends id) [
      | inl (i, found, _) ↦ (i, found)
      | inr (_, crowded) ↦ absurd (crowded j low free)
    ]

    -- With a free slot a write returns. Afterwards the table is in order, a lookup of the key gives
    -- the value, and a lookup of any other key gives a value exactly when it did before.
    pub overwrite_total :
        (id : Str) (v : V) (j : ℕ)
        → j < n
        → key_at (keys_of self) j ≡ none
        → Returns (overwrite next n home self id v) λ self'.
          IsTable next n home n self'
          × (tryfind next n home self' id ≡ ok (some v))
          × ((q : Str) (w : V)
              → q ≢ id
              → (tryfind next n home self' q ≡ ok (some w))
                ↔ (tryfind next n home self q ≡ ok (some w)))
    unfolding overwrite find
    overwrite_total id v j low free =
        let (i, found) = find_returns id j low free in
        let run : overwrite next n home self id v
            ≡ ok (set self i (record { key = some id; value = v })) =
          rw found refl in
        (_, run, overwrite_lem next n home n searchable self t id v run)

    -- With a free slot a lookup returns: the value of the entry under the key, or NULL where no
    -- entry has the key.
    pub tryfind_total :
        (id : Str) (j : ℕ)
        → j < n
        → key_at (keys_of self) j ≡ none
        → ((v : V) × (tryfind next n home self id ≡ ok (some v)) × Holds self id v)
          ⊎ ((tryfind next n home self id ≡ ok none) × ((v : V) → ¬ Holds self id v))
    unfolding tryfind find
    tryfind_total id j low free =
        let (i, found) = find_returns id j low free in
        let run : tryfind next n home self id ≡ ok (value_if (get_elem? self i)) = rw found refl in
        let iff = tryfind_iff next n home n searchable self t id in
        elim (Option-cases (value_if (get_elem? self i))) [
          | inl e ↦ inr (run ∙ ap ok e, λ v h. cc (run, e, (iff v).1 h))
          | inr (v, e) ↦ inl (v, run ∙ ap ok e, (iff v).0 (run ∙ ap ok e))
        ]

    -- With a free slot `tryadd` returns. Either the key has a value, and nothing changes, or it has
    -- none, and the entry is written.
    pub tryadd_total :
        (id : Str) (v : V) (j : ℕ)
        → j < n
        → key_at (keys_of self) j ≡ none
        → ((w : V) × (tryadd next n home self id v ≡ ok (false, self))
            × (tryfind next n home self id ≡ ok (some w)))
          ⊎ ((self' : List (Entry V)) × (tryadd next n home self id v ≡ ok (true, self'))
              × (tryfind next n home self id ≡ ok none)
              × (overwrite next n home self id v ≡ ok self'))
    unfolding tryadd tryfind overwrite find
    tryadd_total id v j low free =
        let (i, found) = find_returns id j low free in
        elim (Option-cases (key_at (keys_of self) i)) [
          | inl e ↦ inr (
            set self i (record { key = some id; value = v }),
            rw (found, e) refl,
            rw (found, value_if-eq_none self i e) refl,
            rw found refl,
          )
          | inr (k, e) ↦
              let (w, p) = elem_of_key self i e in inl (w, rw (found, e) refl, rw (found, p) refl)
        ]
