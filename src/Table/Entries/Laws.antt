-- ===== src/Table/Entries/Laws.antt =====
-- What a table's operations do to every key, whatever the step and the home slots.
use allang.Base.{
  ℕ, zero, suc, ◌≡◌, ◌≢◌, refl, sym, ap, ◌∙◌, ◌<◌, ◌⊎◌, ◌↔◌, inl, inr, Option, none, some, List, [],
  ◌∷◌, arith, set, get_elem?, length, length-set, replicate, length-replicate, ok, Option-cases,
  get_elem?-set_self, get_elem?-set_ne, >>=-eq-ok, ok-injective,
}
use allang.Str.{Str}
use allang.Table.Probe.{
  key_at, IsReachable, set-IsReachable, replicate-IsReachable, search_stops, search_inside,
}
use allang.Table.Entries.{Entry, keys_of, value_if, find, tryfind, overwrite}
use native.Mathlib.Decide.{ℕ_discrete}

module _ {ℓ} {V : Type ℓ} where
  keys_of-set :
      (es : List (Entry V)) (i : ℕ) (e : Entry V) → keys_of (set es i e) ≡ set (keys_of es) i e.key
  keys_of-set [] i e = refl
  keys_of-set (x ∷ es) zero e = refl
  keys_of-set (x ∷ es) (suc i) e = ap (λ t. x.key ∷ t) (keys_of-set es i e)

  length-keys_of : (es : List (Entry V)) → length (keys_of es) ≡ length es
  length-keys_of [] = refl
  length-keys_of (x ∷ es) = ap suc (length-keys_of es)

  pub key_at-keys_of :
      (es : List (Entry V)) (j : ℕ) {e : Entry V}
      → get_elem? es j ≡ some e
      → key_at (keys_of es) j ≡ e.key
  key_at-keys_of [] j h = cc
  key_at-keys_of (x ∷ es) zero h = ground arith
  key_at-keys_of (x ∷ es) (suc j) h = key_at-keys_of es j h

  pub elem_of_key :
      (es : List (Entry V)) (j : ℕ) {k : Str}
      → key_at (keys_of es) j ≡ some k
      → (v : V) × (get_elem? es j ≡ some (record { key = some k; value = v }))
  elem_of_key [] j h = cc
  elem_of_key (x ∷ es) zero h = (x.value, λ i. some (record { key = h i; value = x.value }))
  elem_of_key (x ∷ es) (suc j) h = elem_of_key es j h

  pub value_if-eq_none :
      (es : List (Entry V)) (j : ℕ)
      → key_at (keys_of es) j ≡ none
      → value_if (get_elem? es j) ≡ none
  value_if-eq_none [] j h = refl
  value_if-eq_none (x ∷ es) zero h = rw h refl
  value_if-eq_none (x ∷ es) (suc j) h = value_if-eq_none es j h

  value_if-eq_some :
      (o : Option (Entry V)) {v : V}
      → value_if o ≡ some v
      → (k : Str) × (o ≡ some (record { key = some k; value = v }))
  value_if-eq_some none h = cc
  value_if-eq_some (some e) h = elim (Option-cases e.key) [
    | inl free ↦ absurd (ground arith)
    | inr (k, key) ↦ (k, ground arith)
  ]

  keys_of-replicate :
      (n : ℕ) (v : V) → keys_of (replicate n (record { key = none; value = v })) ≡ replicate n none
  keys_of-replicate zero v = refl
  keys_of-replicate (suc n) v = ap (λ t. none ∷ t) (keys_of-replicate n v)

-- The entry `k ↦ v` stands in the table.
abbrev pub Holds {ℓ} : {V : Type ℓ} → List (Entry V) → Str → V → Type ℓ
Holds {V} es k v = (j : ℕ) × (get_elem? es j ≡ some (record { key = some k; value = v }))

module _ (next : ℕ → ℕ) (fuel : ℕ) (home : Str → ℕ) (n : ℕ) where
  -- `n` slots, in which every stored key is found where it stands.
  pub record IsTable {ℓ} {V : Type ℓ} (es : List (Entry V)) : Type ℓ where
    pub sized : length es ≡ n
    pub reachable : IsReachable next fuel home (keys_of es)

module _ (next : ℕ → ℕ) (fuel : ℕ) (home : Str → ℕ) (n : ℕ) where
  -- A table with no key is in order, whatever values are left in it.
  pub no_keys-IsTable {ℓ} :
      {V : Type ℓ} (es : List (Entry V))
      → length es ≡ n
      → keys_of es ≡ replicate n none
      → IsTable next fuel home n es
  no_keys-IsTable es sized none_stored = record {
    sized = sized;
    reachable = rw none_stored (replicate-IsReachable next fuel home n);
  }

  pub cleared-IsTable {ℓ} :
      {V : Type ℓ} (v : V)
      → IsTable next fuel home n (replicate n (record { key = none; value = v }))
  cleared-IsTable v = no_keys-IsTable _ (length-replicate n _) (keys_of-replicate n v)

  -- The step and the home slots stay among the `n` slots.
  pub record IsSearchable : Type 0 where
    pub stays : (i : ℕ) → i < n → next i < n
    pub homes : (k : Str) → home k < n

module _ (next : ℕ → ℕ) (fuel : ℕ) (home : Str → ℕ) (n : ℕ)
    (s : IsSearchable next fuel home n) where
  module _ {ℓ} {V : Type ℓ} (es : List (Entry V)) (t : IsTable next fuel home n es) where
    -- A lookup returns a value exactly when the table holds it under that key.
    pub tryfind_iff : (k : Str) (v : V) → (tryfind next fuel home es k ≡ ok (some v)) ↔ Holds es k v
    unfolding tryfind find
    tryfind_iff k v = (there, back)
      where
        same :
            (j : ℕ) (k' : Str)
            → key_at (keys_of es) j ≡ some k'
            → get_elem? es j ≡ some (record { key = some k'; value = v })
            → (key_at (keys_of es) j ≡ none) ⊎ (key_at (keys_of es) j ≡ some k)
            → get_elem? es j ≡ some (record { key = some k; value = v })
        same j k' stored e (inl free) = cc
        same j k' stored e (inr key) = ground (arith, stored, key, e)

        there : tryfind next fuel home es k ≡ ok (some v) → Holds es k v
        there h =
            let (j, found, read) = >>=-eq-ok (find next fuel home es k) _ h in
            let (k', e) = value_if-eq_some (get_elem? es j) (ok-injective read) in
            (
              j,
              same j k' (key_at-keys_of es j e) e
                  (search_stops next fuel home (keys_of es) k found),
            )

        back : Holds es k v → tryfind next fuel home es k ≡ ok (some v)
        back (j, e) = rw (t.reachable j k (key_at-keys_of es j e), e) refl

    found_inside : (id : Str) {i : ℕ} → find next fuel home es id ≡ ok i → i < length es
    unfolding find
    found_inside id h =
        rw t.sized (search_inside next fuel home n s.stays (keys_of es) id (s.homes id) h)

    module _ (id : Str) (v : V) where
      -- A write that returns has stored the entry, in order, where the search for its key ended.
      pub record Overwritten (es' : List (Entry V)) : Type ℓ where
        pub slot : ℕ
        pub inside : slot < length es
        pub ended : (key_at (keys_of es) slot ≡ none) ⊎ (key_at (keys_of es) slot ≡ some id)
        pub stored : es' ≡ set es slot (record { key = some id; value = v })
        pub ordered : IsTable next fuel home n es'

      overwrite-Overwritten :
          {es' : List (Entry V)} → overwrite next fuel home es id v ≡ ok es' → Overwritten es'
      unfolding overwrite find
      overwrite-Overwritten h =
          let (i, found, e) = >>=-eq-ok (find next fuel home es id) _ h in
          let inside = found_inside id found in
          record {
            slot = i;
            inside = inside;
            ended = search_stops next fuel home (keys_of es) id found;
            stored = sym (ok-injective e);
            ordered = rw (← ok-injective e) (record {
              sized = length-set es i _ ∙ t.sized;
              reachable = rw (keys_of-set es i (record { key = some id; value = v })) (
                  set-IsReachable next fuel home (keys_of es) id i (rw (length-keys_of es) inside)
                    t.reachable found);
            });
          }

      module _ {es' : List (Entry V)} (o : Overwritten es') where
        Holds-after : (k : Str) (w : V) → k ≢ id → Holds es' k w ↔ Holds es k w
        Holds-after k w other = (there, back)
          where
            new : Entry V
            new = record { key = some id; value = v }

            there : Holds es' k w → Holds es k w
            there (j, e) = elim (ℕ_discrete o.slot j) [
              | yes p ↦
                  absurd (
                    ground
                      (arith, e, p, o.stored, other, get_elem?-set_self es o.slot new o.inside))
              | no ne ↦ (j, sym (get_elem?-set_ne es o.slot j new ne) ∙ rw o.stored at e)
            ]

            back : Holds es k w → Holds es' k w
            back (j, e) = elim (ℕ_discrete o.slot j) [
              | yes p ↦ absurd (ground (arith, p, o.ended, other, key_at-keys_of es j e))
              | no ne ↦ (j, rw o.stored (get_elem?-set_ne es o.slot j new ne ∙ e))
            ]

module _ (next : ℕ → ℕ) (fuel : ℕ) (home : Str → ℕ) (n : ℕ)
    (s : IsSearchable next fuel home n) where
  module _ {ℓ} {V : Type ℓ} (es : List (Entry V)) (t : IsTable next fuel home n es) where
    -- After a write that returns the table is in order, a lookup of the key gives the value, and a
    -- lookup of any other key gives a value exactly when it did before.
    pub overwrite_lem :
        (id : Str) (v : V) {es' : List (Entry V)}
        → overwrite next fuel home es id v ≡ ok es'
        → IsTable next fuel home n es'
          × (tryfind next fuel home es' id ≡ ok (some v))
          × ((k : Str) (w : V)
              → k ≢ id
              → (tryfind next fuel home es' k ≡ ok (some w))
                ↔ (tryfind next fuel home es k ≡ ok (some w)))
    overwrite_lem id v {es'} h = (o.ordered, self, other)
      where
        o : Overwritten next fuel home n s es t id v es'
        o = overwrite-Overwritten next fuel home n s es t id v h

        self : tryfind next fuel home es' id ≡ ok (some v)
        self =
            (tryfind_iff next fuel home n s es' o.ordered id v).1
              (o.slot, rw o.stored (get_elem?-set_self es o.slot _ o.inside))

        other :
            (k : Str) (w : V)
            → k ≢ id
            → (tryfind next fuel home es' k ≡ ok (some w))
              ↔ (tryfind next fuel home es k ≡ ok (some w))
        other k w ne =
            let (there, back) = Holds-after next fuel home n s es t id v o k w ne in
            (
              λ p.
                  (tryfind_iff next fuel home n s es t k w).1
                    (there ((tryfind_iff next fuel home n s es' o.ordered k w).0 p)),
              λ p.
                  (tryfind_iff next fuel home n s es' o.ordered k w).1
                    (back ((tryfind_iff next fuel home n s es t k w).0 p)),
            )
