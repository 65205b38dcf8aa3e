-- ===== src/Table/ConstHashmap/Laws.antt =====
-- What `const_hashmap_tryadd` leaves for `const_hashmap_tryfind`, where the searches end.
use allang.Base.{
  ℕ, ◌+◌, ◌<◌, ◌≡◌, ◌≢◌, ◌⊎◌, inl, inr, refl, ◌∙◌, ap, true, false, none, some, arith, ok,
  >>=-eq-ok, length, length-set, set, get_elem?, get_or, get_or-set_self, get_or-set_ne,
  get_elem?-set_self, get_elem?-set_ne, ℤ, Option, Option-cases, get_elem?-eq-get_or, pos,
  replicate, length-replicate,
}
use allang.Base.Bits.{bit_and-le_right}
use allang.Str.{Str}
use allang.Table.ConstHashmap.{
  ConstMap, const_size, next_index, home_index, find_index, tryadd, tryfind,
}
use allang.Table.Probe.{
  key_at, search_inside, search_stops, IsReachable, set-IsReachable, replicate-IsReachable,
}

module _ (widen : ℕ → ℕ) (fuel : ℕ) where
  pub record IsConstMap (m : ConstMap) : Type 0 where
    pub keys_sized : length m.keys ≡ const_size
    pub values_sized : length m.values ≡ const_size
    pub reachable : IsReachable next_index fuel (home_index widen) m.keys

  abbrev pub no_keys : ConstMap
  no_keys = record { keys = replicate const_size none; values = replicate const_size (pos 0) }

  -- A map with no key, as the global one starts.
  pub no_keys-IsConstMap : IsConstMap no_keys
  no_keys-IsConstMap = record {
    keys_sized = length-replicate {A = Option Str} const_size none;
    values_sized = length-replicate const_size (pos 0);
    reachable = replicate-IsReachable next_index fuel (home_index widen) const_size;
  }

  module _ (m : ConstMap) (c : IsConstMap m) where
    inside : (id : Str) {i : ℕ} → find_index widen fuel m id ≡ ok i → i < const_size
    unfolding find_index
    inside id h =
        search_inside next_index fuel (home_index widen) const_size
          (λ i low. ground (arith, bit_and-le_right (i + 1) 25)) m.keys id (omega arith) h

    -- The entry that a lookup found.
    found_entry :
        (q : Str) {w : ℤ}
        → tryfind widen fuel m q ≡ ok (some w)
        → (j : ℕ) × (key_at m.keys j ≡ some q) × (get_elem? m.values j ≡ some w)
    unfolding tryfind find_index
    found_entry q {w} h =
        let (j, found, e) = >>=-eq-ok (find_index widen fuel m q) _ h in
        let (key, value) =
          stored j e (search_stops next_index fuel (home_index widen) m.keys q found) in
        (j, key, value)
      where
        stored :
            (j : ℕ)
            → ok (elim (key_at m.keys j) [ none ↦ none | some k ↦ get_elem? m.values j ])
              ≡ ok (some w)
            → (key_at m.keys j ≡ none) ⊎ (key_at m.keys j ≡ some q)
            → (key_at m.keys j ≡ some q) × (get_elem? m.values j ≡ some w)
        stored j e (inl free) = absurd (ground (arith, e, free))
        stored j e (inr taken) = (taken, ground (arith, e, taken))

  module _ (m : ConstMap) (c : IsConstMap m) where
    -- A stored key with its value is looked up.
    lookup_entry :
        (q : Str) (j : ℕ) {w : ℤ}
        → key_at m.keys j ≡ some q
        → get_elem? m.values j ≡ some w
        → tryfind widen fuel m q ≡ ok (some w)
    unfolding tryfind find_index
    lookup_entry q j taken value = rw (c.reachable j q taken, taken, value) refl

  module _ (m : ConstMap) (c : IsConstMap m) (id : Str) (v : ℤ) (i : ℕ)
      (found : find_index widen fuel m id ≡ ok i) (free : key_at m.keys i ≡ none) where
    abbrev extended : ConstMap
    extended = record { keys = set m.keys i (some id); values = set m.values i v }

    low : i < length m.keys
    low = rw c.keys_sized (inside m c id found)

    extended-IsConstMap : IsConstMap extended
    unfolding find_index
    extended-IsConstMap = record {
      keys_sized = length-set m.keys i (some id) ∙ c.keys_sized;
      values_sized = length-set m.values i v ∙ c.values_sized;
      reachable =
          set-IsReachable next_index fuel (home_index widen) m.keys id i low c.reachable found;
    }

    extended_self : tryfind widen fuel extended id ≡ ok (some v)
    extended_self =
        lookup_entry extended extended-IsConstMap id i (get_or-set_self m.keys i (some id) none low)
          (get_elem?-set_self m.values i v (rw c.values_sized (inside m c id found)))

    extended_other :
        (q : Str) (w : ℤ)
        → tryfind widen fuel m q ≡ ok (some w)
        → tryfind widen fuel extended q ≡ ok (some w)
    extended_other q w h =
        let (j, key, value) = found_entry m c q h in
        let other : i ≢ j = λ e. ground (arith, e, key, free) in
        lookup_entry extended extended-IsConstMap q j
          (get_or-set_ne m.keys i j (some id) none other ∙ key)
          (get_elem?-set_ne m.values i j v other ∙ value)

  module _ (m : ConstMap) (c : IsConstMap m) where
    -- Where the search for `id` ends, `tryadd` either returns false and changes nothing, and the
    -- constant has a value, or it returns true: the constant had no value, a lookup gives its
    -- value now, and every constant that had a value keeps it.
    pub tryadd_lem :
        (id : Str) (v : ℤ) {i : ℕ}
        → find_index widen fuel m id ≡ ok i
        → ((w : ℤ) × (tryadd widen fuel m id v ≡ ok (false, m))
            × (tryfind widen fuel m id ≡ ok (some w)))
          ⊎ ((m' : ConstMap) × (tryadd widen fuel m id v ≡ ok (true, m'))
              × IsConstMap m'
              × (tryfind widen fuel m id ≡ ok none)
              × (tryfind widen fuel m' id ≡ ok (some v))
              × ((q : Str) (w : ℤ)
                  → tryfind widen fuel m q ≡ ok (some w)
                  → tryfind widen fuel m' q ≡ ok (some w)))
    unfolding tryadd tryfind
    tryadd_lem id v {i} found = elim (Option-cases (key_at m.keys i)) [
      | inr (k, taken) ↦
          let bound : i < length m.values = rw c.values_sized (inside m c id found) in
          inl (
            get_or m.values i (pos 0),
            rw (found, taken) refl,
            rw (found, taken) (ap ok (get_elem?-eq-get_or m.values i (pos 0) bound)),
          )
      | inl free ↦ inr (
        extended m c id v i found free,
        rw (found, free) refl,
        extended-IsConstMap m c id v i found free,
        rw (found, free) refl,
        extended_self m c id v i found free,
        extended_other m c id v i found free,
      )
    ]
