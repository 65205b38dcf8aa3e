-- ===== src/Tests/TableTests.antt =====
-- The tables of names.
use allang.Base.{
  ℕ, ◌≡◌, ◌≢◌, ◌⊎◌, ◌↔◌, refl, true, false, none, some, List, [], ◌∷◌, arith, ok, running, Returns,
  replicate, length, set, ◌≢◌, inl, inr, Option, get_elem?, ℤ, pos,
}
use allang.Str.{Str}
use allang.Table.Entries.{Entry}
use allang.Table.Entries.Laws.{Holds, cleared-IsTable}
use allang.Table.Fnv.{hash_fnv_1a, hash}
use allang.Table.Hashmap.Laws.{
  IsHashmap, free_slots-IsHashmap, overwrite_total, tryfind_total, tryadd_total,
}
use allang.Table.ConstHashmap.{ConstMap}
use allang.Table.ConstHashmap
use allang.Table.ConstHashmap.Laws.{IsConstMap, no_keys, no_keys-IsConstMap, tryadd_lem}
use allang.Table.ConstHashmap.Endless.{in_cycle, IsTaken, find_index_endless}
use allang.Table.MiniHashset.{array_len, overwrite_id}
use allang.Table.Probe.{search_from_home}
use allang.Table.Scopes.{Scopes, max_depth, push, pop, find_in, find_from, find_id, scope_at}
use allang.Table.Scopes.Laws.{IsScope, push_lem, pop-push, find_id-overwrite_id}
use allang.Table.Hashmap.{tryfind, overwrite, tryadd}

-- A platform whose `char` has no sign.
abbrev plain : ℕ → ℕ
plain c = c

abbrev fnv : Str → ℕ
fnv = hash_fnv_1a plain

abbrev name_a : Str
name_a = b'a' ∷ []

abbrev four_free : List (Entry ℕ)
four_free = replicate 4 (record { key = none; value = 0 })

four_free-IsHashmap : IsHashmap 2 fnv four_free
four_free-IsHashmap = free_slots-IsHashmap 2 fnv 0

overwrite_total_example : Returns (overwrite 4 fnv four_free name_a 7) λ self'.
    IsHashmap 2 fnv self'
    × (tryfind 4 fnv self' name_a ≡ ok (some 7))
    × ((q : Str) (w : ℕ)
        → q ≢ name_a
        → (tryfind 4 fnv self' q ≡ ok (some w)) ↔ (tryfind 4 fnv four_free q ≡ ok (some w)))
overwrite_total_example =
    overwrite_total 2 fnv four_free four_free-IsHashmap name_a 0 (omega arith) refl 7

tryfind_total_example :
    ((v : ℕ) × (tryfind 4 fnv four_free name_a ≡ ok (some v)) × Holds four_free name_a v)
    ⊎ ((tryfind 4 fnv four_free name_a ≡ ok none) × ((v : ℕ) → ¬ Holds four_free name_a v))
tryfind_total_example =
    tryfind_total 2 fnv four_free four_free-IsHashmap name_a 0 (omega arith) refl

tryadd_total_example :
    ((w : ℕ) × (tryadd 4 fnv four_free name_a 7 ≡ ok (false, four_free))
      × (tryfind 4 fnv four_free name_a ≡ ok (some w)))
    ⊎ ((self' : List (Entry ℕ)) × (tryadd 4 fnv four_free name_a 7 ≡ ok (true, self'))
        × (tryfind 4 fnv four_free name_a ≡ ok none)
        × (overwrite 4 fnv four_free name_a 7 ≡ ok self'))
tryadd_total_example =
    tryadd_total 2 fnv four_free four_free-IsHashmap name_a 0 (omega arith) refl 7

-- Scopes of numbers: the outermost alone, and all free.
abbrev empty_scope : List (Entry ℕ)
empty_scope = replicate array_len (record { key = none; value = 0 })

abbrev outermost : Scopes ℕ
outermost = record { tables = replicate max_depth empty_scope; cur = 0 }

empty_scope-IsScope : IsScope plain empty_scope
empty_scope-IsScope = cleared-IsTable _ array_len _ array_len 0

push_lem_example : Returns (push outermost) λ r.
    (r.0.cur ≡ 1)
    × (length r.0.tables ≡ max_depth)
    × (r.1 ≡ 0)
    × ((id : Str) → find_in plain (scope_at r.0 r.0.cur) id ≡ ok none)
    × ((id : Str) → find_from plain r.0 id r.0.cur ≡ find_from plain outermost id 0)
push_lem_example = push_lem plain outermost refl (omega arith)

pop-push_example : Returns (push outermost) λ r.
    let left = pop (record r.0 { tables = set r.0.tables r.0.cur empty_scope }) in
    (left.cur ≡ 0) × (find_id plain left name_a ≡ find_id plain outermost name_a)
pop-push_example = pop-push plain outermost refl (omega arith) empty_scope name_a

find_id-overwrite_id_example : Returns (overwrite_id plain empty_scope name_a 7) λ t.
    (slot : ℕ) × (find_id plain (record outermost { tables = set outermost.tables 0 t }) name_a
      ≡ ok (record { found = true; scope = 0; slot = slot }))
    × (get_elem? t slot ≡ some (record { key = some name_a; value = 7 }))
find_id-overwrite_id_example =
    find_id-overwrite_id plain outermost name_a 7 0 (omega arith) empty_scope-IsScope (omega arith)
      refl

abbrev no_constants : ConstMap
no_constants = no_keys plain 3

-- 'a' has the home slot 24.
no_key_found : ConstHashmap.find_index plain 3 no_constants name_a ≡ ok 24
unfolding ConstHashmap.find_index search_from_home hash
no_key_found = refl

tryadd_lem_example :
    ((w : ℤ) × (ConstHashmap.tryadd plain 3 no_constants name_a (pos 7) ≡ ok (false, no_constants))
      × (ConstHashmap.tryfind plain 3 no_constants name_a ≡ ok (some w)))
    ⊎ ((m' : ConstMap) × (ConstHashmap.tryadd plain 3 no_constants name_a (pos 7) ≡ ok (true, m'))
        × IsConstMap plain 3 m'
        × (ConstHashmap.tryfind plain 3 no_constants name_a ≡ ok none)
        × (ConstHashmap.tryfind plain 3 m' name_a ≡ ok (some (pos 7)))
        × ((q : Str) (w : ℤ)
            → ConstHashmap.tryfind plain 3 no_constants q ≡ ok (some w)
            → ConstHashmap.tryfind plain 3 m' q ≡ ok (some w)))
tryadd_lem_example =
    tryadd_lem plain 3 no_constants (no_keys-IsConstMap plain 3) name_a (pos 7) no_key_found

-- Nine names of one letter, each in its home slot; "ad" has the home slot 2.
abbrev letter : ℕ → Option Str
letter c = some (c ∷ [])

abbrev nine_constants : ConstMap
nine_constants = record {
  keys =
      letter b'o'
      ∷ letter b'h'
      ∷ letter b'u'
      ∷ none
      ∷ none
      ∷ none
      ∷ none
      ∷ none
      ∷ letter b'm'
      ∷ letter b'n'
      ∷ none
      ∷ none
      ∷ none
      ∷ none
      ∷ none
      ∷ none
      ∷ letter b'c'
      ∷ letter b'l'
      ∷ none
      ∷ none
      ∷ none
      ∷ none
      ∷ none
      ∷ none
      ∷ letter b'a'
      ∷ letter b'b'
      ∷ replicate 38 none;
  values = replicate 64 (pos 1);
}

abbrev name_ad : Str
name_ad = b'a' ∷ b'd' ∷ []

letter-ne : (c : ℕ) → (c ∷ []) ≢ name_ad
letter-ne c e = cc

cycles-IsTaken : (j : ℕ) → in_cycle j ≡ true → IsTaken nine_constants.keys name_ad j
cycles-IsTaken j h =
    let slots : (j ≡ 0) ⊎ (j ≡ 1) ⊎ (j ≡ 8) ⊎ (j ≡ 9) ⊎ (j ≡ 16) ⊎ (j ≡ 17) ⊎ (j ≡ 24) ⊎ (j ≡ 25) =
      ground arith in
    elim slots [
      | inl e ↦ rw e (b'o' ∷ [], refl, letter-ne b'o')
      | inr (inl e) ↦ rw e (b'h' ∷ [], refl, letter-ne b'h')
      | inr (inr (inl e)) ↦ rw e (b'm' ∷ [], refl, letter-ne b'm')
      | inr (inr (inr (inl e))) ↦ rw e (b'n' ∷ [], refl, letter-ne b'n')
      | inr (inr (inr (inr (inl e)))) ↦ rw e (b'c' ∷ [], refl, letter-ne b'c')
      | inr (inr (inr (inr (inr (inl e))))) ↦ rw e (b'l' ∷ [], refl, letter-ne b'l')
      | inr (inr (inr (inr (inr (inr (inl e)))))) ↦ rw e (b'a' ∷ [], refl, letter-ne b'a')
      | inr (inr (inr (inr (inr (inr (inr e)))))) ↦ rw e (b'b' ∷ [], refl, letter-ne b'b')
    ]

find_index_endless_example : ConstHashmap.find_index plain 1000 nine_constants name_ad ≡ running
unfolding hash
find_index_endless_example =
    find_index_endless plain nine_constants name_ad refl (b'u' ∷ [], refl, letter-ne b'u')
      cycles-IsTaken 1000
