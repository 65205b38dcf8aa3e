-- ===== src/Exe/Hash/Laws.antt =====
-- The dynamic linker finds every import in the table, as the System V ABI has it search.
use allang.Base.{
  ℕ, zero, suc, ◌+◌, ◌-◌, ◌*◌, ◌/◌, ◌%◌, ◌^◌, bit_and, bit_xor, ◌<◌, ◌≤◌, ◌≡◌, ◌≢◌, ◌∙◌, refl,
  arith, false, ◌==◌, ==_iff, if◌then◌else◌, Option, none, some, inl, inr, Bool-cases, List, [],
  ◌∷◌, get_or, set, length, replicate, length-set, length-replicate, get_or-replicate,
  get_or-set_self, get_or-set_ne,
}
use native.Mathlib.Nat.{mod-lt}
use allang.Str.{Str, str_eq, str_eq_refl, str_eq_iff}
use allang.Exe.Hash.{
  elf_hash, elf_hash_from, elf_hash_round, HashTable, link_symbol, link_symbols, symbol_table,
}

-- The hash of the System V ABI: four bits on for each byte of the name, with the four bits that go
-- above 28 put back at the bits 4 to 7.
unfoldable pub abi_hash : ℕ → Str → ℕ
abi_hash h [] = h
abi_hash h (c ∷ name) =
    let moved = (h * 16 % 2 ^ 32 + c) % 2 ^ 32 in
    let high = bit_and moved 0xf0000000 in
    let folded = if high == 0 then moved else bit_xor moved (high / 2 ^ 24) in
    abi_hash (bit_and folded (0xffffffff - high)) name

abi_hash-elf_hash : (name : Str) (h : ℕ) → elf_hash_from h name ≡ abi_hash h name
unfolding abi_hash elf_hash_from
abi_hash-elf_hash [] h = refl
abi_hash-elf_hash (c ∷ name) h = abi_hash-elf_hash name (elf_hash_round h c)

-- The name of a symbol.
abbrev pub symbol_name : List Str → ℕ → Str
symbol_name names zero = []
symbol_name names (suc i) = get_or names i []

-- The search from a symbol on, by names; each symbol is looked at once.
unfoldable pub search_from : ℕ → List ℕ → List Str → Str → ℕ → Option ℕ
search_from zero chain names name y = none
search_from (suc fuel) chain names name y =
    let on = search_from fuel chain names name (get_or chain y 0) in
    if y == 0 then none else if str_eq (symbol_name names y) name then some y else on

unfoldable pub search : HashTable → List Str → Str → Option ℕ
unfolding search_from abi_hash
search t names name =
    search_from (length t.chain) t.chain names name
      (get_or t.bucket (abi_hash 0 name % length t.bucket) 0)

-- From one symbol the chain leads to another.
data Leads (chain : List ℕ) (target : ℕ) : ℕ → Type 0 where
  here : Leads chain target target
  next : {y : ℕ} → y ≢ 0 → Leads chain target (get_or chain y 0) → Leads chain target y

-- A chain goes down: every link below `k` leads to a smaller symbol.
abbrev Down : ℕ → List ℕ → Type 0
Down k chain = (y : ℕ) → 1 ≤ y → y < k → get_or chain y 0 < y

-- The table holds the symbols 1 to `k - 1`, of which `at i` is the bucket.
record Holds (nbucket k : ℕ) (at : ℕ → ℕ) (t : HashTable) : Type 0 where
  buckets : length t.bucket ≡ nbucket
  chains : length t.chain ≡ nbucket + 1
  low : (b : ℕ) → get_or t.bucket b 0 < k
  down : Down k t.chain
  reach : (i : ℕ) → 1 ≤ i → i < k → Leads t.chain i (get_or t.bucket (at i) 0)

-- A link that is written above the symbols of a chain leaves it.
Leads-set :
    (chain : List ℕ) (k v i y : ℕ)
    → Down k chain
    → y < k
    → Leads chain i y
    → Leads (set chain k v) i y
Leads-set chain k v i y down low here = here
Leads-set chain k v i y down low (next nonzero rest) =
    let same : get_or (set chain k v) y 0 ≡ get_or chain y 0 =
      get_or-set_ne chain k y v 0 (λ e. omega arith) in
    next nonzero (
      rw same (
        Leads-set chain k v i (get_or chain y 0) down (omega (arith, down y (omega arith) low))
          rest))

module _ (nbucket k : ℕ) (at : ℕ → ℕ) (t : HashTable) (is : Holds nbucket k at t)
    (in_range : at k < nbucket) (some_symbol : 1 ≤ k) (in_chain : k ≤ nbucket) where
  linked : HashTable
  linked = link_symbol t (at k) k

  new_bucket : get_or linked.bucket (at k) 0 ≡ k
  unfolding linked link_symbol
  new_bucket = get_or-set_self t.bucket (at k) k 0 (omega (arith, is.buckets))

  old_bucket : (b : ℕ) → at k ≢ b → get_or linked.bucket b 0 ≡ get_or t.bucket b 0
  unfolding linked link_symbol
  old_bucket b other = get_or-set_ne t.bucket (at k) b k 0 other

  new_link : get_or linked.chain k 0 ≡ get_or t.bucket (at k) 0
  unfolding linked link_symbol
  new_link = get_or-set_self t.chain k (get_or t.bucket (at k) 0) 0 (omega (arith, is.chains))

  old_link : (y : ℕ) → k ≢ y → get_or linked.chain y 0 ≡ get_or t.chain y 0
  unfolding linked link_symbol
  old_link y other = get_or-set_ne t.chain k y (get_or t.bucket (at k) 0) 0 other

  kept :
      (i b : ℕ) → Leads t.chain i (get_or t.bucket b 0) → Leads linked.chain i (get_or t.bucket b 0)
  unfolding linked link_symbol
  kept i b leads =
      Leads-set t.chain k (get_or t.bucket (at k) 0) i (get_or t.bucket b 0) is.down (is.low b)
        leads

  link_low : (b : ℕ) → get_or linked.bucket b 0 < suc k
  link_low b = elim (Bool-cases (at k == b)) [
    | inl e ↦ rw (← (==_iff (at k) b).0 e, new_bucket) (omega arith)
    | inr e ↦ rw (old_bucket b (ground (arith, e))) (omega (arith, is.low b))
  ]

  link-Down : Down (suc k) linked.chain
  link-Down y least most = elim (Bool-cases (k == y)) [
    | inl e ↦ rw (← (==_iff k y).0 e, new_link) (is.low (at k))
    | inr e ↦ rw (old_link y (ground (arith, e))) (is.down y least (ground (arith, e)))
  ]

  link_reach : (i : ℕ) → 1 ≤ i → i < suc k → Leads linked.chain i (get_or linked.bucket (at i) 0)
  link_reach i least most = elim (Bool-cases (k == i)) [
    | inl e ↦ rw (← (==_iff k i).0 e, new_bucket) here
    | inr e ↦
        let older = kept i (at i) (is.reach i least (ground (arith, e))) in
        elim (Bool-cases (at k == at i)) [
          | inl f ↦
              let same : at k ≡ at i = (==_iff (at k) (at i)).0 f in
              rw (← same, new_bucket) (next (omega arith) (rw (new_link, same) older))
          | inr f ↦ rw (old_bucket (at i) (ground (arith, f))) older
        ]
  ]

  link_symbol-Holds : Holds nbucket (suc k) at (link_symbol t (at k) k)
  unfolding linked link_symbol
  link_symbol-Holds = record {
    buckets = length-set t.bucket (at k) k ∙ is.buckets;
    chains = length-set t.chain k (get_or t.bucket (at k) 0) ∙ is.chains;
    low = link_low;
    down = link-Down;
    reach = link_reach;
  }

-- A search along a chain that leads to a symbol with the name finds a symbol with the name.
search_from-finds :
    (fuel : ℕ) (chain : List ℕ) (names : List Str) (i k y : ℕ)
    → Down k chain
    → i ≢ 0
    → y < k
    → y < fuel
    → Leads chain i y
    → let name = symbol_name names i in
      (z : ℕ) × (search_from fuel chain names name y ≡ some z) × (symbol_name names z ≡ name)
unfolding search_from
search_from-finds zero chain names i k y down nonzero low enough leads = absurd (omega arith)
search_from-finds (suc fuel) chain names i k y down nonzero low enough here =
    let busy : (y == 0) ≡ false = ground (arith, nonzero) in
    rw (busy, str_eq_refl (symbol_name names y)) (y, refl, refl)
search_from-finds (suc fuel) chain names i k y down nonzero low enough (next some_symbol rest) =
    let busy : (y == 0) ≡ false = ground (arith, some_symbol) in
    let name = symbol_name names i in
    let less = down y (omega arith) low in
    elim (Bool-cases (str_eq (symbol_name names y) name)) [
      | inl e ↦ rw (busy, e) (y, refl, (str_eq_iff (symbol_name names y) name).0 e)
      | inr e ↦
          rw (busy, e)
            (search_from-finds fuel chain names i k (get_or chain y 0) down nonzero
              (omega (arith, less)) (omega (arith, less)) rest)
    ]

module _ (all : List Str) where
  abbrev at_of : ℕ → ℕ
  at_of i = elf_hash (symbol_name all i) % length all

  link_symbols-Holds :
      (names : List Str) (m : ℕ) (t : HashTable)
      → ((j : ℕ) → get_or names j [] ≡ get_or all (m + j) [])
      → m + length names ≡ length all
      → Holds (length all) (suc m) at_of t
      → Holds (length all) (suc (length all)) at_of (link_symbols (length all) names (suc m) t)
  unfolding link_symbols
  link_symbols-Holds [] m t rest count is =
      let ended : m ≡ length all = omega (arith, count) in rw ended at is
  link_symbols-Holds (name ∷ names) m t rest count is =
      let here_on : m + 0 ≡ m = omega arith in
      let this : name ≡ get_or all m [] = rw here_on at (rest 0) in
      let next_one : suc m + 1 ≡ suc (suc m) = omega arith in
      let in_range : at_of (suc m) < length all =
        mod-lt (elf_hash (get_or all m [])) {m = length all} (omega (arith, count)) in
      let linked =
        link_symbol-Holds (length all) (suc m) at_of t is in_range (omega arith)
          (omega (arith, count)) in
      rw (next_one, this)
        (link_symbols-Holds names (suc m) (link_symbol t (at_of (suc m)) (suc m))
          (λ j. let on : m + suc j ≡ suc m + j = omega arith in rw on at (rest (suc j)))
          (omega (arith, count)) linked)

  symbol_table-Holds : Holds (length all) (suc (length all)) at_of (symbol_table all)
  unfolding symbol_table
  symbol_table-Holds =
      let start : Holds (length all) 1 at_of
          (record { bucket = replicate (length all) 0; chain = replicate (length all + 1) 0 }) =
        record {
          buckets = length-replicate (length all) 0;
          chains = length-replicate (length all + 1) 0;
          low = λ b. rw (get_or-replicate {A = ℕ} (length all) b 0) (omega arith);
          down = λ y least most. absurd (omega arith);
          reach = λ i least most. absurd (omega arith);
        } in
      link_symbols-Holds all 0 _
        (λ j. let none_before : 0 + j ≡ j = omega arith in rw none_before refl) (omega arith) start

  pub length-symbol_table :
      (length (symbol_table all).bucket ≡ length all)
      × (length (symbol_table all).chain ≡ length all + 1)
  length-symbol_table = let is = symbol_table-Holds in (is.buckets, is.chains)

  -- In the table of any imports the search of the dynamic linker by the name of an import finds a
  -- symbol that has the name.
  pub symbol_table-search :
      (i : ℕ)
      → i < length all
      → let name = get_or all i [] in
        (z : ℕ) × (search (symbol_table all) all name ≡ some z) × (symbol_name all z ≡ name)
  unfolding search
  symbol_table-search i low =
      let is = symbol_table-Holds in
      let name = get_or all i [] in
      let hash : elf_hash name ≡ abi_hash 0 name = unfold elf_hash in abi_hash-elf_hash name 0 in
      rw (is.buckets, ← hash)
        (search_from-finds (length (symbol_table all).chain) (symbol_table all).chain all (suc i)
          (suc (length all)) (get_or (symbol_table all).bucket (at_of (suc i)) 0) is.down
          (λ e. omega arith) (is.low (at_of (suc i)))
          (omega (arith, is.low (at_of (suc i)), is.chains))
          (is.reach (suc i) (omega arith) (omega arith)))
