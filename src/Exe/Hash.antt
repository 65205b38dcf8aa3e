-- ===== src/Exe/Hash.antt =====
-- The hash table of dynamic symbols in alc/emit_helper-elf-exe.h. Symbol 0 stands for none.
pub mod Laws
use allang.Base.{
  ℕ, zero, suc, ◌+◌, ◌-◌, ◌%◌, ◌^◌, Option, none, some, List, [], ◌∷◌, ◌==◌, if◌then◌else◌, get_or,
  set, length, replicate, u32, bit_and, bit_xor, ◌>>>◌, ◌<<<◌,
}
use allang.Str.{Str}

-- One round of `elf_hash`; the bytes are those of the name.
abbrev pub elf_hash_round : ℕ → ℕ → ℕ
elf_hash_round h c =
    let sum = u32 (u32 (h <<< 4) + c) in
    let g = bit_and sum 0xf0000000 in
    bit_and (if g == 0 then sum else bit_xor sum (g >>> 24)) (2 ^ 32 - 1 - g)

unfoldable pub elf_hash_from : ℕ → Str → ℕ
elf_hash_from h [] = h
elf_hash_from h (c ∷ name) = elf_hash_from (elf_hash_round h c) name

unfoldable pub elf_hash : Str → ℕ
unfolding elf_hash_from
elf_hash name = elf_hash_from 0 name

-- `hash` behind its two counts: the buckets, and the chain of each symbol.
pub record HashTable : Type 0 where
  pub bucket : List ℕ
  pub chain : List ℕ

-- The symbol `i` goes in front of those of its bucket.
unfoldable pub link_symbol : HashTable → ℕ → ℕ → HashTable
link_symbol t h i = record {
  bucket = set t.bucket h i;
  chain = set t.chain i (get_or t.bucket h 0);
}

-- Names from the symbol `i` on.
unfoldable pub link_symbols : ℕ → List Str → ℕ → HashTable → HashTable
unfolding link_symbol elf_hash
link_symbols nbucket [] i t = t
link_symbols nbucket (name ∷ names) i t =
    link_symbols nbucket names (i + 1) (link_symbol t (elf_hash name % nbucket) i)

-- The table of the imports, which are the symbols from 1 on, over memory that is zero.
unfoldable pub symbol_table : List Str → HashTable
unfolding link_symbols
symbol_table names =
    let nbucket = length names in
    link_symbols nbucket names 1
      (record { bucket = replicate nbucket 0; chain = replicate (nbucket + 1) 0 })
