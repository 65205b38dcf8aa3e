-- ===== src/Table/Fnv.antt =====
-- `hash_fnv_1a` of alc/hashmap.h and its copy `hash` in alc/mini_hashset.h.
use allang.Base.{ℕ, ◌*◌, bit_xor, [], ◌∷◌, u64}
use allang.Str.{Str}

abbrev pub fnv_offset : ℕ
fnv_offset = 0xcbf29ce484222325

abbrev pub fnv_prime : ℕ
fnv_prime = 0x100000001b3

-- `widen` is the conversion `(u64)c` of a `char`, whose sign the platform chooses.
module _ (widen : ℕ → ℕ) where
  fnv_loop : ℕ → Str → ℕ
  fnv_loop hash [] = hash
  fnv_loop hash (c ∷ cs) = fnv_loop (u64 (bit_xor hash (widen c) * fnv_prime)) cs

  unfoldable pub hash_fnv_1a : Str → ℕ
  unfolding fnv_loop
  hash_fnv_1a id = fnv_loop fnv_offset id

  -- The copy in the other header.
  unfoldable pub hash : Str → ℕ
  unfolding fnv_loop
  hash id = fnv_loop fnv_offset id
