-- ===== src/Aarch64/Mov.antt =====
-- `emit_mov`: a constant in as many moves as it needs.
mod Fields
pub mod Laws
use allang.Base.{
  ℕ, zero, suc, ◌+◌, ◌-◌, ◌*◌, ◌/◌, ◌%◌, ◌^◌, ◌≤◌, Bool, true, false, not, ◌&&◌, ◌||◌, List, [],
  ◌∷◌, ltb, ◌==◌, if◌then◌else◌, ℤ, pos, negsuc, ltb_ℤ, to_bits, bit_and, bit_xor, ◌>>>◌,
}
use allang.Aarch64.Words.{mov_word, op_movn, op_movz, op_movk, reg_no, is64}
use allang.Typesys.Reg.{Reg}

-- `(uint32_t)((uv >> (lane * 16)) & 0xffff)`
abbrev pub chunk_at : ℕ → ℕ → ℕ
chunk_at uv lane = bit_and (uv >>> (lane * 16)) 0xffff

-- The first loop: in how many lanes does the chunk differ from `blank`?
pub count_other : ℕ → ℕ → ℕ → ℕ → ℕ
count_other uv blank zero lane = 0
count_other uv blank (suc left) lane =
    (if chunk_at uv lane == blank then 0 else 1) + count_other uv blank left (lane + 1)

module _ (sf rd uv : ℕ) where
  -- `(~chunk) & 0xffff`
  abbrev pub inverted : ℕ → ℕ
  inverted chunk = bit_and (2 ^ 32 - 1 - chunk) 0xffff

  -- The loop of the MOVN branch, with the lanes that are left.
  pub movn_from : ℕ → ℕ → Bool → List ℕ
  movn_from zero lane initialized = []
  movn_from (suc left) lane initialized =
      let chunk = chunk_at uv lane in
      let rest = movn_from left (lane + 1) (initialized || not (chunk == 0xffff)) in
      if chunk == 0xffff
      then rest
      else ((if initialized
            then mov_word sf op_movk lane chunk rd
            else mov_word sf op_movn lane (inverted chunk) rd)
          ∷ rest)

  -- The loop of the MOVZ branch.
  pub movz_from : ℕ → ℕ → Bool → List ℕ
  movz_from zero lane initialized = []
  movz_from (suc left) lane initialized =
      let chunk = chunk_at uv lane in
      let rest = movz_from left (lane + 1) true in
      if (chunk == 0) && initialized
      then rest
      else mov_word sf (if initialized then op_movk else op_movz) lane chunk rd ∷ rest

-- What is put where the loop put nothing.
abbrev or_single : ℕ → List ℕ → List ℕ
or_single w [] = w ∷ []
or_single w (x ∷ xs) = x ∷ xs

unfoldable pub mov_words : ℕ → ℕ → ℕ → List ℕ
unfolding count_other movn_from movz_from
mov_words sf rd uv =
    let lanes = if sf == 0 then 2 else 4 in
    if ltb (count_other uv 0xffff lanes 0) (count_other uv 0 lanes 0)
    then or_single (mov_word sf op_movn 0 0 rd) (movn_from sf rd uv lanes 0 false)
    else or_single (mov_word sf op_movz 0 0 rd) (movz_from sf rd uv lanes 0 false)

-- `value > UINT32_MAX || value < 0` asks for the 64-bit form.
abbrev pub mov_sf : Reg → ℤ → ℕ
mov_sf dst value = if ltb_ℤ (pos (2 ^ 32 - 1)) value || ltb_ℤ value (pos 0) then 1 else is64 dst

-- The words that `emit_mov` puts, in order.
unfoldable pub emit_mov_words : Reg → ℤ → List ℕ
unfolding mov_words
emit_mov_words dst value = mov_words (mov_sf dst value) (reg_no dst) (to_bits 64 value)
