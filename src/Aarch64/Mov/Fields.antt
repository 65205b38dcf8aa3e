-- ===== src/Aarch64/Mov/Fields.antt =====
-- The fields of a move's word, and what the machine makes of it.
use allang.Base.{
  ℕ, ◌+◌, ◌-◌, ◌*◌, ◌^◌, ◌<◌, ◌≡◌, ◌≢◌, ◌&&◌, refl, true, arith, ltb, ◌==◌, if◌then◌else◌,
}
use allang.Base.Bits.{bit_or_disjoint}
use allang.Aarch64.Machine.{Regs, field, wide_lane, move_wide, is_move_wide}
use allang.Aarch64.Words.{mov_word, shl}

module _ (sf opc lane imm rd : ℕ) (hsf : sf < 2) (hopc : opc < 4) (hlane : lane < 4)
    (himm : imm < 2 ^ 16) (hrd : rd < 32) where
  abbrev pub op : ℕ
  op = opc * 2 ^ 29 + 0x12800000

  pub mov_word_sum :
      mov_word sf op lane imm rd ≡ sf * 2 ^ 31 + op + lane * 2 ^ 21 + imm * 2 ^ 5 + rd
  unfolding mov_word
  mov_word_sum =
      let s : shl sf 31 ≡ sf * 2 ^ 31 = omega arith in
      let l : shl lane 21 ≡ lane * 2 ^ 21 = omega arith in
      let i : shl imm 5 ≡ imm * 2 ^ 5 = omega arith in
      rw
        (
          s,
          l,
          i,
          bit_or_disjoint 31 (sf * 2 ^ 31) op (omega arith) (omega arith),
          bit_or_disjoint 23 (sf * 2 ^ 31 + op) (lane * 2 ^ 21) (omega arith) (omega arith),
          bit_or_disjoint 21 (sf * 2 ^ 31 + op + lane * 2 ^ 21) (imm * 2 ^ 5) (omega arith)
              (omega arith),
          bit_or_disjoint 5 (sf * 2 ^ 31 + op + lane * 2 ^ 21 + imm * 2 ^ 5) rd (omega arith)
              (omega arith),
        )
        refl

  pub mov_word_fields :
      let w = mov_word sf op lane imm rd in
      (field w 31 1 ≡ sf)
      × (field w 29 2 ≡ opc)
      × (field w 23 6 ≡ 37)
      × (field w 21 2 ≡ lane)
      × (field w 5 16 ≡ imm)
      × (field w 0 5 ≡ rd)
  mov_word_fields = rw mov_word_sum (omega arith)

  pub move_wide-mov_word :
      (regs : Regs) (r j : ℕ)
      → move_wide (mov_word sf op lane imm rd) regs r j ≡ (
          if r == rd
          then (if sf == 0 && ltb 1 j
              then 0
              else if j == lane
              then (if opc == 0 then 0xffff - imm else imm)
              else wide_lane opc (regs r j))
          else regs r j)
  unfolding move_wide
  move_wide-mov_word regs r j = let (a, b, c, d, e, f) = mov_word_fields in rw (a, b, d, e, f) refl

  pub mov_word-is_move_wide :
      opc ≢ 1 → (sf ≡ 0 → lane < 2) → is_move_wide (mov_word sf op lane imm rd) ≡ true
  unfolding is_move_wide
  mov_word-is_move_wide real low =
      let (a, b, c, d, e, f) = mov_word_fields in rw (a, b, c, d) (ground (arith, low))
