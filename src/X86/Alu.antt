-- ===== src/X86/Alu.antt =====
-- Moves and arithmetic of alc/bin-x86_64.c, as the bytes that they put.
pub mod Effects
pub mod Laws
use allang.Base.{
  ℕ, ◌/◌, ◌%◌, ◌^◌, ◌+◌, Bool, true, false, not, ◌&&◌, List, [], ◌∷◌, ◌++◌, leb, ltb, ◌==◌,
  if◌then◌else◌, bit_and, ◌|||◌, ℤ, pos, negsuc, pos_part, leb_ℤ, ltb_ℤ, eqb_ℤ, neg_ℤ, to_bits, i32,
}
use allang.Typesys.Dtype.{base_sign}
use allang.Typesys.Reg.{Reg, Cond, eq, ne, scratch, plain_reg}
use allang.X86.Encode.{
  RegTables, reg_no, rsz, put32, put64, rex_base, rex_bit, prefix_16, put_rex, is_low_byte,
  modrm_rr, encode_rr, encode_mem, alu_rr, alu_ri, shift_ri, emit_neg,
}

-- `REX_BASE | REX_B` for the upper registers, and with `REX_W`.
abbrev pub rex_b : ℕ → List ℕ
rex_b r = if leb 8 r then (rex_base ||| 1) ∷ [] else []

abbrev pub rex_w : ℕ → ℕ
rex_w r = rex_base ||| 8 ||| rex_bit (leb 8 r) 1

-- A move into a register of at most four bytes.
unfoldable pub mov_short : ℕ → ℕ → ℤ → List ℕ
mov_short sz r value =
    prefix_16 sz
    ++ (rex_b r
        ++ (if sz == 1
            then (if is_low_byte r then rex_base ∷ [] else [])
              ++ (0xb0 + bit_and r 7) ∷ to_bits 8 value ∷ []
            else (0xb8 + bit_and r 7)
              ∷ (if sz == 2
                  then to_bits 8 value ∷ to_bits 64 value / 2 ^ 8 % 2 ^ 8 ∷ []
                  else put32 (to_bits 32 value))))

abbrev pub int32_min : ℤ
int32_min = negsuc 0x7fffffff

abbrev pub int32_max : ℤ
int32_max = pos 0x7fffffff

abbrev pub fits_i32 : ℤ → Bool
fits_i32 value = leb_ℤ int32_min value && leb_ℤ value int32_max

-- A move into a longer one: of 32 bits with their sign, of 32 bits, or of 64.
unfoldable pub mov_long : ℕ → ℤ → List ℕ
mov_long r value =
    if fits_i32 value
    then rex_w r ∷ 0xc7 ∷ (0xc0 ||| bit_and r 7) ∷ put32 (to_bits 32 value)
    else if ltb_ℤ (pos 0) value && leb_ℤ value (pos 0xffffffff)
    then rex_b r ++ (0xb8 + bit_and r 7) ∷ put32 (to_bits 32 value)
    else rex_w r ∷ (0xb8 + bit_and r 7) ∷ put64 (to_bits 64 value)

-- `emit_mov` for a register of a size and a number.
unfoldable pub mov_imm : ℕ → ℕ → ℤ → List ℕ
unfolding encode_rr mov_short mov_long
mov_imm sz r value =
    if eqb_ℤ value (pos 0)
    then encode_rr 0x31 (if ltb 4 sz then 4 else sz) r r
    else if leb sz 4
    then mov_short sz r value
    else mov_long r value

module _ (t : RegTables) where
  unfoldable pub emit_mov : Reg → ℤ → List ℕ
  unfolding mov_imm
  emit_mov dst value = mov_imm (rsz dst) (reg_no t dst) value

  unfoldable pub emit_zero_out : Reg → List ℕ
  unfolding emit_mov
  emit_zero_out dst = emit_mov dst (pos 0)

  -- MOVSX or MOVZX, of a byte or of two.
  unfoldable pub mov_extend : ℕ → ℕ → Reg → Reg → List ℕ
  mov_extend of_8 of_16 dst src =
      let d = reg_no t dst in
      let s = reg_no t src in
      prefix_16 dst.rsize
      ++ (put_rex (rex_bit (dst.rsize == 8) 8 ||| rex_bit (leb 8 d) 4 ||| rex_bit (leb 8 s) 1)
            ((src.rsize == 1) && is_low_byte s)
          ++ 0x0f ∷ (if src.rsize == 1 then of_8 else of_16) ∷ modrm_rr d s ∷ [])

  unfoldable pub mov_sign_32 : Reg → Reg → List ℕ
  mov_sign_32 dst src =
      let d = reg_no t dst in
      let s = reg_no t src in
      (rex_base ||| (8 ||| rex_bit (leb 8 d) 4 ||| rex_bit (leb 8 s) 1)) ∷ 0x63 ∷ modrm_rr d s ∷ []

  unfoldable pub emit_mov_reg : Reg → Reg → List ℕ
  unfolding encode_rr mov_extend mov_sign_32
  emit_mov_reg dst src =
      let widest = if ltb dst.rsize src.rsize then record dst { rsize = src.rsize } else dst in
      let half = (dst.rsize == 8) && (src.rsize == 4) in
      if not (dst.rsize == 0) && not (src.rsize == 0) && ltb src.rsize dst.rsize
      then (if base_sign src.dtype.base
          then (if half then mov_sign_32 dst src else mov_extend 0xbe 0xbf dst src)
          else if half
          then encode_rr 0x89 4 (reg_no t src) (reg_no t dst)
          else mov_extend 0xb6 0xb7 dst src)
      else encode_rr 0x89 (rsz widest) (reg_no t src) (reg_no t dst)

  unfoldable pub emit_add : Reg → Reg → ℤ → List ℕ
  unfolding encode_mem
  emit_add dst lhs rhs = encode_mem 0x8d (rsz dst) (reg_no t dst) (reg_no t lhs) false 0 1 (i32 rhs)

  unfoldable pub emit_add_reg : Reg → Reg → Reg → List ℕ
  unfolding encode_mem emit_mov_reg alu_rr
  emit_add_reg dst lhs rhs =
      let wider = ltb rhs.rsize lhs.rsize in
      let wide = if wider then lhs else rhs in
      let narrow = if wider then rhs else lhs in
      if lhs.rsize == rhs.rsize
      then encode_mem 0x8d (rsz dst) (reg_no t dst) (reg_no t lhs) true (reg_no t rhs) 1 (pos 0)
      else emit_mov_reg dst narrow ++ alu_rr t 0x01 dst (record wide { rsize = dst.rsize })

  unfoldable pub emit_sub : Reg → Reg → ℤ → List ℕ
  unfolding encode_mem
  emit_sub dst lhs rhs =
      encode_mem 0x8d (rsz dst) (reg_no t dst) (reg_no t lhs) false 0 1 (i32 (neg_ℤ rhs))

  unfoldable pub emit_sub_reg : Reg → Reg → Reg → List ℕ
  unfolding encode_rr emit_mov_reg alu_rr emit_neg
  emit_sub_reg dst lhs rhs =
      if lhs.rsize == rhs.rsize
      then encode_rr 0x89 (rsz dst) (reg_no t lhs) (reg_no t dst) ++ alu_rr t 0x29 dst rhs
      else if ltb rhs.rsize lhs.rsize
      then emit_mov_reg dst rhs
        ++ (alu_rr t 0x29 dst (record lhs { rsize = dst.rsize }) ++ emit_neg t dst)
      else emit_mov_reg dst lhs ++ alu_rr t 0x29 dst (record rhs { rsize = dst.rsize })

  unfoldable pub emit_cmp : Reg → ℤ → List ℕ
  unfolding alu_ri
  emit_cmp lhs rhs = alu_ri t 7 lhs rhs

  -- `cond == COND_EQ || cond == COND_NE`
  abbrev pub is_equality : Cond → Bool
  is_equality eq = true
  is_equality ne = true
  is_equality _ = false

  unfoldable pub emit_cmp_reg : Reg → Reg → Cond → List ℕ
  unfolding emit_mov_reg alu_rr
  emit_cmp_reg lhs rhs cond =
      let size = if ltb rhs.rsize lhs.rsize then lhs.rsize else rhs.rsize in
      let tmp = plain_reg scratch 0 size in
      let wlhs = record lhs { rsize = size } in
      let wrhs = record rhs { rsize = size } in
      if lhs.rsize == rhs.rsize
      then alu_rr t 0x39 lhs rhs
      else if ltb rhs.rsize lhs.rsize
      then emit_mov_reg tmp rhs ++ alu_rr t 0x39 wlhs tmp
      else if is_equality cond
      then alu_rr t 0x39 wlhs wrhs
      else emit_mov_reg tmp lhs ++ alu_rr t 0x39 tmp wrhs

  unfoldable pub emit_lsl : Reg → Reg → ℤ → List ℕ
  unfolding encode_rr shift_ri emit_mov_reg emit_add_reg encode_mem
  emit_lsl dst lhs rhs =
      if leb_ℤ (pos 4) rhs
      then encode_rr 0x89 (rsz dst) (reg_no t lhs) (reg_no t dst) ++ shift_ri t 4 dst rhs
      else if eqb_ℤ rhs (pos 0)
      then emit_mov_reg dst lhs
      else if eqb_ℤ rhs (pos 1)
      then emit_add_reg dst lhs lhs
      else encode_mem 0x8d (rsz dst) (reg_no t dst) (reg_no t lhs) true (reg_no t lhs)
          (2 ^ pos_part rhs) (pos 0)
