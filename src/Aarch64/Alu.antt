-- ===== src/Aarch64/Alu.antt =====
-- The emit functions of moves and arithmetic in alc/bin-aarch64.c.
use allang.Base.{
  ℕ, ◌+◌, ◌-◌, ◌*◌, ◌^◌, Bool, false, ◌&&◌, none, some, leb, ltb, ◌==◌, if◌then◌else◌, ℤ, pos,
  ltb_ℤ, eqb_ℤ, neg_ℤ, to_bits, bit_and, bit_xor, u32, ◌>>>◌,
}
use allang.Aarch64.Asm.{Asm, put_word, put_words}
use allang.Aarch64.Mov.{emit_mov_words}
use allang.Aarch64.Words.{shl, ◌|||◌, reg_no, is64, op_orr_reg, cond_no}
use allang.Typesys.Dtype.{TypeT, Dtype, dtype_tryget_addr}
use allang.Typesys.Reg.{Reg, Cond, reg_eq, no_dtype, rd_none, scratch}

abbrev pub op_add_imm : ℕ
op_add_imm = 0x11000000

abbrev pub op_sub_imm : ℕ
op_sub_imm = 0x51000000

abbrev pub op_subs_imm : ℕ
op_subs_imm = 0x71000000

abbrev pub op_add_reg : ℕ
op_add_reg = 0x0b000000

abbrev pub op_sub_reg : ℕ
op_sub_reg = 0x4b000000

abbrev pub op_subs_reg : ℕ
op_subs_reg = 0x6b000000

unfoldable pub emit_mov : Asm → Reg → ℤ → Asm
emit_mov a dst value = put_words a (emit_mov_words dst value)

unfoldable pub emit_and_lowbits : Asm → Reg → Reg → ℕ → Asm
emit_and_lowbits a dst src nbits =
    let base = if is64 dst == 0 then 0x12000000 else 0x92400000 in
    put_word a (base ||| shl (u32 (nbits + (2 ^ 32 - 1))) 10 ||| shl (reg_no src) 5 ||| reg_no dst)

-- A value of a type of at most four bytes goes into a register of more by its sign.
unfoldable pub widen_word : TypeT → Reg → Reg → ℕ
widen_word st dst src =
    0x93400000 ||| shl (u32 (st.size * 8 + (2 ^ 32 - 1))) 10 ||| shl (reg_no src) 5 ||| reg_no dst

unfoldable pub mov_widening : Asm → Reg → Reg → TypeT → Asm
unfolding emit_and_lowbits widen_word
mov_widening a dst src st =
    if st.sign
    then put_word a (widen_word st dst src)
    else if ltb st.size 4
    then emit_and_lowbits a dst src (u32 (st.size * 8))
    else put_word a (op_orr_reg ||| shl (reg_no src) 16 ||| 0x3e0 ||| reg_no dst)

abbrev pub dst_size : Reg → ℕ
dst_size dst = if eqb_ℤ (dtype_tryget_addr dst.dtype) (pos 0) then dst.rsize else 8

unfoldable pub mov_plain : Asm → Reg → Reg → Asm
mov_plain a dst src =
    let sf = if ltb 4 (dst_size dst) then 1 else 0 in
    put_word a (shl sf 31 ||| (op_orr_reg ||| 0x3e0) ||| shl (reg_no src) 16 ||| reg_no dst)

unfoldable pub emit_mov_reg : Asm → Reg → Reg → Asm
unfolding mov_widening mov_plain
emit_mov_reg a dst src = if reg_eq dst src then a else elim src.dtype.base [
  | none ↦ mov_plain a dst src
  | some st ↦
      if ltb 4 (dst_size dst) && leb src.rsize 4
      then mov_widening a dst src st
      else mov_plain a dst src
]

unfoldable pub emit_orr_reg : Asm → Reg → Reg → Reg → Asm
emit_orr_reg a dst lhs rhs =
    put_word a (
      shl (is64 dst) 31
      ||| op_orr_reg
      ||| shl (reg_no rhs) 16
      ||| shl (reg_no lhs) 5
      ||| reg_no dst)

unfoldable pub emit_zero_out : Asm → Reg → Asm
unfolding emit_mov
emit_zero_out a dst = emit_mov a dst (pos 0)

-- `sh` and the immediate above twelve bits: the twelve bits above are kept.
unfoldable pub addsub_imm_word : ℕ → Reg → Reg → ℤ → ℕ
addsub_imm_word base dst lhs rhs =
    let imm = to_bits 64 (if ltb_ℤ rhs (pos 0) then neg_ℤ rhs else rhs) in
    let signed = if ltb_ℤ rhs (pos 0) then bit_xor base 0x40000000 else base in
    let sh = if ltb 0xfff imm then 1 else 0 in
    let kept = if ltb 0xfff imm then imm >>> 12 else imm in
    shl (is64 dst) 31
    ||| signed
    ||| shl sh 22
    ||| shl (bit_and kept 0xfff) 10
    ||| shl (reg_no lhs) 5
    ||| reg_no dst

unfoldable pub addsub_imm : Asm → ℕ → Reg → Reg → ℤ → Asm
unfolding addsub_imm_word
addsub_imm a base dst lhs rhs = put_word a (addsub_imm_word base dst lhs rhs)

unfoldable pub emit_add : Asm → Reg → Reg → ℤ → Asm
unfolding emit_mov_reg addsub_imm
emit_add a dst lhs rhs =
    if eqb_ℤ rhs (pos 0) then emit_mov_reg a dst lhs else addsub_imm a op_add_imm dst lhs rhs

unfoldable pub emit_sub : Asm → Reg → Reg → ℤ → Asm
unfolding emit_mov_reg addsub_imm
emit_sub a dst lhs rhs =
    if eqb_ℤ rhs (pos 0) then emit_mov_reg a dst lhs else addsub_imm a op_sub_imm dst lhs rhs

-- `(reg_t){ .reg_type = RD_NONE, .rsize = size }`
abbrev pub zero_reg : ℕ → Reg
zero_reg size = record {
  offset = pos 0;
  rsize = size;
  reg_type = rd_none;
  displacement = pos 0;
  dtype = no_dtype;
}

unfoldable pub emit_cmp : Asm → Reg → ℤ → Asm
unfolding addsub_imm
emit_cmp a lhs rhs = addsub_imm a op_subs_imm (zero_reg lhs.rsize) lhs rhs

unfoldable pub addsub_reg : Asm → ℕ → Reg → Reg → Reg → Asm
addsub_reg a base dst lhs rhs =
    put_word a
      (shl (is64 dst) 31 ||| base ||| shl (reg_no rhs) 16 ||| shl (reg_no lhs) 5 ||| reg_no dst)

abbrev pub narrow_size : Reg → ℕ
narrow_size narrow = elim narrow.dtype.base [ none ↦ narrow.rsize | some t ↦ t.size ]

abbrev pub narrow_sign : Reg → Bool
narrow_sign narrow = elim narrow.dtype.base [ none ↦ false | some t ↦ t.sign ]

unfoldable pub ext_option : Reg → ℕ
ext_option narrow =
    let size = narrow_size narrow in
    let log2 = if leb 8 size then 3 else if leb 4 size then 2 else if leb 2 size then 1 else 0 in
    (if narrow_sign narrow then 4 else 0) ||| log2

unfoldable pub addsub_ext : Asm → ℕ → Reg → Reg → Reg → ℕ → Asm
unfolding ext_option
addsub_ext a plain_base dst wide narrow imm3 = put_word a (
    (plain_base ||| 0x00200000 ||| shl (is64 wide) 31)
    ||| shl (reg_no narrow) 16
    ||| shl (ext_option narrow) 13
    ||| shl imm3 10
    ||| shl (reg_no wide) 5
    ||| reg_no dst)

unfoldable pub emit_add_reg : Asm → Reg → Reg → Reg → Asm
unfolding addsub_reg addsub_ext
emit_add_reg a dst lhs rhs =
    if lhs.rsize == rhs.rsize
    then addsub_reg a op_add_reg dst lhs rhs
    else if ltb rhs.rsize lhs.rsize
    then addsub_ext a op_add_reg dst lhs rhs 0
    else addsub_ext a op_add_reg dst rhs lhs 0

-- `(reg_t){ .reg_type = SCRATCH, .offset = 8, .rsize = size, .dtype = dtype }`
abbrev pub tmp_reg : ℕ → Dtype → Reg
tmp_reg size dtype = record {
  offset = pos 8;
  rsize = size;
  reg_type = scratch;
  displacement = pos 0;
  dtype = dtype;
}

unfoldable pub emit_sub_reg : Asm → Reg → Reg → Reg → Asm
unfolding addsub_reg addsub_ext emit_mov_reg
emit_sub_reg a dst lhs rhs =
    let tmp = tmp_reg dst.rsize lhs.dtype in
    if lhs.rsize == rhs.rsize
    then addsub_reg a op_sub_reg dst lhs rhs
    else if ltb rhs.rsize lhs.rsize
    then addsub_ext a op_sub_reg dst lhs rhs 0
    else addsub_reg (emit_mov_reg a tmp lhs) op_sub_reg dst tmp rhs

unfoldable pub emit_cmp_reg : Asm → Reg → Reg → Asm
unfolding addsub_reg addsub_ext emit_mov_reg
emit_cmp_reg a lhs rhs =
    let tmp = tmp_reg rhs.rsize lhs.dtype in
    if lhs.rsize == rhs.rsize
    then addsub_reg a op_subs_reg (zero_reg lhs.rsize) lhs rhs
    else if ltb rhs.rsize lhs.rsize
    then addsub_ext a op_subs_reg (zero_reg lhs.rsize) lhs rhs 0
    else addsub_reg (emit_mov_reg a tmp lhs) op_subs_reg (zero_reg rhs.rsize) tmp rhs

abbrev pub width_of : Reg → ℕ
width_of r = if is64 r == 0 then 32 else 64

-- The word of a bitfield move: base | immr << 16 | imms << 10 | src << 5 | dst.
abbrev pub bitfield_word : ℕ → ℕ → ℕ → Reg → Reg → ℕ
bitfield_word base immr imms src dst =
    base ||| shl immr 16 ||| shl imms 10 ||| shl (reg_no src) 5 ||| reg_no dst

abbrev pub op_ubfm : Reg → ℕ
op_ubfm r = if is64 r == 0 then 0x53000000 else 0xd3400000

unfoldable pub lsl_word : Reg → Reg → ℤ → ℕ
lsl_word dst lhs rhs =
    let width = width_of dst in
    let shift = bit_and (to_bits 32 rhs) (width - 1) in
    bitfield_word (op_ubfm dst) (bit_and (width - shift) (width - 1)) (width - 1 - shift) lhs dst

unfoldable pub emit_lsl : Asm → Reg → Reg → ℤ → Asm
unfolding lsl_word
emit_lsl a dst lhs rhs = put_word a (lsl_word dst lhs rhs)

unfoldable pub emit_lsr_imm : Asm → Reg → Reg → ℤ → Asm
emit_lsr_imm a dst src rhs =
    let width = width_of dst in
    put_word a
      (bitfield_word (op_ubfm dst) (bit_and (to_bits 32 rhs) (width - 1)) (width - 1) src dst)

unfoldable pub emit_bitfield : Asm → ℕ → ℕ → Reg → Reg → ℕ → ℕ → Asm
emit_bitfield a base32 base64 dst src lsb width =
    let rbits = width_of dst in
    let base = if is64 dst == 0 then base32 else base64 in
    let immr = bit_and (u32 (rbits + (2 ^ 32 - u32 lsb))) (rbits - 1) in
    put_word a (bitfield_word base immr (u32 (width + (2 ^ 32 - 1))) src dst)

unfoldable pub emit_cond_set : Asm → Reg → Cond → Asm
emit_cond_set a dst cond =
    put_word a (0x1a9f07e0 ||| shl (bit_xor (cond_no cond) 1) 12 ||| reg_no dst)
