-- ===== src/Aarch64/Memory.antt =====
-- The loads and stores of alc/bin-aarch64.c, and the functions that store several values. Offsets
-- are those that an `int` holds, so that its casts change nothing.
pub mod Laws
use allang.Base.{
  ℕ, zero, suc, ◌+◌, ◌-◌, ◌*◌, ◌/◌, ◌%◌, ◌^◌, Bool, true, false, not, ◌&&◌, Option, none, some, leb,
  ltb, ◌==◌, if◌then◌else◌, ℤ, pos, negsuc, ◌+ℤ◌, leb_ℤ, eqb_ℤ, neg_ℤ, to_bits, bit_and, u8,
}
use allang.Aarch64.Alu.{emit_mov, emit_lsr_imm, zero_reg}
use allang.Aarch64.Asm.{Asm, put_word, report}
use allang.Aarch64.Words.{shl, ◌|||◌, reg_no}
use allang.Typesys.Dtype.{base_sign, Dtype, dtype_size, dtype_tryget_addr}
use allang.Typesys.Reg.{Reg, rd_none, scratch, frame, no_dtype, plain_reg}

-- `XZR`, `WZR` and `FP`.
abbrev pub xzr : Reg
xzr = zero_reg 8

abbrev pub wzr : Reg
wzr = zero_reg 4

abbrev pub fp : Reg
fp = plain_reg frame 0 8

abbrev pub access_size : Reg → ℕ
access_size r = if eqb_ℤ (dtype_tryget_addr r.dtype) (pos 0) then r.rsize else 8

-- The report for a size of zero is made by the callers here, with `check_size`.
unfoldable pub ldst_size_bits : Reg → ℕ
ldst_size_bits r =
    let sz = access_size r in
    if leb 8 sz then 3 else if leb 4 sz then 2 else if leb 2 sz then 1 else 0

unfoldable pub check_size : Asm → Reg → Asm
check_size a r = if access_size r == 0 then report a else a

unfoldable pub ldst_load_opc : Bool → Reg → ℕ → ℕ
ldst_load_opc is_load value sz =
    if not is_load
    then 0
    else if base_sign value.dtype.base && ltb sz 3
    then 0x00800000
    else 0x00400000

-- The form with a scaled immediate, if the offset fits it, or else nine bits of the offset.
unfoldable pub mem_word : Bool → Reg → Reg → ℤ → ℕ
unfolding ldst_size_bits ldst_load_opc
mem_word is_load value base offset =
    let sz = ldst_size_bits value in
    let access = 2 ^ sz in
    let bits = to_bits 64 offset in
    let opc = ldst_load_opc is_load value sz in
    if leb_ℤ (pos 0) offset && (bits % access == 0) && leb (bits / access) 0xfff
    then shl sz 30
      ||| 0x39000000
      ||| opc
      ||| shl (bits / access) 10
      ||| shl (reg_no base) 5
      ||| reg_no value
    else shl sz 30
      ||| 0x38000000
      ||| opc
      ||| shl (bit_and bits 0x1ff) 12
      ||| shl (reg_no base) 5
      ||| reg_no value

unfoldable pub mem_op : Asm → Bool → Reg → Reg → ℤ → Asm
unfolding mem_word check_size
mem_op a is_load value base offset =
    put_word (check_size a value) (mem_word is_load value base offset)

unfoldable pub ldst_regoff : Asm → Bool → Reg → Reg → Reg → Bool → Asm
unfolding ldst_size_bits ldst_load_opc check_size
ldst_regoff a is_load value base off scaled =
    let sz = ldst_size_bits value in
    put_word (check_size a value) (
      shl sz 30
      ||| 0x38206800
      ||| ldst_load_opc is_load value sz
      ||| shl (reg_no off) 16
      ||| (if scaled then 0x00001000 else 0)
      ||| shl (reg_no base) 5
      ||| reg_no value)

unfoldable pub emit_str_reg : Asm → Reg → Reg → ℤ → Asm
unfolding mem_op
emit_str_reg a dst src offset = mem_op a false src dst offset

unfoldable pub emit_ldr : Asm → Reg → Reg → ℤ → Asm
unfolding mem_op
emit_ldr a dst src offset = mem_op a true dst src offset

-- A scratch register for a value of the base type of `dst`; `reg_size` has eight bits.
abbrev pub value_reg : ℕ → Reg → Reg
value_reg offset dst = record {
  offset = pos offset;
  rsize = elim dst.dtype.base [ none ↦ 8 | some t ↦ u8 t.size ];
  reg_type = scratch;
  displacement = pos 0;
  dtype = record no_dtype { base = dst.dtype.base };
}

unfoldable pub emit_str_imm : Asm → Reg → ℤ → ℤ → Asm
unfolding emit_str_reg
emit_str_imm a dst value offset =
    let tmp = value_reg 0 dst in
    if eqb_ℤ value (pos 0)
    then emit_str_reg a dst xzr offset
    else emit_str_reg (emit_mov a tmp value) dst tmp offset

unfoldable pub emit_str_regoff : Asm → Reg → Reg → Reg → Asm
unfolding ldst_regoff
emit_str_regoff a dst src offset = ldst_regoff a false src dst offset false

unfoldable pub emit_ldr_reg : Asm → Reg → Reg → Reg → Asm
unfolding ldst_regoff
emit_ldr_reg a dst src offset = ldst_regoff a true dst src offset false

unfoldable pub emit_str_imm_regoff : Asm → Reg → ℤ → Reg → Asm
unfolding emit_str_regoff
emit_str_imm_regoff a dst value offset =
    let tmp = value_reg 8 dst in emit_str_regoff (emit_mov a tmp value) dst tmp offset

-- `(uint32_t)(imm_bytes / 8)`, with C's division towards 0.
abbrev pub eighths : ℤ → ℕ
eighths (pos n) = to_bits 32 (pos (n / 8))
eighths (negsuc n) = to_bits 32 (neg_ℤ (pos ((n + 1) / 8)))

unfoldable pub stp_word : ℕ → ℕ → ℕ → ℕ → ℤ → ℕ
stp_word base rt rt2 rn imm_bytes =
    base ||| shl (bit_and (eighths imm_bytes) 0x7f) 15 ||| shl rt2 10 ||| shl rn 5 ||| rt

unfoldable pub emit_stp : Asm → Reg → Reg → Reg → ℤ → Asm
unfolding stp_word
emit_stp a src1 src2 base offset =
    put_word a (stp_word 0xa9000000 (reg_no src1) (reg_no src2) (reg_no base) offset)

unfoldable pub emit_store_eightbytes : Asm → Reg → ℤ → Reg → Bool → Reg → Bool → Bool → Asm
unfolding emit_stp emit_str_reg
emit_store_eightbytes a base offset lo lo_written hi hi_written has_hi =
    let whole = λ (r : Reg) (written : Bool). if written then record r { rsize = 8 } else xzr in
    if has_hi
    then emit_stp a (whole lo lo_written) (whole hi hi_written) base offset
    else emit_str_reg a base (if lo_written then lo else record lo { reg_type = rd_none }) offset

abbrev pub chunk_size : ℕ → ℕ
chunk_size nbytes =
    if leb 8 nbytes then 8 else if leb 4 nbytes then 4 else if leb 2 nbytes then 2 else 1

-- The loop of `emit_store_packed`; each round stores a byte at least, so `nbytes` rounds are enough.
store_packed_from : ℕ → Asm → Reg → ℤ → Reg → ℕ → ℕ → Asm
unfolding emit_str_reg
store_packed_from zero a base offset src nbytes pos' = a
store_packed_from (suc left) a base offset src nbytes pos' =
    let chunk = chunk_size nbytes in
    let stored = emit_str_reg a base (record src { rsize = chunk }) (offset +ℤ pos pos') in
    let full = record src { rsize = 8 } in
    let shifted =
      if ltb chunk nbytes then emit_lsr_imm stored full full (pos (chunk * 8)) else stored in
    let rest = store_packed_from left shifted base offset src (nbytes - chunk) (pos' + chunk) in
    if nbytes == 0 then a else rest

unfoldable pub emit_store_packed : Asm → Reg → ℤ → Reg → ℕ → Asm
unfolding store_packed_from
emit_store_packed a base offset src nbytes = store_packed_from nbytes a base offset src nbytes 0

-- The first two loops of `emit_zerofill`, which store pairs and single registers.
fill_words : ℕ → Asm → Reg → ℤ → ℕ → Asm × ℤ × ℕ
unfolding emit_stp emit_str_reg
fill_words zero a dst offset size = (a, offset, size)
fill_words (suc left) a dst offset size =
    let pair = fill_words left (emit_stp a xzr xzr dst offset) dst (offset +ℤ pos 16) (size - 16) in
    let one = fill_words left (emit_str_reg a dst xzr offset) dst (offset +ℤ pos 8) (size - 8) in
    if leb 16 size then pair else if leb 8 size then one else (a, offset, size)

-- The last loop, for fewer than eight bytes, with four, two and one byte.
fill_rest : ℕ → ℕ → Asm → Reg → ℤ → ℕ → Asm
unfolding emit_str_reg
fill_rest zero rsize a dst offset size = a
fill_rest (suc left) rsize a dst offset size =
    let put = emit_str_reg a dst (record wzr { rsize = rsize }) offset in
    let after = fill_rest left (rsize / 2) put dst (offset +ℤ pos rsize) (size - rsize) in
    let on = fill_rest left (rsize / 2) a dst offset size in
    if size == 0 then a else if leb rsize size then after else on

-- `none` where the size is read through NULL.
unfoldable pub emit_zerofill : Asm → Reg → ℤ → Dtype → Option Asm
unfolding fill_words fill_rest
emit_zerofill a dst offset type = elim (dtype_size type) [
  | none ↦ none
  | some size ↦
      let filled = fill_words size a dst offset size in
      let (filled_asm, next, left) = filled in some (fill_rest 3 4 filled_asm dst next left)
]
