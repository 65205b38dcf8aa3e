-- ===== src/Aarch64/Words.antt =====
-- The instruction words that alc/bin-aarch64.c puts together, and the fields they are made of.
-- Shifts are those of `uint32_t`.
pub use allang.Base.{◌|||◌, shl}
use allang.Base.{ℕ, not, ltb, if◌then◌else◌, pos, ◌+ℤ◌, eqb_ℤ, to_bits}
use allang.Typesys.Dtype.{dtype_tryget_addr}
use allang.Typesys.Reg.{
  Cond, eq, ne, hs, lo, mi, pl, vs, vc, hi, ls, ge, lt, gt, le, al, nv, Reg, rd_none, scratch, nreg,
  stack, frame,
}

abbrev pub op_movn : ℕ
op_movn = 0x12800000

abbrev pub op_movz : ℕ
op_movz = 0x52800000

abbrev pub op_movk : ℕ
op_movk = 0x72800000

abbrev pub op_orr_reg : ℕ
op_orr_reg = 0x2a000000

unfoldable pub reg_no : Reg → ℕ
reg_no r = elim r.reg_type [
  | scratch ↦ to_bits 32 (r.offset +ℤ pos 8)
  | nreg ↦ to_bits 32 (r.offset +ℤ pos 19)
  | frame ↦ 29
  | stack ↦ 31
  | rd_none ↦ 31
  | _ ↦ to_bits 32 r.offset
]

unfoldable pub is64 : Reg → ℕ
is64 r =
    if not (eqb_ℤ (dtype_tryget_addr r.dtype) (pos 0)) then 1 else if ltb 4 r.rsize then 1 else 0

-- `(sf << 31) | base | (lane << 21) | (imm16 << 5) | rd`
unfoldable pub mov_word : ℕ → ℕ → ℕ → ℕ → ℕ → ℕ
mov_word sf base lane imm16 rd = shl sf 31 ||| base ||| shl lane 21 ||| shl imm16 5 ||| rd

-- `cond_aarch64`
abbrev pub cond_no : Cond → ℕ
cond_no eq = 0
cond_no ne = 1
cond_no hs = 2
cond_no lo = 3
cond_no mi = 4
cond_no pl = 5
cond_no vs = 6
cond_no vc = 7
cond_no hi = 8
cond_no ls = 9
cond_no ge = 0xa
cond_no lt = 0xb
cond_no gt = 0xc
cond_no le = 0xd
cond_no al = 0xe
cond_no nv = 0xf
