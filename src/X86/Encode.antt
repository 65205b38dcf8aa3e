-- ===== src/X86/Encode.antt =====
-- How alc/bin-x86_64.c puts an instruction together: the bytes that `put8` and `put32` are called
-- with, in their order. A function that only puts bytes is the list of them.
pub mod Disp
pub mod Fields
pub mod RegReg
pub mod RegMem
use allang.Base.{
  ℕ, Bool, false, not, ◌&&◌, ◌||◌, List, [], ◌∷◌, ◌++◌, leb, ◌==◌, if◌then◌else◌, get_or, bit_and,
  ◌|||◌, shl, ◌>>>◌, ℤ, pos, negsuc, pos_part, leb_ℤ, eqb_ℤ, to_bits,
}
use allang.Typesys.Reg.{Reg, rd_none, ret, param, scratch, nreg, stack, frame}

-- The numbers of the registers, which the writers of executables define: `exe-elf-x86_64.c` and
-- `exe-pe-x86_64.c`. A read out of range gives 0 here.
pub record RegTables : Type 0 where
  pub scratch_regs : List ℕ
  pub callee_regs : List ℕ
  pub param_regs : List ℕ
  pub ret_regs : List ℕ

abbrev pub elf_regs : RegTables
elf_regs = record {
  scratch_regs = 0 ∷ 1 ∷ 2 ∷ 6 ∷ 7 ∷ 8 ∷ 9 ∷ [];
  callee_regs = 3 ∷ 12 ∷ 13 ∷ 14 ∷ 15 ∷ 10 ∷ 11 ∷ [];
  param_regs = 7 ∷ 6 ∷ 2 ∷ 1 ∷ 8 ∷ 9 ∷ [];
  ret_regs = 0 ∷ 2 ∷ [];
}

abbrev pub pe_regs : RegTables
pe_regs = record {
  scratch_regs = 0 ∷ 1 ∷ 2 ∷ 8 ∷ 9 ∷ 10 ∷ 11 ∷ [];
  callee_regs = 3 ∷ 6 ∷ 7 ∷ 12 ∷ 13 ∷ 14 ∷ 15 ∷ [];
  param_regs = 1 ∷ 2 ∷ 8 ∷ 9 ∷ 10 ∷ 11 ∷ [];
  ret_regs = 0 ∷ 2 ∷ [];
}

unfoldable pub reg_no : RegTables → Reg → ℕ
reg_no t r = elim r.reg_type [
  | scratch ↦ get_or t.scratch_regs (pos_part r.offset) 0
  | nreg ↦ get_or t.callee_regs (pos_part r.offset) 0
  | param ↦ get_or t.param_regs (pos_part r.offset) 0
  | ret ↦ get_or t.ret_regs (pos_part r.offset) 0
  | frame ↦ 5
  | stack ↦ 4
  | rd_none ↦ 0
]

unfoldable pub rsz : Reg → ℕ
rsz r = if r.rsize == 0 then 4 else r.rsize

-- `put32` of a value of 32 bits, and `put64`.
abbrev pub put32 : ℕ → List ℕ
put32 v =
    bit_and v 0xff ∷ bit_and (v >>> 8) 0xff ∷ bit_and (v >>> 16) 0xff ∷ bit_and (v >>> 24) 0xff ∷ []

abbrev pub put64 : ℕ → List ℕ
put64 v = put32 (bit_and v 0xffffffff) ++ put32 (v >>> 32)

abbrev pub rex_base : ℕ
rex_base = 0x40

-- One of the bits of REX, where a condition holds.
abbrev pub rex_bit : Bool → ℕ → ℕ
rex_bit b mask = if b then mask else 0

abbrev pub prefix_16 : ℕ → List ℕ
prefix_16 sz = if sz == 2 then 0x66 ∷ [] else []

-- REX goes where it says anything or is forced.
abbrev pub put_rex : ℕ → Bool → List ℕ
put_rex rex force_rex = if not (rex == 0) || force_rex then (rex_base ||| rex) ∷ [] else []

-- A byte register that only REX gives the low byte of.
abbrev pub is_low_byte : ℕ → Bool
is_low_byte r = leb 4 r && leb r 7

abbrev pub opcode_of : ℕ → ℕ → ℕ
opcode_of opcode sz = if sz == 1 then bit_and opcode 0xfe else opcode

-- `0xc0u | ((reg & 7u) << 3) | (rm & 7u)`
abbrev pub modrm_rr : ℕ → ℕ → ℕ
modrm_rr reg rm = 0xc0 ||| shl (bit_and reg 7) 3 ||| bit_and rm 7

unfoldable pub encode_rr : ℕ → ℕ → ℕ → ℕ → List ℕ
encode_rr opcode sz reg rm =
    let rex = rex_bit (sz == 8) 8 ||| rex_bit (leb 8 reg) 4 ||| rex_bit (leb 8 rm) 1 in
    let force_rex = (sz == 1) && (is_low_byte reg || is_low_byte rm) in
    prefix_16 sz ++ (put_rex rex force_rex ++ opcode_of opcode sz ∷ modrm_rr reg rm ∷ [])

unfoldable pub choose_mod : ℤ → ℕ → ℕ
choose_mod disp base_low3 =
    if eqb_ℤ disp (pos 0) && not (base_low3 == 5)
    then 0
    else if leb_ℤ (negsuc 127) disp && leb_ℤ disp (pos 127)
    then 1
    else 2

unfoldable pub put_disp : ℤ → ℕ → List ℕ
put_disp disp mode =
    if mode == 1 then to_bits 8 disp ∷ [] else if mode == 2 then put32 (to_bits 32 disp) else []

-- The field of SIB for a scale.
unfoldable pub scale_bits : ℕ → ℕ
scale_bits scale = if scale == 8 then 3 else if scale == 4 then 2 else if scale == 2 then 1 else 0

-- ModRM, SIB where there is one, and the displacement.
unfoldable pub mem_operand : ℕ → ℕ → Bool → ℕ → ℕ → ℤ → List ℕ
unfolding choose_mod put_disp scale_bits
mem_operand reg_field base has_index index scale disp =
    let base_low3 = bit_and base 7 in
    let mode = choose_mod disp base_low3 in
    let reg_bits = shl (bit_and reg_field 7) 3 in
    let idx3 = if has_index then bit_and index 7 else 4 in
    (if has_index || (base_low3 == 4)
      then (shl mode 6 ||| reg_bits ||| 4)
        ∷ (shl (scale_bits scale) 6 ||| shl idx3 3 ||| base_low3)
        ∷ []
      else (shl mode 6 ||| reg_bits ||| base_low3) ∷ [])
    ++ put_disp disp mode

unfoldable pub encode_mem : ℕ → ℕ → ℕ → ℕ → Bool → ℕ → ℕ → ℤ → List ℕ
unfolding mem_operand
encode_mem opcode sz reg_field base has_index index scale disp =
    let rex =
      rex_bit (sz == 8) 8
      ||| rex_bit (leb 8 reg_field) 4
      ||| rex_bit (has_index && leb 8 index) 2
      ||| rex_bit (leb 8 base) 1 in
    let force_rex = (sz == 1) && is_low_byte reg_field in
    prefix_16 sz
    ++ (put_rex rex force_rex
        ++ opcode_of opcode sz ∷ mem_operand reg_field base has_index index scale disp)

-- `0xc0u | ((uint32_t)digit << 3) | (rm & 7u)`
abbrev pub modrm_digit : ℕ → ℕ → ℕ
modrm_digit digit rm = 0xc0 ||| shl digit 3 ||| bit_and rm 7

-- The prefixes of an instruction with one register in ModRM.
abbrev pub prefixes_rm : ℕ → ℕ → Bool → List ℕ
prefixes_rm sz rm force_rex =
    prefix_16 sz ++ put_rex (rex_bit (sz == 8) 8 ||| rex_bit (leb 8 rm) 1) force_rex

module _ (t : RegTables) where
  unfoldable pub alu_rr : ℕ → Reg → Reg → List ℕ
  unfolding encode_rr
  alu_rr opcode dst src = encode_rr opcode (rsz dst) (reg_no t src) (reg_no t dst)

  unfoldable pub alu_ri : ℕ → Reg → ℤ → List ℕ
  alu_ri digit dst imm =
      let sz = rsz dst in
      let rm = reg_no t dst in
      prefixes_rm sz rm ((sz == 1) && is_low_byte rm)
      ++ (if sz == 1
          then 0x80 ∷ modrm_digit digit rm ∷ to_bits 8 imm ∷ []
          else if leb_ℤ (negsuc 127) imm && leb_ℤ imm (pos 127)
          then 0x83 ∷ modrm_digit digit rm ∷ to_bits 8 imm ∷ []
          else 0x81 ∷ modrm_digit digit rm ∷ put32 (to_bits 32 imm))

  unfoldable pub shift_ri : ℕ → Reg → ℤ → List ℕ
  shift_ri digit dst amount =
      prefixes_rm (rsz dst) (reg_no t dst) false
      ++ 0xc1 ∷ modrm_digit digit (reg_no t dst) ∷ to_bits 8 amount ∷ []

  unfoldable pub emit_neg : Reg → List ℕ
  emit_neg dst =
      prefixes_rm (rsz dst) (reg_no t dst) false
      ++ opcode_of 0xf7 (rsz dst) ∷ modrm_digit 3 (reg_no t dst) ∷ []
