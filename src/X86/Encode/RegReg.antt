-- ===== src/X86/Encode/RegReg.antt =====
-- An instruction on two registers is read back.
use allang.Base.{
  ℕ, ◌+◌, ◌*◌, ◌/◌, ◌%◌, ◌^◌, ◌<◌, ◌≡◌, refl, ap, ◌∙◌, arith, true, not, ◌&&◌, ◌||◌, some, List, [],
  ◌∷◌, ◌++◌, leb, ◌==◌, ◌|||◌,
}
use allang.X86.Encode.{encode_rr, rex_bit, prefix_16, put_rex, is_low_byte, opcode_of, modrm_rr}
use allang.X86.Encode.Fields.{
  Width, size_of, code_of, encodable, Reads, opcode-Reads, modrm_sum, low3, bit, regroup, RexBits,
  rex_rr-RexBits, read_insn-prefixes, operand_size_lem, read_op_lem, in_range_lem, reg_name_lem,
  forced_left, forced_right,
}
use allang.X86.Machine.{
  Op, in_reg, Prefix, read_insn, read_op, read_operand, operand_size, reg_name, in_range,
  operation_of,
}

modrm_rr_sum : (reg rm : ℕ) → modrm_rr reg rm ≡ 192 + reg % 8 * 8 + rm % 8
modrm_rr_sum reg rm =
    rw (low3 reg, low3 rm)
      (modrm_sum 3 (reg % 8) (rm % 8) (omega arith) (omega arith) (omega arith))

-- ModRM with two registers.
operand_rr :
    (p : Prefix) (size a b : ℕ) (tail : List ℕ)
    → a < 8
    → b < 8
    → read_operand p size (192 + a * 8 + b) tail
      ≡ some (in_reg (reg_name p size (in_range p 0 b)), tail)
unfolding read_operand
operand_rr p size a b tail ha hb =
    let mode : (192 + a * 8 + b) / 64 == 3 ≡ true = ground arith in
    let low : (192 + a * 8 + b) % 8 ≡ b = omega arith in rw (mode, low) refl

read_rr :
    (o : Op) (w : Width) (p : Prefix) (byte reg rm : ℕ) (rest : List ℕ)
    → operation_of byte ≡ some o
    → operand_size p byte ≡ size_of w
    → reg < 16
    → rm < 16
    → p.rex / 2 ^ 2 % 2 ≡ bit (leb 8 reg)
    → p.rex / 2 ^ 0 % 2 ≡ bit (leb 8 rm)
    → ((size_of w == 1) && is_low_byte reg ≡ true → p.has_rex ≡ true)
    → ((size_of w == 1) && is_low_byte rm ≡ true → p.has_rex ≡ true)
    → read_op p (byte ∷ modrm_rr reg rm ∷ rest)
      ≡ some (record { op = o; size = size_of w; reg = reg; operand = in_reg rm }, rest)
read_rr o w p byte reg rm rest is_op sized hreg hrm bit_r bit_b force_reg force_rm =
    let field : (192 + reg % 8 * 8 + rm % 8) / 8 % 8 ≡ reg % 8 = omega arith in
    read_op_lem p o (size_of w) byte (modrm_rr reg rm) reg (in_reg rm) rest rest is_op sized
      (rw (modrm_rr_sum reg rm, field, in_range_lem p 2 reg hreg bit_r)
        (reg_name_lem p (size_of w) reg force_reg))
      (rw (modrm_rr_sum reg rm) (
        operand_rr p (size_of w) (reg % 8) (rm % 8) rest (omega arith) (omega arith)
        ∙ rw (in_range_lem p 0 rm hrm bit_b, reg_name_lem p (size_of w) rm force_rm) refl))

pub encoded :
    (o : Op) (w : Width) (reg rm : ℕ) (rest : List ℕ)
    → encode_rr (code_of o) (size_of w) reg rm ++ rest
      ≡ prefix_16 (size_of w)
        ++ (put_rex
              (rex_bit (size_of w == 8) 8 ||| rex_bit (leb 8 reg) 4 ||| rex_bit (leb 8 rm) 1)
              ((size_of w == 1) && (is_low_byte reg || is_low_byte rm))
            ++ opcode_of (code_of o) (size_of w) ∷ modrm_rr reg rm ∷ rest)
unfolding encode_rr
encoded o w reg rm rest =
    let rex = rex_bit (size_of w == 8) 8 ||| rex_bit (leb 8 reg) 4 ||| rex_bit (leb 8 rm) 1 in
    let force = (size_of w == 1) && (is_low_byte reg || is_low_byte rm) in
    regroup (prefix_16 (size_of w)) (put_rex rex force)
      (opcode_of (code_of o) (size_of w) ∷ modrm_rr reg rm ∷ []) rest

-- An instruction of an operation and a width on two registers, whose numbers have four bits, is
-- read back with its operation, its size and its registers, whatever follows it; LEA for bytes,
-- which there is not, is left out.
pub read_insn-encode_rr :
    (o : Op) (w : Width) (reg rm : ℕ) (rest : List ℕ)
    → encodable o w ≡ true
    → reg < 16
    → rm < 16
    → read_insn (encode_rr (code_of o) (size_of w) reg rm ++ rest)
      ≡ some (record { op = o; size = size_of w; reg = reg; operand = in_reg rm }, rest)
unfolding Reads RexBits
read_insn-encode_rr o w reg rm rest ok hreg hrm =
    let byte = opcode_of (code_of o) (size_of w) in
    let (is_op, other, plain, low) = opcode-Reads o w ok in
    let rex = rex_bit (size_of w == 8) 8 ||| rex_bit (leb 8 reg) 4 ||| rex_bit (leb 8 rm) 1 in
    let (small, bit_w, bit_r, bit_x, bit_b) =
      rex_rr-RexBits (size_of w == 8) (leb 8 reg) (leb 8 rm) in
    let force = (size_of w == 1) && (is_low_byte reg || is_low_byte rm) in
    let has = not (rex == 0) || force in
    ap read_insn (encoded o w reg rm rest)
    ∙ read_insn-prefixes w force rex byte (modrm_rr reg rm ∷ rest) small other plain
    ∙ read_rr o w (record { short = size_of w == 2; has_rex = has; rex = rex }) byte reg rm rest
        is_op (operand_size_lem w has rex byte low bit_w) hreg hrm bit_r bit_b
        (forced_left (not (rex == 0)) (size_of w == 1) (is_low_byte reg) (is_low_byte rm))
        (forced_right (not (rex == 0)) (size_of w == 1) (is_low_byte reg) (is_low_byte rm))
