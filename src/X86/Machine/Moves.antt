-- ===== src/X86/Machine/Moves.antt =====
-- What moves of an immediate value do to the registers, as the Intel manual describes it, and XOR,
-- which clears a register. A register has 64 bits.
use allang.Base.{
  ℕ, ◌+◌, ◌*◌, ◌/◌, ◌%◌, ◌^◌, ◌&&◌, Option, none, some, List, [], ◌∷◌, leb, ◌==◌, if◌then◌else◌,
  length, to_bits, to_signed, bit_xor,
}
use allang.X86.Machine.{
  Prefix, Op, op_xor, Insn, Operand, in_reg, reg_name, in_range, read_prefixes, read_op,
}

abbrev pub Regs : Type 0
Regs = ℕ → ℕ

-- A write of four bytes clears the upper half; shorter ones keep the rest.
unfoldable pub merged : ℕ → ℕ → ℕ → ℕ
merged size old v =
    if size == 8
    then v
    else if size == 4
    then v % 2 ^ 32
    else if size == 2
    then old / 2 ^ 16 * 2 ^ 16 + v % 2 ^ 16
    else old / 2 ^ 8 * 2 ^ 8 + v % 2 ^ 8

unfoldable pub write_reg : Regs → ℕ → ℕ → ℕ → Regs
unfolding merged
write_reg regs r size v q = if q == r then merged size (regs r) v else regs q

-- Bytes, little end first.
unfoldable pub le_value : List ℕ → ℕ
le_value [] = 0
le_value (b ∷ bytes) = b + 2 ^ 8 * le_value bytes

-- The size of the operands of an instruction that is not on bytes.
unfoldable pub word_size : Prefix → ℕ
word_size p = if p.rex / 8 % 2 == 1 then 8 else if p.short then 2 else 4

-- An immediate value of a size and nothing after it.
unfoldable pub write_imm : Regs → ℕ → ℕ → List ℕ → Option Regs
unfolding write_reg le_value
write_imm regs r size imm =
    if length imm == size then some (write_reg regs r size (le_value imm)) else none

-- 32 bits with their sign, under a ModRM byte that names a register.
unfoldable pub write_signed : Prefix → Regs → List ℕ → Option Regs
unfolding write_reg le_value word_size in_range
write_signed p regs [] = none
write_signed p regs (modrm ∷ imm) =
    if leb 0xc0 modrm && leb modrm 0xc7 && (length imm == 4) && leb 4 (word_size p)
    then some (
        write_reg regs (in_range p 0 (modrm % 8)) (word_size p)
          (to_bits 64 (to_signed 32 (le_value imm))))
    else none

unfoldable pub xor_into : Op → Operand → ℕ → ℕ → List ℕ → Regs → Option Regs
unfolding write_reg
xor_into op_xor (in_reg b) size a [] regs = some (write_reg regs b size (bit_xor (regs b) (regs a)))
xor_into _ _ size a rest regs = none

unfoldable pub run_xor : Option (Insn × List ℕ) → Regs → Option Regs
unfolding xor_into
run_xor none regs = none
run_xor (some (insn, rest)) regs = xor_into insn.op insn.operand insn.size insn.reg rest regs

unfoldable pub run_after : Prefix → List ℕ → Regs → Option Regs
unfolding write_imm write_signed run_xor read_op word_size reg_name in_range
run_after p [] regs = none
run_after p (byte ∷ bytes) regs =
    if leb 0xb0 byte && leb byte 0xb7
    then write_imm regs (reg_name p 1 (in_range p 0 (byte % 8))) 1 bytes
    else if leb 0xb8 byte && leb byte 0xbf
    then write_imm regs (in_range p 0 (byte % 8)) (word_size p) bytes
    else if byte == 0xc7
    then write_signed p regs bytes
    else run_xor (read_op p (byte ∷ bytes)) regs

-- One move, after its prefixes.
unfoldable pub run_move : List ℕ → Regs → Option Regs
unfolding read_prefixes run_after
run_move bytes regs = let prefixed = read_prefixes bytes in run_after prefixed.0 prefixed.1 regs
