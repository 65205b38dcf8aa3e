-- ===== src/X86/Machine.antt =====
-- How x86-64 reads an instruction with a ModRM byte, as the Intel manual describes it, for the
-- operations that alc/bin-x86_64.c encodes so.
pub mod Moves
use allang.Base.{
  ℕ, ◌+◌, ◌*◌, ◌/◌, ◌%◌, ◌^◌, Bool, true, false, not, ◌&&◌, Option, none, some, List, [], ◌∷◌, leb,
  ◌==◌, if◌then◌else◌, ℤ, pos, to_signed,
}

pub data Op : Type 0 where
  op_add op_or op_and op_sub op_xor op_cmp mov_store mov_load lea : Op

-- A register of a number, an address of base, index with its scale, and displacement, or one after
-- the instruction. Registers 20 to 23 are AH, CH, DH and BH.
pub data Operand : Type 0 where
  in_reg : ℕ → Operand
  at_base : ℕ → Option (ℕ × ℕ) → ℤ → Operand
  at_disp : Option (ℕ × ℕ) → ℤ → Operand
  at_rip : ℤ → Operand

pub record Insn : Type 0 where
  pub op : Op
  pub size : ℕ
  pub reg : ℕ
  pub operand : Operand

-- The operation of an opcode but for its low bit, which says whether the operands are bytes.
unfoldable pub operation : ℕ → Option Op
operation code =
    if code == 0x00
    then some op_add
    else if code == 0x08
    then some op_or
    else if code == 0x20
    then some op_and
    else if code == 0x28
    then some op_sub
    else if code == 0x30
    then some op_xor
    else if code == 0x38
    then some op_cmp
    else if code == 0x88
    then some mov_store
    else if code == 0x8a
    then some mov_load
    else none

-- LEA has no form for bytes.
unfoldable pub operation_of : ℕ → Option Op
unfolding operation
operation_of byte = if byte == 0x8d then some lea else operation (byte / 2 * 2)

-- The bits of the prefixes: 16-bit operands, whether there is REX, and its W, R, X and B.
pub record Prefix : Type 0 where
  pub short : Bool
  pub has_rex : Bool
  pub rex : ℕ

unfoldable pub operand_size : Prefix → ℕ → ℕ
operand_size p byte =
    if byte % 2 == 0 then 1 else if p.rex / 8 % 2 == 1 then 8 else if p.short then 2 else 4

-- Without REX the byte registers 4 to 7 are AH, CH, DH and BH.
unfoldable pub reg_name : Prefix → ℕ → ℕ → ℕ
reg_name p size r = if (size == 1) && not p.has_rex && (leb 4 r && leb r 7) then r + 16 else r

unfoldable pub in_range : Prefix → ℕ → ℕ → ℕ
in_range p bit low = low + 8 * (p.rex / 2 ^ bit % 2)

-- A displacement, little end first, with what follows it.
unfoldable pub read_disp : ℕ → List ℕ → Option (ℤ × List ℕ)
read_disp size bytes =
    if size == 0
    then some (pos 0, bytes)
    else if size == 1
    then elim bytes [ [] ↦ none | b ∷ rest ↦ some (to_signed 8 b, rest) ]
    else elim bytes [
      | b0 ∷ b1 ∷ b2 ∷ b3 ∷ rest ↦
          some (to_signed 32 (b0 + 2 ^ 8 * b1 + 2 ^ 16 * b2 + 2 ^ 24 * b3), rest)
      | _ ↦ none
    ]

abbrev pub with_disp : Option (ℤ × List ℕ) → (ℤ → Operand) → Option (Operand × List ℕ)
with_disp none f = none
with_disp (some (disp, rest)) f = some (f disp, rest)

abbrev pub disp_size : ℕ → ℕ
disp_size mode = if mode == 1 then 1 else if mode == 2 then 4 else 0

-- Index 4 is none, unless REX raises it; base 5 is none where there is no displacement.
unfoldable pub read_sib : Prefix → ℕ → ℕ → List ℕ → Option (Operand × List ℕ)
unfolding in_range read_disp
read_sib p mode sib bytes =
    let index = in_range p 1 (sib / 8 % 8) in
    let indexed = if index == 4 then none else some (index, 2 ^ (sib / 64)) in
    if (mode == 0) && (sib % 8 == 5)
    then with_disp (read_disp 4 bytes) (at_disp indexed)
    else with_disp (read_disp (disp_size mode) bytes) (at_base (in_range p 0 (sib % 8)) indexed)

unfoldable pub read_operand : Prefix → ℕ → ℕ → List ℕ → Option (Operand × List ℕ)
unfolding reg_name in_range read_disp read_sib
read_operand p size modrm bytes =
    let mode = modrm / 64 in
    let rm = modrm % 8 in
    if mode == 3
    then some (in_reg (reg_name p size (in_range p 0 rm)), bytes)
    else if rm == 4
    then elim bytes [ [] ↦ none | sib ∷ rest ↦ read_sib p mode sib rest ]
    else if (mode == 0) && (rm == 5)
    then with_disp (read_disp 4 bytes) at_rip
    else with_disp (read_disp (disp_size mode) bytes) (at_base (in_range p 0 rm) none)

abbrev pub finish : Op → ℕ → ℕ → Option (Operand × List ℕ) → Option (Insn × List ℕ)
finish op size reg none = none
finish op size reg (some (operand, rest)) =
    some (record { op = op; size = size; reg = reg; operand = operand }, rest)

unfoldable pub read_operands : Prefix → Option Op → ℕ → ℕ → List ℕ → Option (Insn × List ℕ)
unfolding reg_name in_range read_operand
read_operands p none size modrm bytes = none
read_operands p (some op) size modrm bytes =
    finish op size (reg_name p size (in_range p 2 (modrm / 8 % 8)))
      (read_operand p size modrm bytes)

unfoldable pub read_op : Prefix → List ℕ → Option (Insn × List ℕ)
unfolding operation_of operand_size read_operands
read_op p (byte ∷ modrm ∷ bytes) =
    read_operands p (operation_of byte) (operand_size p byte) modrm bytes
read_op p _ = none

-- The prefixes, with what follows them.
unfoldable pub read_rex : Bool → List ℕ → Prefix × List ℕ
read_rex short [] = (record { short = short; has_rex = false; rex = 0 }, [])
read_rex short (b ∷ bytes) =
    if b / 16 == 4
    then (record { short = short; has_rex = true; rex = b % 16 }, bytes)
    else (record { short = short; has_rex = false; rex = 0 }, b ∷ bytes)

unfoldable pub read_prefixes : List ℕ → Prefix × List ℕ
unfolding read_rex
read_prefixes [] = (record { short = false; has_rex = false; rex = 0 }, [])
read_prefixes (b ∷ bytes) = if b == 0x66 then read_rex true bytes else read_rex false (b ∷ bytes)

-- The instruction at the head of some bytes, with the bytes after it.
unfoldable pub read_insn : List ℕ → Option (Insn × List ℕ)
unfolding read_prefixes read_op
read_insn bytes = let prefixed = read_prefixes bytes in read_op prefixed.0 prefixed.1
