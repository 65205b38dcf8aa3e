-- ===== src/X86/Encode/Fields.antt =====
-- The bytes before an operand: the opcode, the prefixes and ModRM, as the machine reads them.
use allang.Base.{
  ℕ, ◌+◌, ◌*◌, ◌/◌, ◌%◌, ◌^◌, ◌<◌, ◌≡◌, refl, sym, ap, ◌∙◌, arith, Bool, true, false, not, ◌&&◌,
  ◌||◌, some, List, [], ◌∷◌, ◌++◌, leb, ◌==◌, if◌then◌else◌, inl, inr, Bool-cases, bit_and, ◌|||◌,
  shl,
}
use mathlib.Core.List.{append_assoc}
use allang.Base.Bits.{bit_or_disjoint, bit_and_low}
use allang.X86.Encode.{rex_base, rex_bit, prefix_16, put_rex, is_low_byte, opcode_of}
use allang.X86.Machine.{
  Op, Operand, op_add, op_or, op_and, op_sub, op_xor, op_cmp, mov_store, mov_load, lea, Prefix,
  operation_of, operation, operand_size, reg_name, in_range, read_op, read_rex, read_insn,
  read_prefixes, read_operand, read_operands,
}

pub regroup {ℓ} :
    {A : Type ℓ} (xs ys zs rest : List A) → (xs ++ (ys ++ zs)) ++ rest ≡ xs ++ (ys ++ (zs ++ rest))
regroup xs ys zs rest =
    append_assoc xs (ys ++ zs) rest ∙ ap (λ bytes. xs ++ bytes) (append_assoc ys zs rest)

-- The sizes of operands.
pub data Width : Type 0 where
  w8 w16 w32 w64 : Width

abbrev pub size_of : Width → ℕ
size_of w8 = 1
size_of w16 = 2
size_of w32 = 4
size_of w64 = 8

-- The opcodes that the code names.
abbrev pub code_of : Op → ℕ
code_of op_add = 0x01
code_of op_or = 0x09
code_of op_and = 0x21
code_of op_sub = 0x29
code_of op_xor = 0x31
code_of op_cmp = 0x39
code_of mov_store = 0x89
code_of mov_load = 0x8b
code_of lea = 0x8d

-- LEA has no form for bytes.
abbrev pub encodable : Op → Width → Bool
encodable lea w8 = false
encodable _ _ = true

abbrev pub is_w8 : Width → Bool
is_w8 w8 = true
is_w8 _ = false

-- What the machine finds in an opcode.
unfoldable pub Reads : Op → Width → ℕ → Type 0
Reads o w byte =
    (operation_of byte ≡ some o)
    × ((byte == 0x66) ≡ false)
    × ((byte / 16 == 4) ≡ false)
    × ((byte % 2 == 0) ≡ is_w8 w)

pub opcode-Reads :
    (o : Op) (w : Width) → encodable o w ≡ true → Reads o w (opcode_of (code_of o) (size_of w))
unfolding Reads operation_of operation
opcode-Reads o w h = grind arith

pub modrm_sum :
    (mode r m : ℕ)
    → mode < 4
    → r < 8
    → m < 8
    → (shl mode 6 ||| shl r 3 ||| m) ≡ mode * 64 + r * 8 + m
modrm_sum mode r m hm hr hl =
    let a : shl mode 6 ≡ mode * 64 = omega arith in
    let b : shl r 3 ≡ r * 8 = omega arith in
    rw
      (
        a,
        b,
        bit_or_disjoint 6 (mode * 64) (r * 8) (omega arith) (omega arith),
        bit_or_disjoint 3 (mode * 64 + r * 8) m (omega arith) hl,
      )
      refl

pub low3 : (r : ℕ) → bit_and r 7 ≡ r % 8
low3 r = bit_and_low 3 r

-- One of the bits of REX.
abbrev pub bit : Bool → ℕ
bit true = 1
bit false = 0

unfoldable pub RexBits : ℕ → Bool → Bool → Bool → Bool → Type 0
RexBits rex w r x b =
    (rex < 16)
    × (rex / 8 % 2 ≡ bit w)
    × (rex / 4 % 2 ≡ bit r)
    × (rex / 2 % 2 ≡ bit x)
    × (rex / 1 % 2 ≡ bit b)

pub rex_mem-RexBits :
    (w r x b : Bool) → RexBits (rex_bit w 8 ||| rex_bit r 4 ||| rex_bit x 2 ||| rex_bit b 1) w r x b
unfolding RexBits
rex_mem-RexBits w r x b = grind arith

pub rex_rr-RexBits :
    (w r b : Bool) → RexBits (rex_bit w 8 ||| rex_bit r 4 ||| rex_bit b 1) w r false b
unfolding RexBits
rex_rr-RexBits w r b = grind arith

-- REX is read back, whatever follows the opcode.
read_rex-rex :
    (short has : Bool) (rex byte : ℕ) (tail : List ℕ)
    → rex < 16
    → (has ≡ false → rex ≡ 0)
    → (byte / 16 == 4) ≡ false
    → read_rex short ((if has then (rex_base ||| rex) ∷ [] else []) ++ byte ∷ tail)
      ≡ (record { short = short; has_rex = has; rex = rex }, byte ∷ tail)
unfolding read_rex
read_rex-rex short false rex byte tail small blank plain = rw plain (
    ap (λ (n : ℕ). (record { short = short; has_rex = false; rex = n }, byte ∷ tail))
      (sym (blank refl)))
read_rex-rex short true rex byte tail small blank plain =
    let sum : (rex_base ||| rex) ≡ 0x40 + rex = bit_or_disjoint 4 0x40 rex refl small in
    let is_rex : ((rex_base ||| rex) / 16 == 4) ≡ true = ground (arith, sum) in
    let bits : (rex_base ||| rex) % 16 ≡ rex = omega (arith, sum) in
    rw is_rex
      (ap (λ (n : ℕ). (record { short = short; has_rex = true; rex = n }, byte ∷ tail)) bits)

-- The head of such bytes is no prefix for 16 bits.
starts_plain :
    (has : Bool) (rex byte : ℕ) (tail : List ℕ)
    → rex < 16
    → (byte == 0x66) ≡ false
    → read_prefixes ((if has then (rex_base ||| rex) ∷ [] else []) ++ byte ∷ tail)
      ≡ read_rex false ((if has then (rex_base ||| rex) ∷ [] else []) ++ byte ∷ tail)
unfolding read_prefixes
starts_plain false rex byte tail small other = rw other refl
starts_plain true rex byte tail small other =
    let sum : (rex_base ||| rex) ≡ 0x40 + rex = bit_or_disjoint 4 0x40 rex refl small in
    let apart : ((rex_base ||| rex) == 0x66) ≡ false = ground (arith, sum) in rw apart refl

-- The prefixes are read back, where REX is put exactly if it says anything or is wanted.
pub read_prefixes-rex :
    (w : Width) (has : Bool) (rex byte : ℕ) (tail : List ℕ)
    → rex < 16
    → (has ≡ false → rex ≡ 0)
    → (byte == 0x66) ≡ false
    → (byte / 16 == 4) ≡ false
    → read_prefixes
        (prefix_16 (size_of w) ++ ((if has then (rex_base ||| rex) ∷ [] else []) ++ byte ∷ tail))
      ≡ (record { short = size_of w == 2; has_rex = has; rex = rex }, byte ∷ tail)
unfolding read_prefixes
read_prefixes-rex w16 has rex byte tail small blank other plain =
    read_rex-rex true has rex byte tail small blank plain
read_prefixes-rex w8 has rex byte tail small blank other plain =
    starts_plain has rex byte tail small other
    ∙ read_rex-rex false has rex byte tail small blank plain
read_prefixes-rex w32 has rex byte tail small blank other plain =
    starts_plain has rex byte tail small other
    ∙ read_rex-rex false has rex byte tail small blank plain
read_prefixes-rex w64 has rex byte tail small blank other plain =
    starts_plain has rex byte tail small other
    ∙ read_rex-rex false has rex byte tail small blank plain

pub read_insn-prefixes :
    (w : Width) (force : Bool) (rex byte : ℕ) (tail : List ℕ)
    → rex < 16
    → (byte == 0x66) ≡ false
    → (byte / 16 == 4) ≡ false
    → read_insn (prefix_16 (size_of w) ++ (put_rex rex force ++ byte ∷ tail))
      ≡ read_op
          (record { short = size_of w == 2; has_rex = not (rex == 0) || force; rex = rex })
          (byte ∷ tail)
unfolding read_insn
read_insn-prefixes w force rex byte tail small other plain =
    ap (λ (prefixed : Prefix × List ℕ). read_op prefixed.0 prefixed.1)
      (read_prefixes-rex w (not (rex == 0) || force) rex byte tail small (λ e. ground arith) other
        plain)

-- The size that the prefixes and the opcode say.
pub operand_size_lem :
    (w : Width) (has : Bool) (rex byte : ℕ)
    → (byte % 2 == 0) ≡ is_w8 w
    → rex / 8 % 2 ≡ bit (size_of w == 8)
    → operand_size (record { short = size_of w == 2; has_rex = has; rex = rex }) byte ≡ size_of w
unfolding operand_size
operand_size_lem w8 has rex byte low wide = rw low refl
operand_size_lem w16 has rex byte low wide = rw (low, wide) refl
operand_size_lem w32 has rex byte low wide = rw (low, wide) refl
operand_size_lem w64 has rex byte low wide = rw (low, wide) refl

-- A register number of four bits, from three in the byte and one in REX.
pub in_range_lem :
    (p : Prefix) (k r : ℕ) → r < 16 → p.rex / 2 ^ k % 2 ≡ bit (leb 8 r) → in_range p k (r % 8) ≡ r
unfolding in_range
in_range_lem p k r small e = rw e (elim (Bool-cases (leb 8 r)) [
  | inl h ↦ rw h (ground (arith, h))
  | inr h ↦ rw h (ground (arith, h))
])

-- Where REX is forced for them, the byte registers are the low ones.
pub reg_name_lem :
    (p : Prefix) (size r : ℕ)
    → ((size == 1) && is_low_byte r ≡ true → p.has_rex ≡ true)
    → reg_name p size r ≡ r
unfolding reg_name
reg_name_lem p size r forced = elim (Bool-cases ((size == 1) && is_low_byte r)) [
  | inl e ↦ rw (forced e) (ground arith)
  | inr e ↦ ground (arith, e)
]

-- An instruction is read back from its fields.
pub read_op_lem :
    (p : Prefix) (o : Op) (size byte modrm reg : ℕ) (operand : Operand) (tail rest : List ℕ)
    → operation_of byte ≡ some o
    → operand_size p byte ≡ size
    → reg_name p size (in_range p 2 (modrm / 8 % 8)) ≡ reg
    → read_operand p size modrm tail ≡ some (operand, rest)
    → read_op p (byte ∷ modrm ∷ tail)
      ≡ some (record { op = o; size = size; reg = reg; operand = operand }, rest)
unfolding read_op read_operands
read_op_lem p o size byte modrm reg operand tail rest is_op sized named found =
    rw (is_op, sized, named, found) refl

-- A REX that either of two registers forces is there.
pub forced_left : (any one a b : Bool) → one && a ≡ true → any || (one && (a || b)) ≡ true
forced_left any one a b h = grind arith

pub forced_right : (any one a b : Bool) → one && b ≡ true → any || (one && (a || b)) ≡ true
forced_right any one a b h = grind arith

pub forced : (any one : Bool) → one ≡ true → any || one ≡ true
forced any one h = grind arith
