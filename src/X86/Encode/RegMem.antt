-- ===== src/X86/Encode/RegMem.antt =====
-- An instruction on a register and memory is read back.
use allang.Base.{
  ℕ, zero, suc, ◌+◌, ◌*◌, ◌/◌, ◌%◌, ◌^◌, ◌<◌, ◌≡◌, ◌≢◌, refl, ap, ◌∙◌, arith, Bool, true, false,
  not, ◌&&◌, ◌||◌, Option, none, some, List, [], ◌∷◌, ◌++◌, leb, ◌==◌, if◌then◌else◌, inl, inr,
  Bool-cases, ◌|||◌, ℤ,
}
use allang.X86.Encode.{
  encode_mem, mem_operand, choose_mod, put_disp, scale_bits, rex_bit, prefix_16, put_rex,
  is_low_byte, opcode_of,
}
use allang.X86.Encode.Disp.{IsI32, Form, choose_mod-Form}
use allang.X86.Encode.Fields.{
  Width, size_of, code_of, encodable, Reads, opcode-Reads, modrm_sum, low3, bit, regroup, RexBits,
  rex_mem-RexBits, read_insn-prefixes, operand_size_lem, read_op_lem, in_range_lem, reg_name_lem,
  forced,
}
use allang.X86.Machine.{
  Op, Operand, at_base, Prefix, read_insn, read_op, read_operand, read_sib, read_disp, with_disp,
  disp_size, in_range,
}

module _ (p : Prefix) (size mode a low : ℕ) (hm : mode < 3) (ha : a < 8) (hl : low < 8) where
  abbrev based : List ℕ → Option (ℕ × ℕ) → Option (Operand × List ℕ)
  based tail index = with_disp (read_disp (disp_size mode) tail) (at_base (in_range p 0 low) index)

  read_plain :
      (tail : List ℕ)
      → ((mode == 0) && (low == 5)) ≡ false
      → (low == 4) ≡ false
      → read_operand p size (mode * 64 + a * 8 + low) tail ≡ based tail none
  unfolding read_operand
  read_plain tail apart other =
      let m : (mode * 64 + a * 8 + low) / 64 ≡ mode = omega arith in
      let l : (mode * 64 + a * 8 + low) % 8 ≡ low = omega arith in
      let memory : (mode == 3) ≡ false = ground arith in rw (m, l, memory, other, apart) refl

  read_with_sib :
      (sib : ℕ) (tail : List ℕ)
      → read_operand p size (mode * 64 + a * 8 + 4) (sib ∷ tail) ≡ read_sib p mode sib tail
  unfolding read_operand
  read_with_sib sib tail =
      let m : (mode * 64 + a * 8 + 4) / 64 ≡ mode = omega arith in
      let l : (mode * 64 + a * 8 + 4) % 8 ≡ 4 = omega arith in
      let memory : (mode == 3) ≡ false = ground arith in rw (m, l, memory) refl

  read_sib_lem :
      (k idx : ℕ) (tail : List ℕ)
      → idx < 8
      → ((mode == 0) && (low == 5)) ≡ false
      → read_sib p mode (k * 64 + idx * 8 + low) tail
        ≡ based tail (if in_range p 1 idx == 4 then none else some (in_range p 1 idx, 2 ^ k))
  unfolding read_sib
  read_sib_lem k idx tail hi apart =
      let m : (k * 64 + idx * 8 + low) / 64 ≡ k = omega arith in
      let l : (k * 64 + idx * 8 + low) % 8 ≡ low = omega arith in
      let i : (k * 64 + idx * 8 + low) / 8 % 8 ≡ idx = omega arith in rw (m, l, i, apart) refl

mem_bytes : ℕ → ℕ → Bool → ℕ → ℕ → ℤ → ℕ → List ℕ
mem_bytes a low has idx k disp mode =
    (if has || (low == 4)
      then (mode * 64 + a * 8 + 4) ∷ (k * 64 + (if has then idx else 4) * 8 + low) ∷ []
      else (mode * 64 + a * 8 + low) ∷ [])
    ++ put_disp disp mode

scale_bits-pow : (k : ℕ) → k < 4 → scale_bits (2 ^ k) ≡ k
unfolding scale_bits
scale_bits-pow zero h = refl
scale_bits-pow (suc zero) h = refl
scale_bits-pow (suc (suc zero)) h = refl
scale_bits-pow (suc (suc (suc zero))) h = refl
scale_bits-pow (suc (suc (suc (suc k)))) h = absurd (omega arith)

mem_operand-eq :
    (reg base : ℕ) (has : Bool) (index k : ℕ) (disp : ℤ)
    → k < 4
    → choose_mod disp (base % 8) < 3
    → mem_operand reg base has index (2 ^ k) disp
      ≡ mem_bytes (reg % 8) (base % 8) has (index % 8) k disp (choose_mod disp (base % 8))
unfolding mem_operand mem_bytes
mem_operand-eq reg base true index k disp hk hm =
    let mode = choose_mod disp (base % 8) in
    rw
      (
        low3 base,
        low3 reg,
        low3 index,
        scale_bits-pow k hk,
        modrm_sum mode (reg % 8) 4 (omega arith) (omega arith) (omega arith),
        modrm_sum k (index % 8) (base % 8) hk (omega arith) (omega arith),
      )
      refl
mem_operand-eq reg base false index k disp hk hm =
    let mode = choose_mod disp (base % 8) in
    rw
      (
        low3 base,
        low3 reg,
        scale_bits-pow k hk,
        modrm_sum mode (reg % 8) 4 (omega arith) (omega arith) (omega arith),
        modrm_sum k 4 (base % 8) hk (omega arith) (omega arith),
        modrm_sum mode (reg % 8) (base % 8) (omega arith) (omega arith) (omega arith),
      )
      refl

-- The index and its scale, where there is one.
abbrev pub index_of : Bool → ℕ → ℕ → Option (ℕ × ℕ)
index_of true index scale = some (index, scale)
index_of false index scale = none

module _ (p : Prefix) (size a base k : ℕ) (disp : ℤ) (mode : ℕ) (rest : List ℕ) (ha : a < 8)
    (hb : base < 16) (bit_b : p.rex / 2 ^ 0 % 2 ≡ bit (leb 8 base))
    (form : Form disp (base % 8) mode) where
  -- ModRM and what follows it say the operand.
  Says : List ℕ → Option (ℕ × ℕ) → Type 0
  Says bytes index =
      (modrm : ℕ) × (tail : List ℕ) × (bytes ++ rest ≡ modrm ∷ tail)
      × (modrm / 8 % 8 ≡ a)
      × (read_operand p size modrm tail ≡ some (at_base base index disp, rest))

  shown :
      (index : Option (ℕ × ℕ))
      → with_disp
          (read_disp (disp_size mode) (put_disp disp mode ++ rest))
          (at_base (in_range p 0 (base % 8)) index)
        ≡ some (at_base base index disp, rest)
  unfolding Form
  shown index = rw (form.2 rest, in_range_lem p 0 base hb bit_b) refl

  sib-Says :
      (idx : ℕ) (index : Option (ℕ × ℕ))
      → idx < 8
      → (if in_range p 1 idx == 4 then none else some (in_range p 1 idx, 2 ^ k)) ≡ index
      → Says ((mode * 64 + a * 8 + 4) ∷ (k * 64 + idx * 8 + base % 8) ∷ put_disp disp mode) index
  unfolding Says Form
  sib-Says idx index hi there =
      let (hm, apart, read) = form in
      (
        mode * 64 + a * 8 + 4,
        (k * 64 + idx * 8 + base % 8) ∷ put_disp disp mode ++ rest,
        refl,
        omega arith,
        read_with_sib p size mode a (base % 8) hm ha (omega arith) _ _
            ∙ read_sib_lem p size mode a (base % 8) hm ha (omega arith) k idx _ hi apart
            ∙ rw there (shown index),
      )

  plain-Says :
      (base % 8 == 4) ≡ false → Says ((mode * 64 + a * 8 + base % 8) ∷ put_disp disp mode) none
  unfolding Says Form
  plain-Says other =
      let (hm, apart, read) = form in
      (
        mode * 64 + a * 8 + base % 8,
        put_disp disp mode ++ rest,
        refl,
        omega arith,
        read_plain p size mode a (base % 8) hm ha (omega arith) _ apart other ∙ shown none,
      )

  mem_bytes-Says :
      (has : Bool) (index : ℕ)
      → index < 16
      → (has ≡ true → index ≢ 4)
      → p.rex / 2 ^ 1 % 2 ≡ bit (has && leb 8 index)
      → Says (mem_bytes a (base % 8) has (index % 8) k disp mode) (index_of has index (2 ^ k))
  unfolding mem_bytes
  mem_bytes-Says true index hi ne bit_x =
      let other : (index == 4) ≡ false = ground (arith, ne refl) in
      sib-Says (index % 8) (some (index, 2 ^ k)) (omega arith)
        (rw (in_range_lem p 1 index hi bit_x, other) refl)
  mem_bytes-Says false index hi ne bit_x = elim (Bool-cases (base % 8 == 4)) [
    | inl e ↦
        let absent : in_range p 1 4 ≡ 4 = unfold in_range in omega (arith, bit_x) in
        rw e (sib-Says 4 none (omega arith) (rw absent refl))
    | inr e ↦ rw e (plain-Says e)
  ]

abbrev pub rex_mem : Width → ℕ → ℕ → Bool → ℕ → ℕ
rex_mem w reg base has index =
    rex_bit (size_of w == 8) 8
    ||| rex_bit (leb 8 reg) 4
    ||| rex_bit (has && leb 8 index) 2
    ||| rex_bit (leb 8 base) 1

encoded :
    (o : Op) (w : Width) (reg base : ℕ) (has : Bool) (index scale : ℕ) (disp : ℤ) (rest : List ℕ)
    → encode_mem (code_of o) (size_of w) reg base has index scale disp ++ rest
      ≡ prefix_16 (size_of w)
        ++ (put_rex (rex_mem w reg base has index) ((size_of w == 1) && is_low_byte reg)
            ++ opcode_of (code_of o) (size_of w)
              ∷ (mem_operand reg base has index scale disp ++ rest))
unfolding encode_mem
encoded o w reg base has index scale disp rest =
    regroup (prefix_16 (size_of w))
      (put_rex (rex_mem w reg base has index) ((size_of w == 1) && is_low_byte reg))
      (opcode_of (code_of o) (size_of w) ∷ mem_operand reg base has index scale disp) rest

-- An instruction of an operation and a width on a register and memory is read back with the base
-- register, the index register with its scale of 1, 2, 4 or 8 where there is one, and the
-- displacement of 32 bits, whatever follows it. The numbers of the registers have four bits, the
-- index is not the stack pointer, and LEA for bytes, which there is not, is left out.
pub read_insn-encode_mem :
    (o : Op) (w : Width) (reg base : ℕ) (has : Bool) (index k : ℕ) (disp : ℤ) (rest : List ℕ)
    → encodable o w ≡ true
    → reg < 16
    → base < 16
    → index < 16
    → (has ≡ true → index ≢ 4)
    → k < 4
    → IsI32 disp
    → read_insn (encode_mem (code_of o) (size_of w) reg base has index (2 ^ k) disp ++ rest)
      ≡ some (
        record {
          op = o;
          size = size_of w;
          reg = reg;
          operand = at_base base (index_of has index (2 ^ k)) disp;
        },
        rest,
      )
unfolding Reads RexBits Form Says
read_insn-encode_mem o w reg base has index k disp rest ok hreg hb hi ne hk range =
    let byte = opcode_of (code_of o) (size_of w) in
    let (is_op, other, plain, low) = opcode-Reads o w ok in
    let rex = rex_mem w reg base has index in
    let (small, bit_w, bit_r, bit_x, bit_b) =
      rex_mem-RexBits (size_of w == 8) (leb 8 reg) (has && leb 8 index) (leb 8 base) in
    let force = (size_of w == 1) && is_low_byte reg in
    let here = not (rex == 0) || force in
    let p : Prefix = record { short = size_of w == 2; has_rex = here; rex = rex } in
    let form = choose_mod-Form disp (base % 8) range in
    let (modrm, tail, bytes, field, found) =
      mem_bytes-Says p (size_of w) (reg % 8) base k disp (choose_mod disp (base % 8)) rest
        (omega arith) hb bit_b form has index hi ne bit_x in
    ap read_insn (encoded o w reg base has index (2 ^ k) disp rest)
    ∙ read_insn-prefixes w force rex byte (mem_operand reg base has index (2 ^ k) disp ++ rest)
        small other plain
    ∙ ap (λ (bs : List ℕ). read_op p (byte ∷ bs))
        (ap (λ (bs : List ℕ). bs ++ rest) (mem_operand-eq reg base has index k disp hk form.0)
          ∙ bytes)
    ∙ read_op_lem p o (size_of w) byte modrm reg (at_base base (index_of has index (2 ^ k)) disp)
        tail rest is_op (operand_size_lem w here rex byte low bit_w)
        (rw (field, in_range_lem p 2 reg hreg bit_r)
          (reg_name_lem p (size_of w) reg (forced (not (rex == 0)) force)))
        found
