-- ===== src/X86/Alu/Laws.antt =====
-- What `emit_mov` of alc/bin-x86_64.c does to the registers.
use allang.Base.{
  ℕ, ◌+◌, ◌/◌, ◌%◌, ◌^◌, ◌<◌, ◌≡◌, refl, sym, ap, ap₂, ◌∙◌, arith, Bool, true, false, not, ◌&&◌,
  ◌||◌, some, List, [], ◌∷◌, ◌++◌, leb, ◌==◌, if◌then◌else◌, inl, inr, Bool-cases, bit_and, ◌|||◌,
  bit_xor, ℤ, pos, negsuc, to_bits, to_signed, length, leb_ℤ, ltb_ℤ, eqb_ℤ,
}
use mathlib.Core.List.{append-nil}
use allang.Base.Bits.{bit_or_disjoint, bit_xor_self}
use allang.X86.Alu.{mov_imm, mov_short, mov_long, rex_b, rex_w, fits_i32}
use allang.X86.Encode.{
  encode_rr, put32, put64, prefix_16, rex_base, rex_bit, is_low_byte, opcode_of, modrm_rr,
}
use allang.X86.Encode.Disp.{to_bits-lt, IsI32, signed_32, is_zero}
use allang.X86.Encode.Fields.{
  Width, encodable, w8, w16, w32, w64, size_of, read_prefixes-rex, low3, in_range_lem, reg_name_lem,
  forced,
}
use allang.X86.Encode.RegReg.{read_insn-encode_rr, encoded}
use allang.X86.Machine.{
  Prefix, read_op, read_insn, read_prefixes, op_xor, in_reg, in_range, reg_name,
}
use allang.X86.Machine.Moves.{
  Regs, merged, write_reg, le_value, word_size, write_imm, write_signed, run_after, run_xor,
  xor_into, run_move,
}
use allang.X86.Alu.Effects.{
  rexes, le_put32, le_put64, Moved, write-Moved, run_move-rex, run_b0, run_b8, write_imm-Moved,
  Moved-of, rex_bit_one, rex_bit-lt, rex_bit-blank, prefix_of, word_size_lem, byte_value,
  short_value, word_value,
}

rex_b-eq :
    (l : Bool) (tail : List ℕ)
    → (if l then (rex_base ||| 1) ∷ [] else []) ++ tail
      ≡ (if l then (rex_base ||| rex_bit l 1) ∷ [] else []) ++ tail
rex_b-eq true tail = refl
rex_b-eq false tail = refl

in-IsI32 : (v : ℤ) → fits_i32 v ≡ true → IsI32 v
in-IsI32 (pos n) e = ground (arith, e)
in-IsI32 (negsuc n) e = ground (arith, e)

unsigned_value :
    (v : ℤ) (old : ℕ)
    → ltb_ℤ (pos 0) v && leb_ℤ v (pos 0xffffffff) ≡ true
    → merged 4 old (le_value (put32 (to_bits 32 v))) ≡ merged 8 old (to_bits 64 v)
unfolding merged
unsigned_value (pos n) old e =
    let low : n < 2 ^ 32 = ground (arith, e) in
    rw (le_put32 (n % 2 ^ 32) (omega arith)) (omega arith)
unsigned_value (negsuc n) old e = absurd (ground (arith, e))

encodable_xor : (w : Width) → encodable op_xor w ≡ true
encodable_xor w = grind arith

xor_plain :
    (w : Width)
    → ((opcode_of 0x31 (size_of w) == 0x66) ≡ false)
      × ((opcode_of 0x31 (size_of w) / 16 == 4) ≡ false)
xor_plain w = grind arith

rex_rr-lt : (one l : Bool) → (rex_bit one 8 ||| rex_bit l 4 ||| rex_bit l 1) < 16
rex_rr-lt one l = grind arith

run_after_xor :
    (w : Width) (p : Prefix) (tail : List ℕ) (regs : Regs)
    → run_after p (opcode_of 0x31 (size_of w) ∷ tail) regs
      ≡ run_xor (read_op p (opcode_of 0x31 (size_of w) ∷ tail)) regs
unfolding run_after
run_after_xor w8 p tail regs = refl
run_after_xor w16 p tail regs = refl
run_after_xor w32 p tail regs = refl
run_after_xor w64 p tail regs = refl

run_xor_lem :
    (size r : ℕ) (regs : Regs)
    → run_xor (some (record { op = op_xor; size = size; reg = r; operand = in_reg r }, [])) regs
      ≡ some (write_reg regs r size (bit_xor (regs r) (regs r)))
unfolding run_xor xor_into
run_xor_lem size r regs = refl

via_insn :
    (bs : List ℕ) (p : Prefix) (byte : ℕ) (tail : List ℕ) (regs : Regs)
    → read_prefixes bs ≡ (p, byte ∷ tail)
    → run_after p (byte ∷ tail) regs ≡ run_xor (read_op p (byte ∷ tail)) regs
    → run_move bs regs ≡ run_xor (read_insn bs) regs
unfolding run_move read_insn
via_insn bs p byte tail regs e f =
    ap (λ (x : Prefix × List ℕ). run_after x.0 x.1 regs) e
    ∙ f
    ∙ ap (λ (x : Prefix × List ℕ). run_xor (read_op x.0 x.1) regs) (sym e)

run_c7 :
    (p : Prefix) (tail : List ℕ) (regs : Regs)
    → run_after p (0xc7 ∷ tail) regs ≡ write_signed p regs tail
unfolding run_after
run_c7 p tail regs = refl

to_bits_64-lt : (d : ℤ) → to_bits 64 d < 2 ^ 64
to_bits_64-lt (pos n) = omega arith
to_bits_64-lt (negsuc n) = omega arith

module _ (regs : Regs) (r : ℕ) (h : r < 16) (v : ℤ) where
  exclusive : leb 8 r && is_low_byte r ≡ false
  exclusive = ground arith

  byte-Moved : Moved (run_move (mov_short 1 r v) regs) regs r 1 (to_bits 64 v)
  unfolding mov_short
  byte-Moved =
      let has = leb 8 r || is_low_byte r in
      let p = prefix_of w8 has (leb 8 r) in
      Moved-of regs r 1 (to_bits 64 v)
        (ap (λ bs. run_move bs regs)
            (rexes (leb 8 r) (is_low_byte r) ((0xb0 + bit_and r 7) ∷ to_bits 8 v ∷ []) exclusive)
          ∙ rw (low3 r) (
              run_move-rex w8 has (rex_bit (leb 8 r) 1) (0xb0 + r % 8) (to_bits 8 v ∷ []) regs
                (rex_bit-lt (leb 8 r)) (rex_bit-blank (leb 8 r) (is_low_byte r)) (ground arith)
                (ground arith))
          ∙ run_b0 p (r % 8) (to_bits 8 v ∷ []) regs (omega arith)
          ∙ ap (λ q. write_imm regs q 1 (to_bits 8 v ∷ []))
              (ap (reg_name p 1) (in_range_lem p 0 r h (rex_bit_one (leb 8 r)))
                ∙ reg_name_lem p 1 r (forced (leb 8 r) (is_low_byte r))))
        (write_imm-Moved regs r 1 1 (to_bits 64 v) (to_bits 8 v ∷ []) refl (byte_value v (regs r)))

  -- A move of two or four bytes, or of four into eight.
  word-Moved :
      (w : Width) (s size : ℕ) (imm : List ℕ)
      → (if size_of w == 2 then 2 else 4) ≡ s
      → (length imm == s) ≡ true
      → merged s (regs r) (le_value imm) ≡ merged size (regs r) (to_bits 64 v)
      → Moved
          (run_move (prefix_16 (size_of w) ++ (rex_b r ++ (0xb8 + bit_and r 7) ∷ imm)) regs)
          regs
          r
          size
          (to_bits 64 v)
  word-Moved w s size imm sized long same =
      let l = leb 8 r in
      let p = prefix_of w l l in
      Moved-of regs r size (to_bits 64 v)
        (ap (λ bs. run_move (prefix_16 (size_of w) ++ bs) regs)
            (rex_b-eq l ((0xb8 + bit_and r 7) ∷ imm))
          ∙ rw (low3 r) (
              run_move-rex w l (rex_bit l 1) (0xb8 + r % 8) imm regs (rex_bit-lt l) (λ e. rw e refl)
                (ground arith) (ground arith))
          ∙ run_b8 p (r % 8) imm regs (omega arith)
          ∙ ap₂ (λ q n. write_imm regs q n imm) (in_range_lem p 0 r h (rex_bit_one l))
              (word_size_lem w l l ∙ sized))
        (write_imm-Moved regs r s size (to_bits 64 v) imm long same)

  signed_bits : IsI32 v → to_bits 64 (to_signed 32 (le_value (put32 (to_bits 32 v)))) ≡ to_bits 64 v
  signed_bits small =
      ap (λ n. to_bits 64 (to_signed 32 n)) (le_put32 (to_bits 32 v) (to_bits-lt v))
      ∙ ap (to_bits 64) (signed_32 v small)

  write_signed-Moved :
      (p : Prefix)
      → in_range p 0 (r % 8) ≡ r
      → word_size p ≡ 8
      → IsI32 v
      → Moved
          (write_signed p regs ((0xc0 ||| bit_and r 7) ∷ put32 (to_bits 32 v)))
          regs
          r
          8
          (to_bits 64 v)
  unfolding write_signed
  write_signed-Moved p named sized small =
      let sum : (0xc0 ||| bit_and r 7) ≡ 0xc0 + r % 8 =
        ap (λ n. 0xc0 ||| n) (low3 r) ∙ bit_or_disjoint 3 0xc0 (r % 8) refl (omega arith) in
      let from : leb 0xc0 (0xc0 + r % 8) ≡ true = ground arith in
      let to : leb (0xc0 + r % 8) 0xc7 ≡ true = ground arith in
      let field : (0xc0 + r % 8) % 8 ≡ r % 8 = omega arith in
      rw (sum, from, to, sized, field, named, signed_bits small)
        (write-Moved regs r 8 (to_bits 64 v) 8 (to_bits 64 v) refl)

  abbrev wide_prefix : Bool → Prefix
  wide_prefix l = record { short = false; has_rex = true; rex = if l then 9 else 8 }

  wide_range : (l : Bool) → leb 8 r ≡ l → in_range (wide_prefix l) 0 (r % 8) ≡ r
  wide_range true e = in_range_lem (wide_prefix true) 0 r h (rw e refl)
  wide_range false e = in_range_lem (wide_prefix false) 0 r h (rw e refl)

  wide_size : (l : Bool) → word_size (wide_prefix l) ≡ 8
  unfolding word_size
  wide_size true = refl
  wide_size false = refl

  -- The bytes after REX with W.
  wide_run :
      (l : Bool) (byte : ℕ) (tail : List ℕ)
      → (byte == 0x66) ≡ false
      → (byte / 16 == 4) ≡ false
      → run_move ((rex_base ||| 8 ||| rex_bit l 1) ∷ byte ∷ tail) regs
        ≡ run_after (wide_prefix l) (byte ∷ tail) regs
  wide_run true byte tail other plain =
      run_move-rex w64 true 9 byte tail regs (omega arith) (λ e. cc) other plain
  wide_run false byte tail other plain =
      run_move-rex w64 true 8 byte tail regs (omega arith) (λ e. cc) other plain

  signed-Moved :
      IsI32 v
      → Moved
          (run_move (rex_w r ∷ 0xc7 ∷ (0xc0 ||| bit_and r 7) ∷ put32 (to_bits 32 v)) regs)
          regs
          r
          8
          (to_bits 64 v)
  signed-Moved small =
      let l = leb 8 r in
      Moved-of regs r 8 (to_bits 64 v)
        (wide_run l 0xc7 ((0xc0 ||| bit_and r 7) ∷ put32 (to_bits 32 v)) refl refl
          ∙ run_c7 (wide_prefix l) _ regs)
        (write_signed-Moved (wide_prefix l) (wide_range l refl) (wide_size l) small)

  wide-Moved :
      Moved
        (run_move (rex_w r ∷ (0xb8 + bit_and r 7) ∷ put64 (to_bits 64 v)) regs)
        regs
        r
        8
        (to_bits 64 v)
  wide-Moved =
      let l = leb 8 r in
      let imm = put64 (to_bits 64 v) in
      Moved-of regs r 8 (to_bits 64 v)
        (rw (low3 r) (wide_run l (0xb8 + r % 8) imm (ground arith) (ground arith))
          ∙ run_b8 (wide_prefix l) (r % 8) imm regs (omega arith)
          ∙ ap₂ (λ q n. write_imm regs q n imm) (wide_range l refl) (wide_size l))
        (write_imm-Moved regs r 8 8 (to_bits 64 v) imm refl
          (ap (merged 8 (regs r)) (le_put64 (to_bits 64 v) (to_bits_64-lt v))))

  -- XOR of the register with itself.
  run_move-xor :
      (w : Width)
      → run_move (encode_rr 0x31 (size_of w) r r ++ []) regs
        ≡ some (write_reg regs r (size_of w) (bit_xor (regs r) (regs r)))
  run_move-xor w =
      let l = leb 8 r in
      let rex = rex_bit (size_of w == 8) 8 ||| rex_bit l 4 ||| rex_bit l 1 in
      let has = not (rex == 0) || ((size_of w == 1) && (is_low_byte r || is_low_byte r)) in
      let p : Prefix = record { short = size_of w == 2; has_rex = has; rex = rex } in
      via_insn (encode_rr 0x31 (size_of w) r r ++ []) p (opcode_of 0x31 (size_of w))
        (modrm_rr r r ∷ []) regs
        (ap read_prefixes (encoded op_xor w r r [])
          ∙ read_prefixes-rex w has rex (opcode_of 0x31 (size_of w)) (modrm_rr r r ∷ [])
              (rex_rr-lt (size_of w == 8) l) (λ e. ground arith) (xor_plain w).0 (xor_plain w).1)
        (run_after_xor w p (modrm_rr r r ∷ []) regs)
      ∙ ap (λ insn. run_xor insn regs) (read_insn-encode_rr op_xor w r r [] (encodable_xor w) h h)
      ∙ run_xor_lem (size_of w) r regs

  xor-Moved :
      (w : Width) (size : ℕ)
      → merged (size_of w) (regs r) 0 ≡ merged size (regs r) 0
      → Moved (run_move (encode_rr 0x31 (size_of w) r r) regs) regs r size 0
  xor-Moved w size same =
      Moved-of regs r size 0
        (ap (λ bs. run_move bs regs) (sym (append-nil (encode_rr 0x31 (size_of w) r r)))
          ∙ run_move-xor w)
        (write-Moved regs r (size_of w) (bit_xor (regs r) (regs r)) size 0
          (ap (merged (size_of w) (regs r)) (bit_xor_self (regs r)) ∙ same))

  zero-Moved :
      (w : Width) → Moved (run_move (mov_imm (size_of w) r (pos 0)) regs) regs r (size_of w) 0
  unfolding mov_imm merged
  zero-Moved w8 = xor-Moved w8 1 refl
  zero-Moved w16 = xor-Moved w16 2 refl
  zero-Moved w32 = xor-Moved w32 4 refl
  zero-Moved w64 = xor-Moved w32 8 refl

  long-Moved : Moved (run_move (mov_long r v) regs) regs r 8 (to_bits 64 v)
  unfolding mov_long
  long-Moved = elim (Bool-cases (fits_i32 v)) [
    | inl e ↦ rw e (signed-Moved (in-IsI32 v e))
    | inr e ↦ elim (Bool-cases (ltb_ℤ (pos 0) v && leb_ℤ v (pos 0xffffffff))) [
      | inl f ↦
          rw (e, f)
            (word-Moved w32 4 8 (put32 (to_bits 32 v)) refl refl (unsigned_value v (regs r) f))
      | inr f ↦ rw (e, f) wide-Moved
    ]
  ]

  some-Moved :
      (w : Width)
      → eqb_ℤ v (pos 0) ≡ false
      → Moved (run_move (mov_imm (size_of w) r v) regs) regs r (size_of w) (to_bits 64 v)
  unfolding mov_imm mov_short
  some-Moved w8 e = rw e byte-Moved
  some-Moved w16 e = rw e (word-Moved w16 2 2 _ refl refl (short_value v (regs r)))
  some-Moved w32 e = rw e (word-Moved w32 4 4 _ refl refl (word_value v (regs r)))
  some-Moved w64 e = rw e long-Moved

-- `emit_mov` of a value of 64 bits to a register of one, two, four or eight bytes is one move that
-- leaves the value's low bytes in the register, with the upper half clear after four bytes and the
-- rest kept after fewer, and changes no other register.
pub mov_imm_lem :
    (w : Width) (regs : Regs) (r : ℕ) (v : ℤ)
    → r < 16
    → Moved (run_move (mov_imm (size_of w) r v) regs) regs r (size_of w) (to_bits 64 v)
mov_imm_lem w regs r v h = elim (Bool-cases (eqb_ℤ v (pos 0))) [
  | inl e ↦
      let zero_value : v ≡ pos 0 = is_zero v true (rw e refl) in
      rw zero_value (zero-Moved regs r h v w)
  | inr e ↦ some-Moved regs r h v w e
]
