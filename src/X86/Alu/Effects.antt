-- ===== src/X86/Alu/Effects.antt =====
-- The effect of one move of `emit_mov`, from its bytes.
use allang.Base.{
  ℕ, ◌+◌, ◌-◌, ◌*◌, ◌/◌, ◌%◌, ◌^◌, ◌<◌, ◌≡◌, ◌≢◌, refl, ap, ◌∙◌, arith, Bool, true, false, ◌&&◌,
  ◌||◌, Option, some, List, [], ◌∷◌, ◌++◌, leb, ◌==◌, if◌then◌else◌, ◌|||◌, ℤ, pos, negsuc, to_bits,
  ==_refl, length, ◌>>>◌,
}
use allang.Base.Bits.{bit_and_low}
use allang.X86.Encode.{put32, put64, prefix_16, rex_base, rex_bit}
use allang.X86.Encode.Disp.{bytes_32}
use allang.X86.Encode.Fields.{Width, size_of, read_prefixes-rex, bit}
use allang.X86.Machine.{Prefix, in_range, reg_name}
use allang.X86.Machine.Moves.{
  Regs, merged, write_reg, le_value, word_size, write_imm, run_after, run_move,
}

pub rexes :
    (l m : Bool) (tail : List ℕ)
    → l && m ≡ false
    → (if l then (rex_base ||| 1) ∷ [] else []) ++ ((if m then rex_base ∷ [] else []) ++ tail)
      ≡ (if l || m then (rex_base ||| rex_bit l 1) ∷ [] else []) ++ tail
rexes true true tail h = cc
rexes true false tail h = refl
rexes false true tail h = refl
rexes false false tail h = refl

pub le_put32 : (v : ℕ) → v < 2 ^ 32 → le_value (put32 v) ≡ v
unfolding le_value
le_put32 v h = omega (arith, bytes_32 v h)

le_value-append :
    (b0 b1 b2 b3 : ℕ) (bs : List ℕ)
    → le_value (b0 ∷ b1 ∷ b2 ∷ b3 ∷ bs) ≡ le_value (b0 ∷ b1 ∷ b2 ∷ b3 ∷ []) + 2 ^ 32 * le_value bs
unfolding le_value
le_value-append b0 b1 b2 b3 bs = omega arith

pub le_put64 : (v : ℕ) → v < 2 ^ 64 → le_value (put64 v) ≡ v
le_put64 v h =
    le_value-append _ _ _ _ (put32 (v >>> 32))
    ∙ rw (bit_and_low 32 v, le_put32 (v % 2 ^ 32) (omega arith), le_put32 (v >>> 32) (omega arith))
        (omega arith)

-- A write that has the effect meant.
unfoldable pub Moved : Option Regs → Regs → ℕ → ℕ → ℕ → Type 0
Moved run regs r size v =
    (after : Regs) × (run ≡ some after)
    × (after r ≡ merged size (regs r) v)
    × ((q : ℕ) → q ≢ r → after q ≡ regs q)

pub write-Moved :
    (regs : Regs) (r s u size v : ℕ)
    → merged s (regs r) u ≡ merged size (regs r) v
    → Moved (some (write_reg regs r s u)) regs r size v
unfolding Moved write_reg
write-Moved regs r s u size v e = (
  write_reg regs r s u,
  refl,
  rw (==_refl r) e,
  λ q ne. let other : (q == r) ≡ false = ground (arith, ne) in rw other refl,
)

pub run_move-rex :
    (w : Width) (has : Bool) (rex byte : ℕ) (tail : List ℕ) (regs : Regs)
    → rex < 16
    → (has ≡ false → rex ≡ 0)
    → (byte == 0x66) ≡ false
    → (byte / 16 == 4) ≡ false
    → run_move
        (prefix_16 (size_of w) ++ ((if has then (rex_base ||| rex) ∷ [] else []) ++ byte ∷ tail))
        regs
      ≡ run_after (record { short = size_of w == 2; has_rex = has; rex = rex }) (byte ∷ tail) regs
unfolding run_move
run_move-rex w has rex byte tail regs small blank other plain =
    ap (λ (prefixed : Prefix × List ℕ). run_after prefixed.0 prefixed.1 regs)
      (read_prefixes-rex w has rex byte tail small blank other plain)

module _ (p : Prefix) (low : ℕ) (tail : List ℕ) (regs : Regs) (h : low < 8) where
  pub run_b0 :
      run_after p ((0xb0 + low) ∷ tail) regs
      ≡ write_imm regs (reg_name p 1 (in_range p 0 low)) 1 tail
  unfolding run_after
  run_b0 =
      let here : leb 0xb0 (0xb0 + low) && leb (0xb0 + low) 0xb7 ≡ true = ground arith in
      let field : (0xb0 + low) % 8 ≡ low = omega arith in rw (here, field) refl

  pub run_b8 :
      run_after p ((0xb8 + low) ∷ tail) regs ≡ write_imm regs (in_range p 0 low) (word_size p) tail
  unfolding run_after
  run_b8 =
      let past : leb 0xb0 (0xb8 + low) && leb (0xb8 + low) 0xb7 ≡ false = ground arith in
      let here : leb 0xb8 (0xb8 + low) && leb (0xb8 + low) 0xbf ≡ true = ground arith in
      let field : (0xb8 + low) % 8 ≡ low = omega arith in rw (past, here, field) refl

pub write_imm-Moved :
    (regs : Regs) (r s size v : ℕ) (imm : List ℕ)
    → (length imm == s) ≡ true
    → merged s (regs r) (le_value imm) ≡ merged size (regs r) v
    → Moved (write_imm regs r s imm) regs r size v
unfolding write_imm
write_imm-Moved regs r s size v imm long e = rw long (write-Moved regs r s (le_value imm) size v e)

-- The effect that a run has, from an equation on it.
pub Moved-of :
    {run run' : Option Regs} (regs : Regs) (r size v : ℕ)
    → run ≡ run'
    → Moved run' regs r size v
    → Moved run regs r size v
Moved-of regs r size v e m = rw e m

pub rex_bit_one : (l : Bool) → rex_bit l 1 / 2 ^ 0 % 2 ≡ bit l
rex_bit_one true = refl
rex_bit_one false = refl

pub rex_bit-lt : (l : Bool) → rex_bit l 1 < 16
rex_bit-lt l = ground arith

pub rex_bit-blank : (l m : Bool) → l || m ≡ false → rex_bit l 1 ≡ 0
rex_bit-blank true m h = cc
rex_bit-blank false m h = refl

abbrev pub prefix_of : Width → Bool → Bool → Prefix
prefix_of w has l = record { short = size_of w == 2; has_rex = has; rex = rex_bit l 1 }

pub word_size_lem :
    (w : Width) (has l : Bool) → word_size (prefix_of w has l) ≡ (if size_of w == 2 then 2 else 4)
unfolding word_size
word_size_lem w has true = refl
word_size_lem w has false = refl

pub byte_value :
    (v : ℤ) (old : ℕ) → merged 1 old (le_value (to_bits 8 v ∷ [])) ≡ merged 1 old (to_bits 64 v)
unfolding merged le_value
byte_value (pos n) old = ground arith
byte_value (negsuc n) old = ground arith

pub short_value :
    (v : ℤ) (old : ℕ)
    → merged 2 old (le_value (to_bits 8 v ∷ to_bits 64 v / 2 ^ 8 % 2 ^ 8 ∷ []))
      ≡ merged 2 old (to_bits 64 v)
unfolding merged le_value
short_value (pos n) old = ground arith
short_value (negsuc n) old = ground arith

pub word_value :
    (v : ℤ) (old : ℕ) → merged 4 old (le_value (put32 (to_bits 32 v))) ≡ merged 4 old (to_bits 64 v)
unfolding merged
word_value (pos n) old = rw (le_put32 (n % 2 ^ 32) (omega arith)) (omega arith)
word_value (negsuc n) old = rw (le_put32 (2 ^ 32 - 1 - n % 2 ^ 32) (omega arith)) (omega arith)
