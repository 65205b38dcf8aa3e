-- ===== src/X86/Frame/Enter.antt =====
-- What the processor does in a prologue: pushes, the frame pointer, and the stack pointer, after the
-- Intel manual.
use allang.Base.{
  ℕ, zero, suc, ◌+◌, ◌-◌, ◌^◌, ◌<◌, ◌≡◌, refl, ◌∙◌, arith, ◌==◌, ◌&&◌, true, false, leb, ltb,
  if◌then◌else◌, inl, inr, Bool-cases, List, [], ◌∷◌, ◌++◌, Option, none, some, get_or, drop,
  bit_and, pos, neg_ℤ, to_bits, negsuc, leb_ℤ,
}
use allang.Base.Bits.{bit_and_low}
use allang.Typesys.Reg.{stack, plain_reg}
use allang.X86.Asm.Store.{read32}
use allang.X86.Encode.{
  RegTables, alu_ri, encode_mem, mem_operand, choose_mod, put_disp, scale_bits, reg_no, rsz,
}
use allang.X86.Encode.Disp.{bytes_32}
use allang.X86.Frame.{push_reg}

-- The registers that have been pushed, how far RBP lies below them, where it is set, and how far RSP
-- lies below them.
pub record Entered : Type 0 where
  pub saved : List ℕ
  pub frame : Option ℕ
  pub moved : ℕ

abbrev pub at_entry : Entered
at_entry = record { saved = []; frame = none; moved = 0 }

-- PUSH; LEA of RBP from RSP with a byte below zero; SUB of a constant from RSP.
unfoldable step : List ℕ → Entered → Option (Entered × List ℕ)
step bytes e =
    let c = get_or bytes 0 0 in
    let d = get_or bytes 1 0 in
    let m = get_or bytes 2 0 in
    let i = get_or bytes 3 0 in
    let j = get_or bytes 4 0 in
    if leb 0x50 c && ltb c 0x58
    then some (record e { saved = e.saved ++ (c - 0x50) ∷ [] }, drop 1 bytes)
    else if (c == 0x41) && (leb 0x50 d && ltb d 0x58)
    then some (record e { saved = e.saved ++ (d - 0x50 + 8) ∷ [] }, drop 2 bytes)
    else if (c == 0x48) && (d == 0x8d) && (m == 0x6c) && (i == 0x24) && leb 0x80 j
    then some (record e { frame = some (e.moved + 0x100 - j) }, drop 5 bytes)
    else if (c == 0x48) && (d == 0x83) && (m == 0xec) && ltb i 0x80
    then some (record e { moved = e.moved + i }, drop 4 bytes)
    else if (c == 0x48) && (d == 0x81) && (m == 0xec) && ltb (read32 bytes 3) (2 ^ 31)
    then some (record e { moved = e.moved + read32 bytes 3 }, drop 7 bytes)
    else none

-- Instruction by instruction, fewer than `left`.
unfoldable pub enter : ℕ → List ℕ → Entered → Option Entered
unfolding step
enter zero bytes e = none
enter (suc left) [] e = some e
enter (suc left) (c ∷ bytes) e = elim (step (c ∷ bytes) e) [
  | none ↦ none
  | some s ↦ enter left s.1 s.0
]

pub enter-push_reg :
    (left r : ℕ) (rest : List ℕ) (e : Entered)
    → r < 16
    → enter (suc left) (push_reg r ++ rest) e
      ≡ enter left rest (record e { saved = e.saved ++ r ∷ [] })
unfolding enter step
enter-push_reg left r rest e low = elim (Bool-cases (leb 8 r)) [
  | inl h ↦
      let bits : bit_and r 7 ≡ r - 8 = bit_and_low 3 r ∙ ground (arith, low, h) in
      let push : leb 0x50 (0x50 + (r - 8)) && ltb (0x50 + (r - 8)) 0x58 ≡ true =
        ground (arith, low, h) in
      let number : 0x50 + (r - 8) - 0x50 + 8 ≡ r = ground (arith, h) in
      rw (h, bits) (rw (enter, step, push, number) refl)
  | inr h ↦
      let bits : bit_and r 7 ≡ r = bit_and_low 3 r ∙ ground (arith, low, h) in
      let push : leb 0x50 (0x50 + r) && ltb (0x50 + r) 0x58 ≡ true = ground (arith, h) in
      let number : 0x50 + r - 0x50 ≡ r = omega arith in
      rw (h, bits) (rw (enter, step, push, number) refl)
]

pub enter-lea :
    (left : ℕ) (rest : List ℕ) (e : Entered)
    → enter (suc left) (encode_mem 0x8d 8 5 4 false 0 1 (neg_ℤ (pos 32)) ++ rest) e
      ≡ enter left rest (record e { frame = some (e.moved + 0x100 - 0xe0) })
unfolding enter step encode_mem mem_operand choose_mod put_disp scale_bits
enter-lea left rest e = refl

pub enter-sub :
    (t : RegTables) (left n : ℕ) (e : Entered)
    → n < 2 ^ 31
    → enter (suc (suc left)) (alu_ri t 5 (plain_reg stack 0 8) (pos n)) e
      ≡ some (record e { moved = e.moved + n })
unfolding enter step alu_ri reg_no read32 rsz
enter-sub t left n e low = elim (Bool-cases (leb n 127)) [
  | inl h ↦
      let short : leb_ℤ (negsuc 127) (pos n) && leb_ℤ (pos n) (pos 127) ≡ true =
        ground (arith, h) in
      let bits : to_bits 8 (pos n) ≡ n = ground (arith, h) in
      let small : ltb n 0x80 ≡ true = ground (arith, h) in
      rw (short, bits) (rw (enter, step, small) refl)
  | inr h ↦
      let long : leb_ℤ (negsuc 127) (pos n) && leb_ℤ (pos n) (pos 127) ≡ false =
        ground (arith, h) in
      let bits : to_bits 32 (pos n) ≡ n = omega (arith, low) in
      let small : ltb n (2 ^ 31) ≡ true = ground (arith, low) in
      rw (long, bits) (rw (enter, step, bytes_32 n (omega (arith, low)), small) refl)
]
