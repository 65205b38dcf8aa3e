-- ===== src/Aarch64/Mov/Laws.antt =====
-- The machine's registers after the words of `emit_mov`.
mod Movz
mod Movn
use allang.Base.{
  ℕ, zero, suc, ◌+◌, ◌*◌, ◌/◌, ◌%◌, ◌^◌, ◌<◌, ◌≤◌, ◌≡◌, ◌≢◌, ◌⊎◌, inl, inr, ◌∙◌, refl, sym, ap,
  Bool, true, false, arith, ltb, leb, ◌==◌, if◌then◌else◌, ◌&&◌, ◌||◌, Bool-cases, List, [], ◌∷◌, ℤ,
  pos, negsuc, ltb_ℤ, to_bits, ◌>>>◌, ◌-◌,
}
use allang.Base.Bits.{bit_and_low}
use allang.Aarch64.Machine.{Regs, field, run_moves, all_move_wide, is_move_wide}
use allang.Aarch64.Mov.{
  chunk_at, movz_from, movn_from, or_single, count_other, mov_words, mov_sf, emit_mov_words,
}
use allang.Aarch64.Mov.Fields.{mov_word-is_move_wide}
use allang.Aarch64.Words.{mov_word, op_movn, op_movz, reg_no, is64}
use allang.Aarch64.Mov.Laws.Movz.{lanes_of, movz_run, movz_from-all_move_wide}
use allang.Aarch64.Mov.Laws.Movn.{movn_from-fresh, movn_from-all_move_wide}
use allang.Typesys.Reg.{Reg}

lanes_of-cases : (sf : ℕ) → (lanes_of sf ≡ 2) ⊎ (lanes_of sf ≡ 4)
lanes_of-cases sf = elim (Bool-cases (sf == 0)) [
  | inl e ↦ inl (rw e refl)
  | inr e ↦ inr (rw e refl)
]

module _ (sf rd uv : ℕ) (hsf : sf < 2) (hrd : rd < 32) where
  or_single-all_move_wide :
      (opc : ℕ)
      → opc ≢ 1
      → opc < 4
      → (ws : List ℕ) → all_move_wide ws ≡ true
      → all_move_wide (or_single (mov_word sf (opc * 2 ^ 29 + 0x12800000) 0 0 rd) ws) ≡ true
  unfolding all_move_wide
  or_single-all_move_wide opc real small [] h =
      rw
        (mov_word-is_move_wide sf opc 0 0 rd hsf small (omega arith) (omega arith) hrd real
          (λ e. omega arith))
        refl
  or_single-all_move_wide opc real small (w ∷ ws) h = h

  mov_words-run :
      (left : ℕ) (regs : Regs) (r j : ℕ)
      → suc left ≡ lanes_of sf
      → j < 4
      → run_moves (mov_words sf rd uv) regs r j
        ≡ (if r == rd then (if ltb j (lanes_of sf) then chunk_at uv j else 0) else regs r j)
  unfolding mov_words
  mov_words-run left regs r j all h =
      elim (Bool-cases
        (ltb (count_other uv 0xffff (lanes_of sf) 0) (count_other uv 0 (lanes_of sf) 0))) [
          | inl e ↦ rw e (
              movn_from-fresh sf rd uv hsf hrd (lanes_of sf) 0 regs r j (omega arith)
                (λ i k. ground arith) h)
          | inr e ↦ rw e (
              ap
                (λ n.
                  run_moves (or_single (mov_word sf op_movz 0 0 rd) (movz_from sf rd uv n 0 false))
                    regs r j)
                (sym all)
              ∙ movz_run sf rd uv hsf hrd left regs r j all h)
        ]

  mov_words-all_move_wide : all_move_wide (mov_words sf rd uv) ≡ true
  unfolding mov_words all_move_wide
  mov_words-all_move_wide =
      elim (Bool-cases
        (ltb (count_other uv 0xffff (lanes_of sf) 0) (count_other uv 0 (lanes_of sf) 0))) [
          | inl e ↦ rw e (
              or_single-all_move_wide 0 (omega arith) (omega arith)
                (movn_from sf rd uv (lanes_of sf) 0 false)
                (movn_from-all_move_wide sf rd uv hsf hrd (lanes_of sf) 0 false (omega arith)))
          | inr e ↦ rw e (
              or_single-all_move_wide 2 (omega arith) (omega arith)
                (movz_from sf rd uv (lanes_of sf) 0 false)
                (movz_from-all_move_wide sf rd uv hsf hrd (lanes_of sf) 0 false (omega arith)))
        ]

is64-lt : (r : Reg) → is64 r < 2
unfolding is64
is64-lt r = ground arith

mov_sf-lt : (dst : Reg) (value : ℤ) → mov_sf dst value < 2
mov_sf-lt dst value = ground (arith, is64-lt dst)

-- The 32-bit form is chosen only for a value whose upper lanes are 0.
narrow_value : (dst : Reg) (value : ℤ) → mov_sf dst value ≡ 0 → to_bits 64 value < 2 ^ 32
narrow_value dst (pos n) h = ground arith
narrow_value dst (negsuc n) h = ground arith

low_lanes :
    (u j : ℕ)
    → u < 2 ^ 32
    → j < 4
    → (if ltb j 2 then (u >>> (j * 16)) % 2 ^ 16 else 0) ≡ field u (j * 16) 16
low_lanes u zero low h = refl
low_lanes u (suc zero) low h = refl
low_lanes u (suc (suc zero)) low h = omega arith
low_lanes u (suc (suc (suc zero))) low h = omega arith
low_lanes u (suc (suc (suc (suc j)))) low h = omega arith

lane_value :
    (dst : Reg) (value : ℤ) (j : ℕ)
    → j < 4
    → (if ltb j (lanes_of (mov_sf dst value)) then chunk_at (to_bits 64 value) j else 0)
      ≡ field (to_bits 64 value) (j * 16) 16
lane_value dst value j h = elim (Bool-cases (mov_sf dst value == 0)) [
  | inl e ↦
      let narrow = narrow_value dst value (ground (arith, e)) in
      rw (e, bit_and_low 16 (to_bits 64 value >>> (j * 16)))
        (low_lanes (to_bits 64 value) j narrow h)
  | inr e ↦ rw (e, bit_and_low 16 (to_bits 64 value >>> (j * 16))) (ground arith)
]

-- What `emit_mov` puts are allocated move instructions, and whatever the registers held, executing
-- them in order sets the destination to the 64 bits of the value, lane by lane, and no other
-- register, when the destination is not register 31; in the 32-bit form too.
pub emit_mov_lem :
    (dst : Reg) (value : ℤ) (regs : Regs) (r j : ℕ)
    → reg_no dst < 31
    → j < 4
    → (all_move_wide (emit_mov_words dst value) ≡ true)
      × (run_moves (emit_mov_words dst value) regs r j
          ≡ (if r == reg_no dst then field (to_bits 64 value) (j * 16) 16 else regs r j))
unfolding emit_mov_words
emit_mov_lem dst value regs r j real h =
    let sf = mov_sf dst value in
    let uv = to_bits 64 value in
    let moved =
      mov_words-run sf (reg_no dst) uv (mov_sf-lt dst value) (omega arith) (lanes_of sf - 1) regs r
        j (ground arith) h in
    (
      mov_words-all_move_wide sf (reg_no dst) uv (mov_sf-lt dst value) (omega arith),
      moved ∙ rw (lane_value dst value j h) refl,
    )
