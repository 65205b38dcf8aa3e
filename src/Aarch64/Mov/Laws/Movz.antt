-- ===== src/Aarch64/Mov/Laws/Movz.antt =====
-- The MOVZ branch: the first word clears the register, and each further word puts one lane.
use allang.Base.{
  ℕ, zero, suc, ◌+◌, ◌*◌, ◌^◌, ◌<◌, ◌≤◌, ◌≡◌, inl, inr, ◌∙◌, refl, ap, Bool, true, false, arith,
  ltb, leb, ◌==◌, if◌then◌else◌, ◌&&◌, Bool-cases, ◌∷◌, ◌>>>◌,
}
use allang.Base.Bits.{bit_and_low}
use allang.Aarch64.Machine.{Regs, run_moves, move_wide, is_move_wide, all_move_wide}
use allang.Aarch64.Mov.{chunk_at, movz_from, or_single}
use allang.Aarch64.Mov.Fields.{move_wide-mov_word, mov_word-is_move_wide}
use allang.Aarch64.Words.{mov_word, op_movz, op_movk}

abbrev pub lanes_of : ℕ → ℕ
lanes_of sf = if sf == 0 then 2 else 4

pub chunk_at-lt : (uv lane : ℕ) → chunk_at uv lane < 2 ^ 16
chunk_at-lt uv lane = rw (bit_and_low 16 (uv >>> (lane * 16))) (omega arith)

-- One lane more, when it has just been put.
pub lane_put :
    (f : ℕ → ℕ) (own : Bool) (j lane left old v : ℕ)
    → v ≡ (if own && (j == lane) then f lane else old)
    → (if own && (leb (lane + 1) j && ltb j (lane + 1 + left)) then f j else v)
      ≡ (if own && (leb lane j && ltb j (lane + suc left)) then f j else old)
lane_put f true j lane left old v e = elim (Bool-cases (j == lane)) [
  | inl same ↦ let same' : j ≡ lane = ground (arith, same) in ground (arith, e, ap f same')
  | inr other ↦ ground (arith, e)
]
lane_put f false j lane left old v e = e

module _ (sf rd uv : ℕ) (hsf : sf < 2) (hrd : rd < 32) where
  -- A MOVK of the chunk of a lane.
  pub movk_step :
      (regs : Regs) (lane r j : ℕ)
      → lane < lanes_of sf
      → ((i : ℕ) → 1 < i → sf ≡ 0 → regs rd i ≡ 0)
      → move_wide (mov_word sf op_movk lane (chunk_at uv lane) rd) regs r j
        ≡ (if (r == rd) && (j == lane) then chunk_at uv lane else regs r j)
  movk_step regs lane r j low upper =
      move_wide-mov_word sf 3 lane (chunk_at uv lane) rd hsf (omega arith) (ground arith)
        (chunk_at-lt uv lane) hrd regs r j
      ∙ ground (arith, upper j)

  move_valid :
      (lane imm : ℕ)
      → imm < 2 ^ 16
      → lane < lanes_of sf
      → (b : Bool)
      → is_move_wide (mov_word sf (if b then op_movk else op_movz) lane imm rd) && true ≡ true
  move_valid lane imm small low true =
      rw
        (mov_word-is_move_wide sf 3 lane imm rd hsf (omega arith) (ground arith) small hrd
          (omega arith) (ground arith))
        refl
  move_valid lane imm small low false =
      rw
        (mov_word-is_move_wide sf 2 lane imm rd hsf (omega arith) (ground arith) small hrd
          (omega arith) (ground arith))
        refl

  -- What the loop leaves, from a lane on, when the register has been cleared from there.
  movz_from-run :
      (left lane : ℕ) (regs : Regs)
      → lane + left ≤ lanes_of sf
      → ((i : ℕ) → lane ≤ i → regs rd i ≡ 0)
      → ((i : ℕ) → 1 < i → sf ≡ 0 → regs rd i ≡ 0)
      → (r j : ℕ)
      → run_moves (movz_from sf rd uv left lane true) regs r j
        ≡ (if (r == rd) && (leb lane j && ltb j (lane + left)) then chunk_at uv j else regs r j)
  unfolding movz_from run_moves
  movz_from-run zero lane regs h cleared upper r j = ground arith
  movz_from-run (suc left) lane regs h cleared upper r j =
      let chunk_same : (i : ℕ) → i ≡ lane → chunk_at uv i ≡ chunk_at uv lane =
        λ i e. ap (chunk_at uv) e in
      elim (Bool-cases (chunk_at uv lane == 0)) [
        | inl blank ↦ rw blank (
            movz_from-run left (lane + 1) regs (omega arith) (λ i k. cleared i (omega arith)) upper
              r j
            ∙ ground (arith, cleared lane, chunk_same j, blank))
        | inr chunk ↦
            let regs' = move_wide (mov_word sf op_movk lane (chunk_at uv lane) rd) regs in
            let step = λ (r' : ℕ) (j' : ℕ). movk_step regs lane r' j' (ground arith) upper in
            rw chunk (
              movz_from-run left (lane + 1) regs' (omega arith)
                (λ i k. ground (arith, step rd i, cleared i))
                (λ i k z. ground (arith, step rd i, upper i)) r j
              ∙ lane_put (chunk_at uv) (r == rd) j lane left (regs r j) (regs' r j) (step r j))
      ]

  movz_put :
      (regs : Regs) (r j : ℕ)
      → move_wide (mov_word sf op_movz 0 (chunk_at uv 0) rd) regs r j
        ≡ (if r == rd then (if j == 0 then chunk_at uv 0 else 0) else regs r j)
  movz_put regs r j =
      move_wide-mov_word sf 2 0 (chunk_at uv 0) rd hsf (omega arith) (omega arith)
        (chunk_at-lt uv 0) hrd regs r j
      ∙ ground arith

  -- The first lane is always put, and clears the others.
  first_always :
      (left : ℕ)
      → movz_from sf rd uv (suc left) 0 false
        ≡ mov_word sf op_movz 0 (chunk_at uv 0) rd ∷ movz_from sf rd uv left 1 true
  unfolding movz_from
  first_always left = elim (Bool-cases (chunk_at uv 0 == 0)) [
    | inl e ↦ rw e refl
    | inr e ↦ rw e refl
  ]

  -- All of the MOVZ branch, whatever the register held.
  pub movz_run :
      (left : ℕ) (regs : Regs) (r j : ℕ)
      → suc left ≡ lanes_of sf
      → j < 4
      → run_moves
          (or_single (mov_word sf op_movz 0 0 rd) (movz_from sf rd uv (suc left) 0 false))
          regs
          r
          j
        ≡ (if r == rd then (if ltb j (lanes_of sf) then chunk_at uv j else 0) else regs r j)
  unfolding run_moves
  movz_run left regs r j all h =
      let regs' = move_wide (mov_word sf op_movz 0 (chunk_at uv 0) rd) regs in
      let step = λ (r' : ℕ) (j' : ℕ). movz_put regs r' j' in
      let zeroth : j ≡ 0 → chunk_at uv j ≡ chunk_at uv 0 = λ e. ap (chunk_at uv) e in
      rw (first_always left) (
        movz_from-run left 1 regs' (omega arith) (λ i k. ground (arith, step rd i))
          (λ i k z. ground (arith, step rd i)) r j
        ∙ ground (arith, step r j, zeroth))

  pub movz_from-all_move_wide :
      (left lane : ℕ) (initialized : Bool)
      → lane + left ≤ lanes_of sf
      → all_move_wide (movz_from sf rd uv left lane initialized) ≡ true
  unfolding movz_from all_move_wide
  movz_from-all_move_wide zero lane initialized h = refl
  movz_from-all_move_wide (suc left) lane initialized h =
      let rest = movz_from-all_move_wide left (lane + 1) true (omega arith) in
      elim (Bool-cases ((chunk_at uv lane == 0) && initialized)) [
        | inl e ↦ rw e rest
        | inr e ↦
            rw (e, rest)
              (move_valid lane (chunk_at uv lane) (chunk_at-lt uv lane) (ground arith) initialized)
      ]
