-- ===== src/Aarch64/Mov/Laws/Movn.antt =====
-- The MOVN branch: the first word sets the lanes that it does not put, and each further word puts
-- one lane.
use allang.Base.{
  ℕ, zero, suc, ◌+◌, ◌-◌, ◌^◌, ◌<◌, ◌≤◌, ◌≡◌, inl, inr, ◌∙◌, refl, ap, Bool, true, false, arith,
  ltb, leb, ◌==◌, if◌then◌else◌, ◌&&◌, ◌||◌, Bool-cases,
}
use allang.Base.Bits.{bit_and_low}
use allang.Aarch64.Machine.{Regs, run_moves, move_wide, is_move_wide, all_move_wide}
use allang.Aarch64.Mov.{chunk_at, movn_from, inverted, or_single}
use allang.Aarch64.Mov.Fields.{move_wide-mov_word, mov_word-is_move_wide}
use allang.Aarch64.Mov.Laws.Movz.{lanes_of, chunk_at-lt, movk_step, lane_put}
use allang.Aarch64.Words.{mov_word, op_movn, op_movk}

-- The other lanes, when the first word has just been put.
fresh_put :
    (f : ℕ → ℕ) (own : Bool) (sf lane left j old v imm : ℕ)
    → lane + suc left ≡ lanes_of sf
    → j < 4
    → (j < lane → f j ≡ 0xffff)
    → 0xffff - imm ≡ f lane
    → v ≡ (
        if own
        then (if (sf == 0) && ltb 1 j then 0 else if j == lane then 0xffff - imm else 0xffff)
        else old)
    → (if own && (leb (lane + 1) j && ltb j (lane + 1 + left)) then f j else v)
      ≡ (if own then (if ltb j (lanes_of sf) then f j else 0) else old)
fresh_put f true sf lane left j old v imm all h passed back e = elim (Bool-cases (j == lane)) [
  | inl same ↦ let same' : j ≡ lane = ground (arith, same) in ground (arith, e, ap f same', back)
  | inr other ↦ ground (arith, e, passed)
]
fresh_put f false sf lane left j old v imm all h passed back e = e

module _ (sf rd uv : ℕ) (hsf : sf < 2) (hrd : rd < 32) where
  inverted_lem : (chunk : ℕ) → chunk < 2 ^ 16 → inverted sf rd uv chunk ≡ 0xffff - chunk
  inverted_lem chunk h = bit_and_low 16 (2 ^ 32 - 1 - chunk) ∙ omega arith

  -- What the loop leaves, from a lane on, once the lanes from there are all ones.
  movn_from-run :
      (left lane : ℕ) (regs : Regs)
      → lane + left ≤ lanes_of sf
      → ((i : ℕ) → lane ≤ i → i < lanes_of sf → regs rd i ≡ 0xffff)
      → ((i : ℕ) → 1 < i → sf ≡ 0 → regs rd i ≡ 0)
      → (r j : ℕ)
      → run_moves (movn_from sf rd uv left lane true) regs r j
        ≡ (if (r == rd) && (leb lane j && ltb j (lane + left)) then chunk_at uv j else regs r j)
  unfolding movn_from run_moves
  movn_from-run zero lane regs h ones upper r j = ground arith
  movn_from-run (suc left) lane regs h ones upper r j =
      let chunk_same : (i : ℕ) → i ≡ lane → chunk_at uv i ≡ chunk_at uv lane =
        λ i e. ap (chunk_at uv) e in
      elim (Bool-cases (chunk_at uv lane == 0xffff)) [
        | inl blank ↦ rw blank (
            movn_from-run left (lane + 1) regs (omega arith) (λ i k. ones i (omega arith)) upper r j
            ∙ ground (arith, ones lane, chunk_same j, blank))
        | inr chunk ↦
            let regs' = move_wide (mov_word sf op_movk lane (chunk_at uv lane) rd) regs in
            let step = λ (r' : ℕ) (j' : ℕ).
              movk_step sf rd uv hsf hrd regs lane r' j' (ground arith) upper in
            rw chunk (
              movn_from-run left (lane + 1) regs' (omega arith)
                (λ i k l. ground (arith, step rd i, ones i))
                (λ i k z. ground (arith, step rd i, upper i)) r j
              ∙ lane_put (chunk_at uv) (r == rd) j lane left (regs r j) (regs' r j) (step r j))
      ]

  movn_put :
      (regs : Regs) (lane imm r j : ℕ)
      → imm < 2 ^ 16
      → lane < lanes_of sf
      → move_wide (mov_word sf op_movn lane imm rd) regs r j ≡ (
          if r == rd
          then (if (sf == 0) && ltb 1 j then 0 else if j == lane then 0xffff - imm else 0xffff)
          else regs r j)
  movn_put regs lane imm r j small low =
      move_wide-mov_word sf 0 lane imm rd hsf (omega arith) (ground arith) small hrd regs r j
      ∙ ground arith

  -- The loop before its first word: the lanes it has passed are all ones.
  pub movn_from-fresh :
      (left lane : ℕ) (regs : Regs) (r j : ℕ)
      → lane + left ≡ lanes_of sf
      → ((i : ℕ) → i < lane → chunk_at uv i ≡ 0xffff)
      → j < 4
      → run_moves
          (or_single (mov_word sf op_movn 0 0 rd) (movn_from sf rd uv left lane false))
          regs
          r
          j
        ≡ (if r == rd then (if ltb j (lanes_of sf) then chunk_at uv j else 0) else regs r j)
  unfolding movn_from run_moves
  movn_from-fresh zero lane regs r j all passed h =
      movn_put regs 0 0 r j (omega arith) (ground arith) ∙ ground (arith, passed j)
  movn_from-fresh (suc left) lane regs r j all passed h =
      let chunk_same : (i : ℕ) → i ≡ lane → chunk_at uv i ≡ chunk_at uv lane =
        λ i e. ap (chunk_at uv) e in
      elim (Bool-cases (chunk_at uv lane == 0xffff)) [
        | inl blank ↦ rw blank (
            movn_from-fresh left (lane + 1) regs r j (omega arith)
              (λ i k. ground (arith, passed i, chunk_same i, blank)) h)
        | inr chunk ↦
            let imm = inverted sf rd uv (chunk_at uv lane) in
            let bounded = chunk_at-lt uv lane in
            let low_bits = inverted_lem (chunk_at uv lane) bounded in
            let small : imm < 2 ^ 16 = ground (arith, low_bits) in
            let regs' = move_wide (mov_word sf op_movn lane imm rd) regs in
            let step = λ (r' : ℕ) (j' : ℕ). movn_put regs lane imm r' j' small (ground arith) in
            rw chunk (
              movn_from-run left (lane + 1) regs' (omega arith) (λ i k l. ground (arith, step rd i))
                (λ i k z. ground (arith, step rd i)) r j
              ∙ fresh_put (chunk_at uv) (r == rd) sf lane left j (regs r j) (regs' r j) imm all h
                  (passed j) (ground (arith, low_bits)) (step r j))
      ]

  move_valid :
      (lane chunk : ℕ)
      → chunk < 2 ^ 16
      → lane < lanes_of sf
      → (b : Bool)
      → is_move_wide (
            if b
            then mov_word sf op_movk lane chunk rd
            else mov_word sf op_movn lane (inverted sf rd uv chunk) rd)
          && true
        ≡ true
  move_valid lane chunk small low true =
      rw
        (mov_word-is_move_wide sf 3 lane chunk rd hsf (omega arith) (ground arith) small hrd
          (omega arith) (ground arith))
        refl
  move_valid lane chunk small low false =
      rw
        (mov_word-is_move_wide sf 0 lane (inverted sf rd uv chunk) rd hsf (omega arith)
          (ground arith) (ground (arith, inverted_lem chunk small)) hrd (omega arith)
          (ground arith))
        refl

  pub movn_from-all_move_wide :
      (left lane : ℕ) (initialized : Bool)
      → lane + left ≤ lanes_of sf
      → all_move_wide (movn_from sf rd uv left lane initialized) ≡ true
  unfolding movn_from all_move_wide
  movn_from-all_move_wide zero lane initialized h = refl
  movn_from-all_move_wide (suc left) lane initialized h =
      elim (Bool-cases (chunk_at uv lane == 0xffff)) [
        | inl e ↦
            rw e (movn_from-all_move_wide left (lane + 1) (initialized || false) (omega arith))
        | inr e ↦
            rw (e, movn_from-all_move_wide left (lane + 1) (initialized || true) (omega arith))
              (move_valid lane (chunk_at uv lane) (chunk_at-lt uv lane) (ground arith) initialized)
      ]
