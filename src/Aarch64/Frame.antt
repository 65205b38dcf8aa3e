-- ===== src/Aarch64/Frame.antt =====
-- `emit_fn_prologue_epilogue` of alc/bin-aarch64.c: the registers that a function saves. Sizes of
-- frames are those that an `int` holds.
use allang.Base.{
  ℕ, zero, suc, ◌+◌, ◌-◌, ◌*◌, ◌/◌, Bool, not, ◌&&◌, ◌||◌, List, [], ◌∷◌, ◌++◌, leb, ltb, ◌==◌,
  if◌then◌else◌, ℤ, pos, neg_ℤ, to_bits, bit_and,
}
use allang.Aarch64.Asm.{Asm, put_prologue, put_words, report}
use allang.Aarch64.Memory.{stp_word}
use allang.Aarch64.Words.{shl, ◌|||◌}

-- The fields of `parser_context` that are read.
pub record FnUse : Type 0 where
  pub calls_fn : Bool
  pub max_nreg_count : ℕ
  pub stack_size : ℕ

-- `ALIGN_TO(n, 16)`
abbrev pub align16 : ℕ → ℕ
align16 n = (n + 15) / 16 * 16

abbrev pub callee_start : ℕ
callee_start = 19

unfoldable pub addsub_imm64 : ℕ → ℕ → ℕ → ℕ → ℕ
addsub_imm64 base rd rn imm = base ||| shl (bit_and imm 0xfff) 10 ||| shl rn 5 ||| rd

unfoldable pub str_imm9_word : ℕ → ℕ → ℕ → ℤ → ℕ
str_imm9_word base rt rn imm_bytes =
    base ||| shl (bit_and (to_bits 32 imm_bytes) 0x1ff) 12 ||| shl rn 5 ||| rt

unfoldable pub str_off64_word : ℕ → ℕ → ℕ → ℕ → ℕ
str_off64_word base rt rn imm_bytes =
    base ||| shl (bit_and (imm_bytes / 8) 0xfff) 10 ||| shl rn 5 ||| rt

-- The words of the prologue, those of the epilogue, and the load that is put last.
pub record Saves : Type 0 where
  pub prologue : List ℕ
  pub epilogue : List ℕ
  pub deferred : List ℕ

abbrev pub no_saves : Saves
no_saves = record { prologue = []; epilogue = []; deferred = [] }

-- A store of the prologue with its load, before those that follow.
abbrev pub save : ℕ → ℕ → Saves → Saves
save w v rest = record rest { prologue = w ∷ rest.prologue; epilogue = v ∷ rest.epilogue }

-- The single register that is left.
unfoldable pub save_one : ℕ → ℕ → Saves
unfolding str_imm9_word str_off64_word
save_one stack_size off =
    if off == 0
    then save (str_imm9_word 0xf8000c00 callee_start 31 (neg_ℤ (pos stack_size)))
        (str_imm9_word 0xf8400400 callee_start 31 (pos stack_size)) no_saves
    else save (str_off64_word 0xf9000000 callee_start 31 off)
        (str_off64_word 0xf9400000 callee_start 31 off) no_saves

-- The loop over the pairs from `off`, and what follows it. `remaining` goes down by two.
unfoldable pub save_pairs : ℕ → ℕ → ℕ → Saves
unfolding save_one
save_pairs stack_size zero off = no_saves
save_pairs stack_size (suc zero) off = save_one stack_size off
save_pairs stack_size (suc (suc remaining)) off =
    save
      (stp_word 0xa9000000 (callee_start + remaining + 1) (callee_start + remaining) 31 (pos off))
      (stp_word 0xa9400000 (callee_start + remaining + 1) (callee_start + remaining) 31 (pos off))
      (save_pairs stack_size remaining (off + 16))

-- The first pair, which is the frame's where there is one. Without objects on the stack it makes
-- the room.
unfoldable pub first_pair : ℕ → ℕ → ℕ → Saves → Saves
first_pair reg0 stack_size off rest =
    let reg1 = if reg0 == 29 then 30 else reg0 - 1 in
    if off == 0
    then (record rest {
      prologue = stp_word 0xa9800000 reg0 reg1 31 (neg_ℤ (pos stack_size)) ∷ rest.prologue;
      deferred = stp_word 0xa8c00000 reg0 reg1 31 (pos stack_size) ∷ [];
    })
    else save (stp_word 0xa9000000 reg0 reg1 31 (pos off))
        (stp_word 0xa9400000 reg0 reg1 31 (pos off)) rest

unfoldable pub save_all : ℕ → ℕ → Bool → ℕ → Saves
unfolding save_pairs first_pair
save_all stack_size off needs_fp regs_to_save =
    let rest = save_pairs stack_size (regs_to_save - 2) (off + 16) in
    if ltb 1 regs_to_save
    then first_pair (if needs_fp then 29 else callee_start + regs_to_save - 1) stack_size off rest
    else save_pairs stack_size regs_to_save off

-- The words of prologue and epilogue of a function with `regs_to_save` registers.
unfoldable pub frame_words : Bool → ℕ → ℕ → List ℕ × List ℕ
unfolding save_all addsub_imm64
frame_words needs_fp regs_to_save objs =
    let stack_size = align16 (regs_to_save * 8) + objs in
    let saves = save_all stack_size objs needs_fp regs_to_save in
    let down = if ltb 0 objs then addsub_imm64 0xd1000000 31 31 stack_size ∷ [] else [] in
    let up = if ltb 0 objs then addsub_imm64 0x91000000 31 31 stack_size ∷ [] else [] in
    let set_fp = if needs_fp then addsub_imm64 0x91000000 29 31 objs ∷ [] else [] in
    (down ++ (saves.prologue ++ set_fp), saves.epilogue ++ (saves.deferred ++ up))

put_prologues : Asm → List ℕ → Asm
put_prologues a [] = a
put_prologues a (w ∷ ws) = put_prologues (put_prologue a w) ws

unfoldable pub emit_fn_prologue_epilogue : Asm → FnUse → Asm
unfolding frame_words put_prologues
emit_fn_prologue_epilogue a pc =
    let cleared = record a { prol = [] } in
    let needs_fp = pc.calls_fn || ltb 0 pc.stack_size in
    let regs_to_save = pc.max_nreg_count + (if needs_fp then 2 else 0) in
    let words = frame_words needs_fp regs_to_save (align16 pc.stack_size) in
    if not pc.calls_fn && (pc.max_nreg_count == 0) && (pc.stack_size == 0)
    then cleared
    else if leb 28 (pc.max_nreg_count + callee_start)
    then report cleared
    else put_words (put_prologues cleared words.0) words.1
