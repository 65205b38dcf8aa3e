-- ===== src/X86/Frame.antt =====
-- `emit_fn_prologue_epilogue` of alc/bin-x86_64.c: the registers that a function saves. Sizes of
-- frames are those that an `int` holds. `rt` are the numbers of the registers.
pub mod Enter
pub mod Laws
use allang.Base.{
  ℕ, zero, suc, ◌+◌, ◌%◌, ◌/◌, ◌*◌, Bool, true, false, List, [], ◌∷◌, ◌++◌, leb, ◌==◌,
  if◌then◌else◌, get_or, bit_and, pos, neg_ℤ,
}
use allang.Typesys.Reg.{stack, plain_reg}
use allang.X86.Alu.{rex_b}
use allang.X86.Asm.{Asm, put_bytes}
use allang.X86.Encode.{RegTables, encode_rr, encode_mem, alu_ri}

-- The fields of `parser_context` that are read.
pub record FnUse : Type 0 where
  pub calls_fn : Bool
  pub nreg_count : ℕ
  pub stack_size : ℕ

-- `ALIGN_TO(n, 16)`
abbrev pub align16 : ℕ → ℕ
align16 n = (n + 15) / 16 * 16

-- PUSH and POP of a register.
abbrev pub push_reg : ℕ → List ℕ
push_reg r = rex_b r ++ (0x50 + bit_and r 7) ∷ []

abbrev pub pop_reg : ℕ → List ℕ
pop_reg r = rex_b r ++ (0x58 + bit_and r 7) ∷ []

unfoldable pub has_locals : FnUse → Bool
has_locals pc = leb 1 pc.stack_size

unfoldable pub shadow_size : FnUse → ℕ
shadow_size pc = if pc.calls_fn then 32 else 0

-- How far the prologue moves the stack pointer below what it has pushed.
unfoldable pub frame_size : FnUse → ℕ
unfolding has_locals shadow_size
frame_size pc =
    let saved = pc.nreg_count + (if has_locals pc then 1 else 0) + (if pc.calls_fn then 1 else 0) in
    align16 (shadow_size pc + pc.stack_size) + (if saved % 2 == 1 then 8 else 0)

module _ (t : RegTables) where
  -- The registers from number `i` on, `n` of them, and the same in reverse.
  unfoldable pub push_regs : ℕ → ℕ → List ℕ
  push_regs zero i = []
  push_regs (suc n) i = push_reg (get_or t.callee_regs i 0) ++ push_regs n (suc i)

  unfoldable pub pop_regs : ℕ → List ℕ
  pop_regs zero = []
  pop_regs (suc i) = pop_reg (get_or t.callee_regs i 0) ++ pop_regs i

  unfoldable pub prologue : FnUse → List ℕ
  unfolding has_locals shadow_size frame_size push_regs encode_rr encode_mem alu_ri
  prologue pc =
      (if has_locals pc then push_reg 5 else [])
      ++ (push_regs pc.nreg_count 0
          ++ ((if has_locals pc
                then (if pc.calls_fn
                    then encode_mem 0x8d 8 5 4 false 0 1 (neg_ℤ (pos (shadow_size pc)))
                    else encode_rr 0x89 8 4 5)
                else [])
              ++ (if frame_size pc == 0
                  then []
                  else alu_ri t 5 (plain_reg stack 0 8) (pos (frame_size pc)))))

  unfoldable pub epilogue : FnUse → List ℕ
  unfolding has_locals frame_size pop_regs alu_ri
  epilogue pc =
      (if frame_size pc == 0 then [] else alu_ri t 0 (plain_reg stack 0 8) (pos (frame_size pc)))
      ++ (pop_regs pc.nreg_count ++ (if has_locals pc then pop_reg 5 else []))

  unfoldable pub emit_fn_prologue_epilogue : Asm → FnUse → Asm
  unfolding prologue epilogue put_bytes
  emit_fn_prologue_epilogue a pc =
      let before = put_bytes (record a { emit_to_prol = true }) (prologue pc) in
      put_bytes (record before { emit_to_prol = false }) (epilogue pc)
