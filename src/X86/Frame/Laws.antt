-- ===== src/X86/Frame/Laws.antt =====
-- The stack in a function of alc/bin-x86_64.c.
use allang.Base.{
  ℕ, ◌+◌, pos, neg_ℤ, ◌*◌, ◌≡◌, Bool, true, false, ◌&&◌, ltb, if◌then◌else◌, List, [], ◌∷◌, ◌++◌,
  none, some, take, length,
}
use allang.Typesys.Reg.{stack, plain_reg}
use allang.X86.Encode.{RegTables, encode_mem, alu_ri}
use allang.X86.Frame.{push_reg, push_regs}
use allang.X86.Frame.Enter.{Entered}

-- The bytes that were pushed, with the return address, and those that RSP moved by then.
abbrev pub below_call : Entered → ℕ
below_call e = 8 + 8 * length e.saved + e.moved

-- Numbers of registers.
abbrev pub all_regs : List ℕ → Bool
all_regs [] = true
all_regs (r ∷ rs) = ltb r 16 && all_regs rs

module _ (t : RegTables) (known : all_regs t.callee_regs ≡ true) where
  -- The prologue of a function that calls others.
  abbrev shaped : Bool → ℕ → ℕ → List ℕ
  shaped locals nreg size =
      (if locals then push_reg 5 else [])
      ++ (push_regs t nreg 0
          ++ ((if locals then encode_mem 0x8d 8 5 4 false 0 1 (neg_ℤ (pos 32)) else [])
              ++ alu_ri t 5 (plain_reg stack 0 8) (pos size)))

  -- What it leaves of the stack.
  abbrev entered : Bool → ℕ → ℕ → Entered
  entered locals nreg size = record {
    saved = (if locals then 5 ∷ [] else []) ++ take nreg t.callee_regs;
    frame = if locals then some 32 else none;
    moved = size;
  }
