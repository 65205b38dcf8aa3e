-- ===== src/Parser/Cond/Laws.antt =====
-- The negation of a condition, by its value and in the code of both machines.
use allang.Base.{
  ℕ, ◌≡◌, refl, ap, ◌&&◌, arith, Bool, true, false, not, Option, none, some, ltb, leb, ◌==◌, ℤ,
  eqb_ℤ, to_bits, bit_xor,
}
use allang.Parser.Cond.{cond_flip, cond_eval}
use allang.Typesys.Reg.{Cond, eq, ne, hs, lo, mi, pl, vs, vc, hi, ls, ge, lt, gt, le, al, nv}
use allang.Aarch64.Words.{cond_no}
use allang.X86.Asm.{cond_cc}

-- A value that is negated, where there is one.
abbrev pub negated : Option Bool → Option Bool
negated none = none
negated (some b) = some (not b)

not-leb : (a b : ℕ) → ltb a b ≡ not (leb b a)
not-leb a b = ground arith

not-ltb : (a b : ℕ) → leb a b ≡ not (ltb b a)
not-ltb a b = ground arith

not-not : (b : Bool) → b ≡ not (not b)
not-not true = refl
not-not false = refl

-- What both machines do with the lowest bit of the code of a condition: it negates the rest.
unfoldable pub codes_negate : Cond → Bool
unfolding cond_flip cond_cc
codes_negate c = elim (cond_cc c) [
  | none ↦ cond_no (cond_flip c) == bit_xor (cond_no c) 1
  | some code ↦ elim (cond_cc (cond_flip c)) [
    | none ↦ false
    | some flipped ↦ (flipped == bit_xor code 1) && (cond_no (cond_flip c) == bit_xor (cond_no c) 1)
  ]
]

codes : (c : Cond) → (codes_negate c ≡ true) × (cond_flip (cond_flip c) ≡ c)
unfolding codes_negate cond_flip
codes eq = (refl, refl)
codes ne = (refl, refl)
codes hs = (refl, refl)
codes lo = (refl, refl)
codes mi = (refl, refl)
codes pl = (refl, refl)
codes vs = (refl, refl)
codes vc = (refl, refl)
codes hi = (refl, refl)
codes ls = (refl, refl)
codes ge = (refl, refl)
codes lt = (refl, refl)
codes gt = (refl, refl)
codes le = (refl, refl)
codes al = (refl, refl)
codes nv = (refl, refl)

eval-flip :
    (c : Cond) (lhs rhs : ℤ) → cond_eval (cond_flip c) lhs rhs ≡ negated (cond_eval c lhs rhs)
unfolding cond_eval cond_flip
eval-flip eq lhs rhs = refl
eval-flip ne lhs rhs = ap some (not-not (eqb_ℤ lhs rhs))
eval-flip hs lhs rhs = ap some (not-leb (to_bits 64 lhs) (to_bits 64 rhs))
eval-flip lo lhs rhs = ap some (not-ltb (to_bits 64 rhs) (to_bits 64 lhs))
eval-flip hi lhs rhs = ap some (not-ltb (to_bits 64 lhs) (to_bits 64 rhs))
eval-flip ls lhs rhs = ap some (not-leb (to_bits 64 rhs) (to_bits 64 lhs))
eval-flip ge lhs rhs = ap some (not-leb _ _)
eval-flip lt lhs rhs = ap some (not-ltb _ _)
eval-flip gt lhs rhs = ap some (not-ltb _ _)
eval-flip le lhs rhs = ap some (not-leb _ _)
eval-flip al lhs rhs = refl
eval-flip nv lhs rhs = refl
eval-flip mi lhs rhs = refl
eval-flip pl lhs rhs = refl
eval-flip vs lhs rhs = refl
eval-flip vc lhs rhs = refl

-- The flipped condition holds of two numbers exactly where the condition does not, where it can be
-- evaluated at all; and in the code of both machines, where it has one, it is the condition with the
-- lowest bit changed. Flipping it again gives the condition.
pub cond_flip_lem :
    (c : Cond) (lhs rhs : ℤ)
    → (cond_eval (cond_flip c) lhs rhs ≡ negated (cond_eval c lhs rhs))
      × (codes_negate c ≡ true)
      × (cond_flip (cond_flip c) ≡ c)
cond_flip_lem c lhs rhs = (eval-flip c lhs rhs, (codes c).0, (codes c).1)
