-- ===== src/Parser/Cond.antt =====
-- Conditions in alc/main.c: their negation, and their value on numbers that are known.
pub mod Laws
use allang.Base.{
  ℕ, zero, suc, ◌+◌, ◌-◌, ◌%◌, Bool, true, false, not, Option, none, some, ltb, leb, ◌==◌,
  if◌then◌else◌, ℤ, ltb_ℤ, leb_ℤ, eqb_ℤ, to_bits, List, [], ◌∷◌, get_or,
}
use allang.Typesys.Reg.{Cond, eq, ne, hs, lo, mi, pl, vs, vc, hi, ls, ge, lt, gt, le, al, nv}

-- The enumerators of `cond_t` in their order, and the place of each.
abbrev pub conds : List Cond
conds = eq ∷ ne ∷ hs ∷ lo ∷ mi ∷ pl ∷ vs ∷ vc ∷ hi ∷ ls ∷ ge ∷ lt ∷ gt ∷ le ∷ al ∷ nv ∷ []

abbrev pub cond_value : Cond → ℕ
cond_value eq = 0
cond_value ne = 1
cond_value hs = 2
cond_value lo = 3
cond_value mi = 4
cond_value pl = 5
cond_value vs = 6
cond_value vc = 7
cond_value hi = 8
cond_value ls = 9
cond_value ge = 10
cond_value lt = 11
cond_value gt = 12
cond_value le = 13
cond_value al = 14
cond_value nv = 15

unfoldable pub cond_flip : Cond → Cond
cond_flip cond =
    if cond_value cond % 2 == 0
    then get_or conds (cond_value cond + 1) nv
    else get_or conds (cond_value cond - 1) nv

-- `none` is `unreachable`. The comparisons without a sign are those of the bits.
unfoldable pub cond_eval : Cond → ℤ → ℤ → Option Bool
cond_eval eq lhs rhs = some (eqb_ℤ lhs rhs)
cond_eval ne lhs rhs = some (not (eqb_ℤ lhs rhs))
cond_eval ge lhs rhs = some (leb_ℤ rhs lhs)
cond_eval lt lhs rhs = some (ltb_ℤ lhs rhs)
cond_eval gt lhs rhs = some (ltb_ℤ rhs lhs)
cond_eval le lhs rhs = some (leb_ℤ lhs rhs)
cond_eval hs lhs rhs = some (leb (to_bits 64 rhs) (to_bits 64 lhs))
cond_eval lo lhs rhs = some (ltb (to_bits 64 lhs) (to_bits 64 rhs))
cond_eval hi lhs rhs = some (ltb (to_bits 64 rhs) (to_bits 64 lhs))
cond_eval ls lhs rhs = some (leb (to_bits 64 lhs) (to_bits 64 rhs))
cond_eval al lhs rhs = some true
cond_eval nv lhs rhs = some false
cond_eval mi lhs rhs = none
cond_eval pl lhs rhs = none
cond_eval vs lhs rhs = none
cond_eval vc lhs rhs = none
