-- ===== src/Parser/Types.antt =====
-- What the parser of alc/main.c asks of types. A check that fails reports an error once, by
-- `compile_err`, unless something else is said; it gives `false`.
pub mod Laws
use allang.Base.{
  ℕ, zero, suc, ◌+◌, ◌-◌, ◌*◌, ◌/◌, ◌%◌, ◌^◌, Bool, true, false, not, ◌&&◌, ◌||◌, Option, none,
  some, List, [], ◌∷◌, ltb, leb, ◌==◌, if◌then◌else◌, ℤ, pos, eqb_ℤ, u8, u32, shl,
}
use allang.Str.{Str, str_eq}
use allang.Typesys.Agg.{Regable, no_regable, value, reg, aggregate}
use allang.Typesys.Dtype.{
  TypeT, TypeKind, none_kind, fund, struct, union, Dtype, base_eq, dtype_tryget_addr, dtype_eq,
  dtype_check, dtype_reg_count,
}
use allang.Typesys.Reg.{Reg}

-- Two pointers to types, of which the first is not NULL.
unfoldable pub typecheck : Option TypeT → Option TypeT → Bool
typecheck none rtype = false
typecheck (some t) rtype = base_eq (some t) rtype

abbrev pub is_fund : TypeKind → Bool
is_fund fund = true
is_fund none_kind = false
is_fund struct = false
is_fund union = false

unfoldable pub typecheck_regable : Option TypeT → Regable → Bool
unfolding typecheck
typecheck_regable none r = false
typecheck_regable (some t) (reg r) = typecheck (some t) r.dtype.base
typecheck_regable (some t) (value v) = is_fund t.tag
typecheck_regable (some t) no_regable = true
typecheck_regable (some t) aggregate = true

-- Whether no error is reported.
unfoldable pub reg_typecheck : Reg → Reg → Bool
reg_typecheck lhs rhs = dtype_eq lhs.dtype rhs.dtype || dtype_check rhs.dtype lhs.dtype

abbrev pub same_sign : Bool → Bool → Bool
same_sign true r = r
same_sign false r = not r

-- Types of unlike signs go together where the signed one is larger.
abbrev pub signs_fit : TypeT → TypeT → Bool
signs_fit l r =
    let signed_size = if l.sign then l.size else r.size in
    let unsigned_size = if l.sign then r.size else l.size in
    same_sign l.sign r.sign || ltb unsigned_size signed_size

-- Of two different types; `none` where an `assert` fails.
abbrev pub both_signs : Option TypeT → Option TypeT → Option Bool
both_signs (some l) (some r) = some (signs_fit l r)
both_signs none _ = none
both_signs (some l) none = none

unfoldable pub arithmetic_typecheck : Reg → Reg → Option Bool
arithmetic_typecheck lhs rhs =
    if not (eqb_ℤ (dtype_tryget_addr lhs.dtype) (dtype_tryget_addr rhs.dtype))
    then some false
    else if base_eq lhs.dtype.base rhs.dtype.base
    then some true
    else both_signs lhs.dtype.base rhs.dtype.base

-- A register whose type is replaced.
abbrev pub retyped : Reg → Option TypeT → ℕ → Reg
retyped r base size = record r { dtype = record (r.dtype) { base = base }; rsize = size }

-- The types of numbers that are known while compiling, and `i32`.
module _ (type_comptime_int type_i32 : TypeT) where
  unfoldable pub resolve_comptime_default : Reg → Reg × Bool
  resolve_comptime_default r =
      if base_eq r.dtype.base (some type_comptime_int)
      then (retyped r (some type_i32) (u8 type_i32.size), true)
      else (r, false)

  -- `none` where the target's type is NULL and is read.
  unfoldable pub resolve_comptime_to : Reg → Reg → Option (Reg × Bool)
  resolve_comptime_to src target =
      if not (base_eq src.dtype.base (some type_comptime_int))
      then some (src, false)
      else elim target.dtype.base [
        | none ↦ none
        | some t ↦
            some (if is_fund t.tag then (retyped src (some t) target.rsize, true) else (src, false))
      ]

-- The bits that a number of 32 bits has; `__builtin_clz` is 32 without them.
unfoldable pub bit_count : ℕ → ℕ → ℕ
bit_count zero n = 0
bit_count (suc left) n = let more = bit_count left (n / 2) in if n == 0 then 0 else suc more

unfoldable pub clz : ℕ → ℕ
unfolding bit_count
clz n = 32 - bit_count 32 n

unfoldable pub next_pow2 : ℕ → ℕ
unfolding clz
next_pow2 n = if leb n 1 then 1 else shl 1 (32 - clz (n - 1))

abbrev pub max_reg_size : ℕ
max_reg_size = 16

abbrev pub rsize_of : ℕ → ℕ
rsize_of size =
    if ltb max_reg_size size then 0 else if size == 0 then 0 else u8 (next_pow2 (u32 size))

-- A size above that of a register is reported and gives 0. `none` where the type is NULL.
unfoldable pub get_rsize : Reg → Option ℕ
unfolding next_pow2
get_rsize r =
    if not (eqb_ℤ (dtype_tryget_addr r.dtype) (pos 0))
    then some 8
    else elim r.dtype.base [ none ↦ none | some t ↦ some (rsize_of t.size) ]

-- `nreg_count` and `max_nreg_count`, which have eight bits.
unfoldable pub context_add_nreg : ℕ × ℕ → Dtype → ℕ × ℕ
context_add_nreg (count, most) dtype =
    let more = u8 (count + dtype_reg_count dtype) in (more, if ltb most more then more else most)

-- The index of the member with a name; `names` are those of the members.
unfoldable pub index_from : List Str → Str → ℕ → Option ℕ
index_from [] name i = none
index_from (n ∷ names) name i = if str_eq name n then some i else index_from names name (i + 1)

unfoldable pub find_member : List Str → Str → Option ℕ
unfolding index_from
find_member names name = index_from names name 0
