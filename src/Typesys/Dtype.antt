-- ===== src/Typesys/Dtype.antt =====
-- alc/typesys.h, `dtype_t`: a base type under up to eight declarators, the outermost first.
pub mod View
pub mod Laws
use allang.Base.{
  ℕ, zero, suc, ◌+◌, ◌-◌, ◌*◌, ◌/◌, ◌%◌, ◌^◌, Bool, true, false, not, ◌&&◌, ◌||◌, Option, none,
  some, List, [], ltb, leb, ◌==◌, if◌then◌else◌, get_or, set, ℤ, pos, negsuc, eqb_ℤ, to_bits, u64,
  length,
}
use allang.Str.{Str}

pub data TypeKind : Type 0 where
  none_kind fund struct union : TypeKind

-- The fields of `type_t`, but for a struct's members. `addr` is the address of the object: two
-- pointers to types are equal where these are.
pub record TypeT : Type 0 where
  pub addr : ℕ
  pub size : ℕ
  pub align : ℕ
  pub tag : TypeKind
  pub sign : Bool
  pub name : Str

pub data DtypeKind : Type 0 where
  addr array check slice dk_none : DtypeKind

pub record Declarator : Type 0 where
  pub tag : DtypeKind
  pub amount : ℤ

-- `(declarator_t){0}`; DK_ADDR is 0.
abbrev pub zero_declarator : Declarator
zero_declarator = record { tag = addr; amount = pos 0 }

abbrev pub declarator_max : ℕ
declarator_max = 8

-- `base` is a pointer, and `none` is NULL. `decl` has `declarator_max` places.
pub record Dtype : Type 0 where
  pub base : Option TypeT
  pub decl : List Declarator
  pub decl_len : ℕ

abbrev pub kind_eq : DtypeKind → DtypeKind → Bool
kind_eq addr addr = true
kind_eq array array = true
kind_eq check check = true
kind_eq slice slice = true
kind_eq dk_none dk_none = true
kind_eq _ _ = false

abbrev pub base_eq : Option TypeT → Option TypeT → Bool
base_eq none none = true
base_eq (some a) (some b) = TypeT.addr a == TypeT.addr b
base_eq _ _ = false

-- `base && base->sign`
abbrev pub base_sign : Option TypeT → Bool
base_sign none = false
base_sign (some t) = t.sign

abbrev pub decl_at : Dtype → ℕ → Declarator
decl_at self i = get_or self.decl i zero_declarator

unfoldable pub dtype_full : Dtype → Bool
dtype_full self = leb declarator_max self.decl_len

unfoldable pub dtype_append : Dtype → Declarator → Dtype
unfolding dtype_full
dtype_append self d =
    if dtype_full self
    then self
    else record self { decl = set self.decl self.decl_len d; decl_len = self.decl_len + 1 }

-- `for (i = ...; i > 0; --i) decl[i] = decl[i - 1]`
shift_up : ℕ → List Declarator → List Declarator
shift_up zero decl = decl
shift_up (suc i) decl = shift_up i (set decl (suc i) (get_or decl i zero_declarator))

unfoldable pub dtype_wrap : Dtype → Declarator → Dtype
unfolding dtype_full shift_up
dtype_wrap self d = if dtype_full self then self else record self {
  decl = set (shift_up self.decl_len self.decl) 0 d;
  decl_len = self.decl_len + 1;
}

unfoldable pub dtype_outer : Dtype → Declarator
dtype_outer self = if self.decl_len == 0 then zero_declarator else decl_at self 0

-- `for (i = ...; i < decl_len; ++i) decl[i] = decl[i + 1]`, with the rounds that are left.
shift_down : ℕ → ℕ → List Declarator → List Declarator
shift_down zero i decl = decl
shift_down (suc left) i decl =
    shift_down left (i + 1) (set decl i (get_or decl (i + 1) zero_declarator))

-- The dtype afterwards, and what was taken off.
unfoldable pub dtype_unwrap : Dtype → Dtype × Declarator
unfolding shift_down
dtype_unwrap self =
    if self.decl_len == 0
    then (self, zero_declarator)
    else (let len = self.decl_len - 1 in
        (record self { decl = shift_down len 0 self.decl; decl_len = len }, decl_at self 0))

unfoldable pub dtype_unwrap_dup : Dtype → Dtype
unfolding dtype_unwrap
dtype_unwrap_dup self = (dtype_unwrap self).0

unfoldable pub dtype_empty : Dtype → Bool
dtype_empty self = self.decl_len == 0

unfoldable pub dtype_tryget : Dtype → DtypeKind → ℤ
unfolding dtype_outer
dtype_tryget self kind =
    let outer = dtype_outer self in if kind_eq outer.tag kind then outer.amount else pos 0

unfoldable pub dtype_tryget_arr : Dtype → ℤ
unfolding dtype_outer
dtype_tryget_arr self =
    let outer = dtype_outer self in if kind_eq outer.tag array then outer.amount else pos 0

unfoldable pub dtype_tryget_addr : Dtype → ℤ
dtype_tryget_addr self =
    let i = if ltb 0 self.decl_len && kind_eq (decl_at self 0).tag check then 1 else 0 in
    if leb self.decl_len i || not (kind_eq (decl_at self i).tag addr)
    then pos 0
    else (decl_at self i).amount

abbrev pub pointer_size : ℕ
pointer_size = 8

base_size : Option TypeT → Option ℕ
base_size none = none
base_size (some t) = some t.size

scaled : Option ℕ → ℤ → Option ℕ
scaled none n = none
scaled (some size) n = some (u64 (size * to_bits 64 n))

-- The branches of `dtype_size` on the outermost declarator; `stripped` is the size without it.
-- `none` is a read through a NULL base, or `unreachable`. The message for an array whose length is
-- not positive is not modelled.
unfoldable pub size_under : Option TypeT → Declarator → Option ℕ → Option ℕ
unfolding base_size scaled
size_under base outer stripped = elim outer.tag [
  | addr ↦ some pointer_size
  | array ↦ scaled (base_size base) outer.amount
  | check ↦ stripped
  | slice ↦ some (pointer_size * 2)
  | dk_none ↦ none
]

-- A check is looked through by a call on the dtype without it, so `decl_len` rounds are enough.
size_rounds : ℕ → Dtype → Option ℕ
unfolding base_size size_under dtype_outer dtype_empty dtype_unwrap_dup
size_rounds zero self = base_size self.base
size_rounds (suc left) self =
    let stripped = size_rounds left (dtype_unwrap_dup self) in
    if dtype_empty self
    then base_size self.base
    else size_under self.base (dtype_outer self) stripped

unfoldable pub dtype_size : Dtype → Option ℕ
unfolding size_rounds
dtype_size self = size_rounds self.decl_len self

-- Is there a slice among the `left` declarators from place `i`?
slice_from : Dtype → ℕ → ℕ → Bool
slice_from self zero i = false
slice_from self (suc left) i = kind_eq (decl_at self i).tag slice || slice_from self left (i + 1)

unfoldable pub dtype_reg_count : Dtype → ℕ
unfolding slice_from
dtype_reg_count self = if slice_from self self.decl_len 0 then 2 else 1

-- The body of the loop of `dtype_eq`: do the declarators agree?
unfoldable pub decl_agree : Declarator → Declarator → Bool
decl_agree a b = kind_eq a.tag b.tag && (kind_eq a.tag slice || eqb_ℤ a.amount b.amount)

eq_from : Dtype → Dtype → ℕ → ℕ → Bool
unfolding decl_agree
eq_from lhs rhs zero i = true
eq_from lhs rhs (suc left) i =
    decl_agree (decl_at lhs i) (decl_at rhs i) && eq_from lhs rhs left (i + 1)

unfoldable pub dtype_eq : Dtype → Dtype → Bool
unfolding eq_from
dtype_eq lhs rhs =
    (lhs.decl_len == rhs.decl_len) && eq_from lhs rhs lhs.decl_len 0 && base_eq lhs.base rhs.base

-- The second loop of `dtype_check`: past the checks that end `to`.
skip_checks : Dtype → ℕ → ℕ → ℕ
skip_checks to zero j = j
skip_checks to (suc left) j =
    let on = skip_checks to left (j + 1) in if kind_eq (decl_at to j).tag check then on else j

ends_match : Dtype → Dtype → ℕ → ℕ → ℕ → Bool
unfolding skip_checks
ends_match from to left i j =
    (i == from.decl_len) && (skip_checks to left j == to.decl_len) && base_eq from.base to.base

-- The first loop. Each round goes one place on in `to`, so `left` counts the places that are left.
check_from : Dtype → Dtype → ℕ → ℕ → ℕ → Bool
unfolding ends_match decl_agree
check_from from to zero i j = ends_match from to zero i j
check_from from to (suc left) i j =
    let skipped = check_from from to left i (j + 1) in
    let both = check_from from to left (i + 1) (j + 1) in
    if not (ltb i from.decl_len)
    then ends_match from to (suc left) i j
    else if kind_eq (decl_at to j).tag check && not (kind_eq (decl_at from i).tag check)
    then skipped
    else if decl_agree (decl_at from i) (decl_at to j)
    then both
    else false

unfoldable pub dtype_check : Dtype → Dtype → Bool
unfolding check_from
dtype_check from to = check_from from to to.decl_len 0 0
