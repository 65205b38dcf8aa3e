-- ===== src/X86/Asm.antt =====
-- The state of alc/bin-x86_64.c: the code, the function that is being emitted, the labels and the
-- places to patch, counted in bytes. `report_err` counts as a report; what it prints is not
-- modelled. `print_int` is the `%d` of the C library.
mod Patch
pub mod Bytes
pub mod Store
pub mod Laws
use allang.Base.{
  ℕ, ◌+◌, ◌-◌, ◌*◌, Bool, true, false, ◌&&◌, Option, none, some, List, [], ◌∷◌, ◌++◌, map, leb, ltb,
  ◌==◌, if◌then◌else◌, get_or, set, take, length, u32, ℤ, bit_and, ◌|||◌, shl,
}
use allang.Str.{Str, str_eq}
use allang.Typesys.Reg.{Reg, Cond, eq, ne, hs, lo, mi, pl, vs, vc, hi, ls, ge, lt, gt, le, al, nv}
use allang.X86.Encode.{RegTables, reg_no, rsz, rex_bit, put_rex}
unfoldable pub use Patch.*

abbrev pub code_cap : ℕ
code_cap = 0x20000

abbrev pub prol_cap : ℕ
prol_cap = 256

abbrev pub label_cap : ℕ
label_cap = 1024

abbrev pub fixup_cap : ℕ
fixup_cap = 1024

abbrev pub key_cap : ℕ
key_cap = 96

abbrev pub cstr_cap : ℕ
cstr_cap = 0x2000

pub record Context : Type 0 where
  pub fn_name : Str
  pub fn_named : Bool

-- `contexts` are the callers' contexts, and `active` is the one that `active_ctx` points to.
pub record Asm : Type 0 where
  pub code : List ℕ
  pub entry_off : ℕ
  pub body : List ℕ
  pub prol : List ℕ
  pub emit_to_prol : Bool
  pub labels : List Label
  pub fixups : List Fixup
  pub fn_syms : List Label
  pub cstrs : List ℕ
  pub contexts : List Context
  pub active : Option ℕ
  pub reports : ℕ

unfoldable pub report : Asm → Asm
report a = record a { reports = a.reports + 1 }

unfoldable pub put8 : Asm → ℕ → Asm
unfolding report
put8 a b =
    if a.emit_to_prol
    then (if leb prol_cap (length a.prol) then report a else record a { prol = a.prol ++ b ∷ [] })
    else (if leb code_cap (length a.body) then report a else record a { body = a.body ++ b ∷ [] })

-- `put8` of each.
unfoldable pub put_bytes : Asm → List ℕ → Asm
unfolding put8
put_bytes a [] = a
put_bytes a (b ∷ bs) = put_bytes (put8 a b) bs

unfoldable pub cur_off : Asm → ℕ
cur_off a = if a.emit_to_prol then length a.prol else length a.body

abbrev pub no_context : Context
no_context = record { fn_name = []; fn_named = false }

unfoldable pub emit_fn_begin : Asm → ℕ → Asm
emit_fn_begin a context = record a {
  body = [];
  prol = [];
  emit_to_prol = false;
  contexts =
      set a.contexts context (record (get_or a.contexts context no_context) { fn_named = false });
  active = some context;
}

unfoldable pub settle_label : ℕ → Label → Label
settle_label delta l = if l.done then l else record l { at = u32 (l.at + delta); done = true }

unfoldable pub settle_fixup : ℕ → Fixup → Fixup
settle_fixup delta f = if f.done then f else record f { site = u32 (f.site + delta); done = true }

-- "main"
abbrev pub main_name : Str
main_name = b'm' ∷ b'a' ∷ b'i' ∷ b'n' ∷ []

-- The name of the function, which is `base` bytes into the code.
unfoldable pub name_fn : Asm → Context → ℕ → Asm
name_fn a context base =
    let named =
      if ltb (length a.fn_syms) label_cap
      then (record a {
        fn_syms =
            a.fn_syms
            ++ record { key = take (key_cap - 1) context.fn_name; at = base; done = false } ∷ [];
      })
      else a in
    if str_eq context.fn_name main_name then record named { entry_off = base } else named

unfoldable pub emit_fn_end : Asm → ℕ → Asm
unfolding report settle_label settle_fixup name_fn
emit_fn_end a context =
    let base = length a.code in
    let delta = base + length a.prol in
    let c = get_or a.contexts context no_context in
    let settled = record a {
      code = (a.code ++ a.prol) ++ a.body;
      labels = map (settle_label delta) a.labels;
      fixups = map (settle_fixup delta) a.fixups;
    } in
    let named = if c.fn_named then name_fn settled c base else settled in
    if ltb code_cap (base + length a.prol + length a.body)
    then report a
    else record named { body = []; prol = []; emit_to_prol = false }

unfoldable pub emit_fn : Asm → Str → Asm
emit_fn a fn_name = elim a.active [
  | none ↦ a
  | some c ↦ record a {
    contexts = set a.contexts c (record { fn_name = fn_name; fn_named = true });
  }
]

unfoldable pub emit_ret : Asm → Asm
unfolding put8
emit_ret a = put8 a 0xc3

-- The opcode, the fixup at what follows it, and four bytes to be patched.
unfoldable pub put_fixup : Asm → List ℕ → FixupKind → Str → ℕ → Asm
unfolding put_bytes cur_off
put_fixup a opcode kind key aux =
    let b = put_bytes a opcode in
    put_bytes
      (record b {
        fixups =
            b.fixups
            ++ record { key = key; site = cur_off b; aux = aux; kind = kind; done = false } ∷ [];
      })
      (0 ∷ 0 ∷ 0 ∷ 0 ∷ [])

-- `cond_cc`, which ends before AL and NV.
unfoldable pub cond_cc : Cond → Option ℕ
cond_cc eq = some 4
cond_cc ne = some 5
cond_cc hs = some 3
cond_cc lo = some 2
cond_cc mi = some 8
cond_cc pl = some 9
cond_cc vs = some 0
cond_cc vc = some 1
cond_cc hi = some 7
cond_cc ls = some 6
cond_cc ge = some 0xd
cond_cc lt = some 0xc
cond_cc gt = some 0xf
cond_cc le = some 0xe
cond_cc al = none
cond_cc nv = none

module _ (print_int : ℤ → Str) where
  unfoldable pub make_key : Str → Str → ℤ → Str
  make_key fn_name label index =
      take (key_cap - 1) (fn_name ++ b'.' ∷ (label ++ b'.' ∷ print_int index))

  unfoldable pub emit_label : Asm → Str → Str → ℤ → Asm
  unfolding report cur_off make_key
  emit_label a fn_name label index =
      if leb label_cap (length a.labels) then report a else (record a {
        labels =
            a.labels
            ++ record { key = make_key fn_name label index; at = cur_off a; done = false } ∷ [];
      })

  unfoldable pub emit_branch : Asm → Str → Str → ℤ → Asm
  unfolding report put_fixup make_key
  emit_branch a fn_name label index =
      if leb fixup_cap (length a.fixups)
      then report a
      else put_fixup a (0xe9 ∷ []) fx_jmp (make_key fn_name label index) 0

  -- Returns whether the branch was put.
  unfoldable pub emit_branch_cond : Asm → Cond → Str → Str → ℤ → Asm × Bool
  unfolding report put_fixup make_key
  emit_branch_cond a condition fn_name label index = elim (cond_cc condition) [
    | none ↦ (report a, false)
    | some cc' ↦
        if leb fixup_cap (length a.fixups)
        then (report a, false)
        else (put_fixup a (0x0f ∷ (0x80 + cc') ∷ []) fx_jcc (make_key fn_name label index) 0, true)
  ]

unfoldable pub emit_fn_call : Asm → Str → Asm
unfolding report put_fixup
emit_fn_call a s =
    if leb fixup_cap (length a.fixups)
    then report a
    else put_fixup a (0xe8 ∷ []) fx_call (take (key_cap - 1) s) 0

-- A literal in quotes goes without them.
abbrev unquoted : Str → Str
unquoted [] = []
unquoted (c ∷ s) = if leb 1 (length s) && (c == b'"') then take (length s - 1) s else c ∷ s

-- LEA of an address from the next instruction on.
unfoldable pub lea_rip : ℕ → ℕ → List ℕ
lea_rip sz r =
    put_rex (rex_bit (sz == 8) 8 ||| rex_bit (leb 8 r) 4) false
    ++ 0x8d ∷ (shl (bit_and r 7) 3 ||| 5) ∷ []

-- Without room for a fixup the opcode alone has been put.
unfoldable pub emit_string_lit : RegTables → Asm → Reg → Str → Asm
unfolding report put_bytes put_fixup lea_rip
emit_string_lit t a dst s =
    let p = unquoted s in
    let stored = record a { cstrs = a.cstrs ++ (p ++ 0 ∷ []) } in
    let lea = lea_rip (rsz dst) (reg_no t dst) in
    if ltb cstr_cap (length a.cstrs + length p + 1)
    then report a
    else if leb fixup_cap (length a.fixups)
    then report (put_bytes stored lea)
    else put_fixup stored lea fx_str [] (length a.cstrs)
