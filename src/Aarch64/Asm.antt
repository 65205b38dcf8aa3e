-- ===== src/Aarch64/Asm.antt =====
-- The state of alc/bin-aarch64.c: the code, the function that is being emitted, the labels and the
-- places to patch. `report_err` counts as a report; what it prints is not modelled. `print_int` is
-- the `%d` of the C library.
mod Patch
pub mod Laws
pub mod Settle
use allang.Base.{
  ◌&&◌, ℕ, ◌+◌, ◌-◌, ◌*◌, Bool, true, false, Option, none, some, List, [], ◌∷◌, ◌++◌, map, leb, ltb,
  ◌==◌, if◌then◌else◌, get_or, set, take, length, u32, ℤ,
}
use allang.Aarch64.Words.{◌|||◌, reg_no, cond_no}
use allang.Str.{Str, str_eq, str_len}
use allang.Typesys.Reg.{Reg, Cond}
unfoldable pub use Patch.*

abbrev pub code_cap : ℕ
code_cap = 0x2000

abbrev pub prol_cap : ℕ
prol_cap = 64

abbrev pub label_cap : ℕ
label_cap = 1024

abbrev pub fixup_cap : ℕ
fixup_cap = 1024

abbrev pub key_cap : ℕ
key_cap = 96

abbrev pub cstrs_cap : ℕ
cstrs_cap = 0x1000

pub record Context : Type 0 where
  pub fn_name : Str
  pub fn_named : Bool

-- `contexts` are the callers' contexts, and `active` is the one that `active_ctx` points to.
pub record Asm : Type 0 where
  pub code : List ℕ
  pub entry_off : ℕ
  pub body : List ℕ
  pub prol : List ℕ
  pub labels : List Label
  pub fixups : List Fixup
  pub fn_syms : List Label
  pub cstrs : List ℕ
  pub contexts : List Context
  pub active : Option ℕ
  pub reports : ℕ

unfoldable pub report : Asm → Asm
report a = record a { reports = a.reports + 1 }

unfoldable pub put_word : Asm → ℕ → Asm
unfolding report
put_word a w =
    if leb code_cap (length a.body) then report a else record a { body = a.body ++ w ∷ [] }

unfoldable pub put_prologue : Asm → ℕ → Asm
unfolding report
put_prologue a w =
    if leb prol_cap (length a.prol) then report a else record a { prol = a.prol ++ w ∷ [] }

-- `put_word` of each.
unfoldable pub put_words : Asm → List ℕ → Asm
unfolding put_word
put_words a [] = a
put_words a (w ∷ ws) = put_words (put_word a w) ws

abbrev pub no_context : Context
no_context = record { fn_name = []; fn_named = false }

unfoldable pub emit_fn_begin : Asm → ℕ → Asm
emit_fn_begin a context = record a {
  body = [];
  prol = [];
  contexts =
      set a.contexts context (record (get_or a.contexts context no_context) { fn_named = false });
  active = some context;
}

unfoldable pub settle_label : ℕ → Label → Label
settle_label delta l = if l.done then l else record l { word = u32 (l.word + delta); done = true }

unfoldable pub settle_fixup : ℕ → Fixup → Fixup
settle_fixup delta f = if f.done then f else record f { site = u32 (f.site + delta); done = true }

-- "main"
abbrev pub main_name : Str
main_name = b'm' ∷ b'a' ∷ b'i' ∷ b'n' ∷ []

-- The name of the function, which is `base` words into the code.
unfoldable pub name_fn : Asm → Context → ℕ → Asm
name_fn a context base =
    let named =
      if ltb (length a.fn_syms) label_cap
      then (record a {
        fn_syms =
            a.fn_syms
            ++ record { key = take (key_cap - 1) context.fn_name; word = base; done = false } ∷ [];
      })
      else a in
    if str_eq context.fn_name main_name then record named { entry_off = u32 (base * 4) } else named

unfoldable pub emit_fn_end : Asm → ℕ → Asm
unfolding report settle_label settle_fixup name_fn
emit_fn_end a context =
    let base = length a.code in
    let delta = base + length a.prol in
    let c = get_or a.contexts context no_context in
    let settled = record a {
      code = (a.code ++ a.prol) ++ a.body;
      labels = map (settle_label delta) a.labels;
      fixups = map (settle_fixup delta) a.fixups;
    } in
    let named = if c.fn_named then name_fn settled c base else settled in
    if ltb code_cap (base + length a.prol + length a.body)
    then report a
    else record named { body = []; prol = [] }

unfoldable pub emit_fn : Asm → Str → Asm
emit_fn a fn_name = elim a.active [
  | none ↦ a
  | some c ↦ record a {
    contexts = set a.contexts c (record { fn_name = fn_name; fn_named = true });
  }
]

unfoldable pub emit_ret : Asm → Asm
emit_ret a = put_word a 0xd65f03c0

-- The fixup that is noted, and the word to be patched put; without room for it, neither.
unfoldable pub put_fixup : Asm → Fixup → ℕ → Asm
unfolding report
put_fixup a fx w =
    if leb fixup_cap (length a.fixups)
    then report a
    else put_word (record a { fixups = a.fixups ++ fx ∷ [] }) w

module _ (print_int : ℤ → Str) where
  unfoldable pub make_key : Str → Str → ℤ → Str
  make_key fn_name label index =
      take (key_cap - 1) (fn_name ++ b'.' ∷ (label ++ b'.' ∷ print_int index))

  unfoldable pub emit_label : Asm → Str → Str → ℤ → Asm
  unfolding report
  emit_label a fn_name label index =
      if leb label_cap (length a.labels) then report a else (record a {
        labels =
            a.labels
            ++ record { key = make_key fn_name label index; word = length a.body; done = false }
              ∷ [];
      })

  unfoldable pub emit_branch : Asm → Str → Str → ℤ → Asm
  emit_branch a fn_name label index =
      put_fixup a
        (record {
          key = make_key fn_name label index;
          site = length a.body;
          aux = 0;
          kind = fx_branch;
          done = false;
        })
        0x14000000

  -- Every condition of `cond_t` is in the table, so the first guard never holds.
  unfoldable pub emit_branch_cond : Asm → Cond → Str → Str → ℤ → Asm
  emit_branch_cond a condition fn_name label index =
      put_fixup a
        (record {
          key = make_key fn_name label index;
          site = length a.body;
          aux = 0;
          kind = fx_cond;
          done = false;
        })
        (0x54000000 ||| cond_no condition)

unfoldable pub emit_fn_call : Asm → Str → Asm
emit_fn_call a s =
    put_fixup a
      (record {
        key = take (key_cap - 1) s;
        site = length a.body;
        aux = 0;
        kind = fx_call;
        done = false;
      })
      0x94000000

-- A literal in quotes goes without them.
abbrev unquoted : Str → Str
unquoted [] = []
unquoted (c ∷ s) = if leb 1 (length s) && (c == b'"') then take (length s - 1) s else c ∷ s

unfoldable pub emit_string_lit : Asm → Reg → Str → Asm
unfolding report
emit_string_lit a dst s =
    let p = unquoted s in
    let stored = record a { cstrs = a.cstrs ++ (p ++ 0 ∷ []) } in
    if ltb cstrs_cap (length a.cstrs + length p + 1)
    then report a
    else (put_fixup stored
        (record {
          key = [];
          site = length a.body;
          aux = length a.cstrs;
          kind = fx_str;
          done = false;
        })
        (0x10000000 ||| reg_no dst))
