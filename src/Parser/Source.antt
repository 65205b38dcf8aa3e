-- ===== src/Parser/Source.antt =====
-- The state of the tokenizer of alc/main.c: the source, as `read_source` leaves it with one zero
-- byte behind its end, the place in it, and the current token. Positions count bytes from the
-- start. A read past the zero byte, which C leaves undefined, stops the run as `abort`.
use allang.Base.{
  ℕ, zero, suc, ◌+◌, ◌-◌, ◌%◌, ◌^◌, Bool, ◌||◌, List, ltb, ◌==◌, if◌then◌else◌, get_or, length,
  take, drop, Run, ok, abort, running,
}
use allang.Str.{Str}

-- `eob_t`
pub data Eob : Type 0 where
  eob_none end_of_block start_of_block : Eob

-- `token_t`; `data` and `end` are positions.
pub record Token : Type 0 where
  pub data_at : ℕ
  pub end_at : ℕ
  pub lineno : ℕ
  pub indent : ℕ
  pub eob : Eob

-- `src_t`, the globals `lineno`, `indent` and `eof`, and the fields of `parser_context` that the
-- tokenizer uses; `ctx_indent` is that of the context. A call of `compile_err` counts as a report.
pub record Lexer : Type 0 where
  pub text : List ℕ
  pub cur : ℕ
  pub lineno : ℕ
  pub indent : ℕ
  pub eof : Bool
  pub start_of_line : Bool
  pub end_of_line : Bool
  pub ended : Bool
  pub ctx_indent : ℕ
  pub token : Token
  pub reports : ℕ

-- `src->end`
abbrev pub src_end : Lexer → ℕ
src_end l = length l.text

-- A byte up to the zero behind the end.
abbrev pub byte_at : Lexer → ℕ → ℕ
byte_at l i = get_or l.text i 0

abbrev pub token_id : Lexer → Str
token_id l = take (l.token.end_at - l.token.data_at) (drop l.token.data_at l.text)

abbrev pub newline : ℕ
newline = 10

unfoldable pub src_advance : Lexer → Lexer
src_advance l = record l {
  lineno = if byte_at l l.cur == newline then (l.lineno + 1) % 2 ^ 16 else l.lineno;
  cur = l.cur + 1;
}

-- `do { c = *(++cur); } while (c != close && c != '\n')`, from where `cur` points after the first
-- increment. Every round reads one byte, and the reads end with the zero behind the end.
unfoldable pub skip_to : ℕ → ℕ → Lexer → ℕ → Run ℕ
skip_to zero close l i = running
skip_to (suc left) close l i =
    let on = skip_to left close l (i + 1) in
    if ltb (src_end l) i
    then abort
    else if (byte_at l i == close) || (byte_at l i == newline)
    then ok i
    else on

-- Rounds that are enough for a loop over the source.
abbrev pub src_fuel : Lexer → ℕ
src_fuel l = suc (suc (src_end l))
