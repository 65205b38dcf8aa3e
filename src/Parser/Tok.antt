-- ===== src/Parser/Tok.antt =====
-- `tok` of alc/main.c.
pub mod Scan
pub mod Lines
pub mod Word
pub mod Laws
use allang.Base.{
  ℕ, zero, suc, ◌+◌, ◌-◌, ◌%◌, ◌^◌, Bool, true, false, not, ◌&&◌, ◌||◌, List, ltb, leb, ◌==◌,
  if◌then◌else◌, length, Run, ok, abort, running, ◌>>=◌,
}
use allang.Parser.Source.{
  Eob, eob_none, end_of_block, start_of_block, Token, Lexer, src_end, byte_at, newline, src_advance,
  skip_to, src_fuel,
}

abbrev pub is_bracket : ℕ → Bool
is_bracket c = (c == b'}') || (c == b'{') || (c == b'!') || (c == b'[') || (c == b']')

abbrev pub is_separator : ℕ → Bool
is_separator c =
    (c == b',')
    || (c == newline)
    || (c == b' ')
    || (c == 0)
    || (c == b';')
    || (c == b')')
    || (c == b'(')

-- A token that goes up to a position.
unfoldable pub end_token : Lexer → ℕ → Lexer
end_token l i = record l { token = record (l.token) { end_at = i } }

-- A string or a character: up to the closing quote or the end of the line.
unfoldable pub quoted : ℕ → Lexer → Run Lexer
unfolding skip_to end_token src_advance
quoted close l = skip_to (src_fuel l) close l (l.cur + 1) >>= λ i.
    ok (src_advance (end_token (record l { cur = i + 1 }) (i + 1)))

-- `streq(src->cur, "//")`
abbrev pub at_comment : Lexer → Bool
at_comment l = (byte_at l l.cur == b'/') && (byte_at l (l.cur + 1) == b'/')

-- A comment is skipped, and the token begins anew behind it.
unfoldable pub skip_comment : Lexer → Run Lexer
unfolding skip_to
skip_comment l =
    if at_comment l
    then (skip_to (src_fuel l) newline l (l.cur + 1) >>= λ i.
        ok (record l { cur = i; token = record (l.token) { data_at = i } }))
    else ok l

-- A bracket is a token of its own, and ends one that has begun.
unfoldable pub bracket : Lexer → Lexer
unfolding end_token src_advance
bracket l =
    let next = record (end_token l (l.token.end_at + 1)) { cur = l.cur + 1 } in
    if l.cur == l.token.data_at
    then (if byte_at l (l.cur + 1) == newline then src_advance next else next)
    else end_token l l.cur

-- A byte that ends a token, or else what follows it.
unfoldable pub classify : Run Lexer → Lexer → Run Lexer
unfolding bracket end_token src_advance
classify on l =
    let c = byte_at l l.cur in
    if is_bracket c
    then ok (bracket l)
    else if is_separator c
    then ok (src_advance (end_token l l.cur))
    else on

-- The loop of `tok`, which reads a byte a round.
unfoldable pub scan : ℕ → Lexer → Run Lexer
unfolding quoted skip_comment classify
scan zero l = running
scan (suc left) l =
    let c = byte_at l l.cur in
    let classified =
      skip_comment l >>= λ m. classify (scan left (record m { cur = m.cur + 1 })) m in
    if ltb (src_end l) l.cur
    then ok l
    else if c == b'"'
    then quoted b'"' l
    else if c == b'\''
    then quoted b'\'' l
    else classified

abbrev pub start_token : Lexer → Lexer
start_token l = record l {
  token = record {
    data_at = l.cur;
    end_at = l.cur;
    lineno = l.lineno;
    indent = l.indent;
    eob = eob_none;
  };
}

-- The token at the end of the source.
unfoldable pub end_of_source : Lexer → Lexer
end_of_source l = record l {
  token = record {
    data_at = src_end l;
    end_at = src_end l;
    lineno = l.lineno;
    indent = l.indent;
    eob = end_of_block;
  };
  eof = true;
}

-- The loops over what begins a line. Each round goes on by a byte.
unfoldable pub skip_newlines : ℕ → Lexer → Lexer
unfolding src_advance
skip_newlines zero l = l
skip_newlines (suc left) l =
    let on = skip_newlines left (src_advance l) in if byte_at l l.cur == newline then on else l

-- With the number of spaces, in eight bits.
unfoldable pub skip_spaces : ℕ → ℕ → Lexer → Lexer × ℕ
skip_spaces zero n l = (l, n)
skip_spaces (suc left) n l =
    let on = skip_spaces left ((n + 1) % 2 ^ 8) (record l { cur = l.cur + 1 }) in
    if byte_at l l.cur == b' ' then on else (l, n)

unfoldable pub skip_line : ℕ → Lexer → Lexer
skip_line zero l = l
skip_line (suc left) l =
    let on = skip_line left (record l { cur = l.cur + 1 }) in
    if ltb l.cur (src_end l) && not (byte_at l l.cur == newline) then on else l

-- Empty lines and comments are passed; a round ends the loop or passes a comment.
unfoldable pub line_indent : ℕ → Lexer → Lexer × ℕ
unfolding skip_newlines skip_spaces skip_line
line_indent zero l = (l, 0)
line_indent (suc left) l =
    let spaced = skip_spaces (src_fuel l) 0 (skip_newlines (src_fuel l) l) in
    let m = spaced.0 in
    let on = line_indent left (skip_line (src_fuel l) m) in
    if ltb m.cur (src_end m) && at_comment m then on else spaced

-- The start of a line after a token that ended one. It is the old indentation that is checked.
unfoldable pub begin_line : Lexer → Lexer
unfolding line_indent
begin_line l =
    let (m, new_indent) = line_indent (src_fuel l) l in
    let eob =
      if ltb new_indent m.indent
      then end_of_block
      else if ltb m.indent new_indent
      then start_of_block
      else m.token.eob in
    record m {
      reports = if m.indent % 4 == 0 then m.reports else m.reports + 1;
      token = record (m.token) { eob = eob };
      indent = new_indent;
      ended = m.ended || ltb m.token.indent m.ctx_indent || ltb new_indent m.ctx_indent;
    }

-- Does the token end its line? A parenthesis does where the line ends behind it.
unfoldable pub ends_line : Lexer → Bool
ends_line l =
    if byte_at l (l.cur - 1) == b')'
    then byte_at l l.cur == newline
    else byte_at l (l.cur - 1) == newline

unfoldable pub finish_token : Lexer → Lexer
unfolding ends_line begin_line
finish_token l =
    let at_end = ends_line l in
    let flagged = record l { start_of_line = l.end_of_line; end_of_line = at_end } in
    if at_end then begin_line flagged else flagged

-- `tok`, from `retry` on, with its result. Each retry has passed a byte.
unfoldable pub tok_from : ℕ → Lexer → Run (Lexer × Bool)
unfolding scan end_of_source finish_token
tok_from zero l = running
tok_from (suc left) l = scan (src_fuel l) (start_token l) >>= λ m.
    let again = tok_from left m in
    if ltb (src_end m) m.cur || ltb (src_end m) m.token.end_at
    then ok (end_of_source m, false)
    else if m.token.end_at == m.token.data_at
    then again
    else ok (finish_token m, true)

unfoldable pub tok : Lexer → Run (Lexer × Bool)
unfolding tok_from
tok l = tok_from (src_fuel l) l
