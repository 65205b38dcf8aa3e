-- ===== src/Parser/Consume.antt =====
-- How alc/main.c passes over tokens, and asks for what a token is.
use allang.Base.{
  ℕ, zero, suc, ◌+◌, Bool, true, false, not, ◌&&◌, Run, ok, running, ◌>>=◌, [], ◌∷◌, ◌==◌,
  if◌then◌else◌,
}
use allang.Parser.Source.{
  Eob, eob_none, end_of_block, start_of_block, Lexer, byte_at, newline, token_id, src_fuel,
}
use allang.Parser.Tok.{tok}
use allang.Str.{Str, str_eq, str_len}

-- Up to a token, which is left as the current one. A round takes a token.
unfoldable pub until_from : ℕ → Str → Lexer → Run Lexer
unfolding tok
until_from zero s l = running
until_from (suc left) s l = tok l >>= λ found.
    let on = until_from left s found.0 in
    if not found.1 then ok found.0 else if str_eq (token_id found.0) s then ok found.0 else on

unfoldable pub consume_until : Lexer → Str → Run Lexer
unfolding until_from
consume_until l s = until_from (src_fuel l) s l

-- Up to a token that a line ends with.
unfoldable pub line_from : ℕ → ℕ → Lexer → Run Lexer
unfolding tok
line_from zero start l = running
line_from (suc left) start l = tok l >>= λ found.
    let on = line_from left start found.0 in
    if not found.1 then ok found.0 else if start == found.0.lineno then on else ok found.0

unfoldable pub consume_line : Lexer → Run Lexer
unfolding line_from
consume_line l = line_from (src_fuel l) l.lineno l

abbrev pub is_end_of_block : Eob → Bool
is_end_of_block end_of_block = true
is_end_of_block eob_none = false
is_end_of_block start_of_block = false

-- The lines of a block that is indented from `start_indent`.
unfoldable pub block_from : ℕ → ℕ → Lexer → Run Lexer
unfolding consume_line tok
block_from zero start_indent l = running
block_from (suc left) start_indent l =
    if l.token.end_at == l.token.data_at
    then ok l
    else (consume_line l >>= λ m.
        let on = tok m >>= λ found. block_from left start_indent found.0 in
        if is_end_of_block m.token.eob && (m.token.indent == start_indent + 4) then ok m else on)

-- A block that is not indented is reported.
unfoldable pub consume_block : Lexer → Run Lexer
unfolding tok block_from
consume_block l = tok l >>= λ found.
    let m = found.0 in
    let start_indent = l.token.indent in
    let missing = not (m.token.indent == start_indent + 4) in
    block_from (src_fuel m) start_indent
      (if missing then record m { reports = m.reports + 1 } else m)

unfoldable pub consume_line_or_block : Lexer → Run Lexer
unfolding consume_line consume_block
consume_line_or_block l =
    if byte_at l l.token.end_at == newline then consume_block l else consume_line l

-- With the state after the report.
unfoldable pub expect : Lexer → Str → Lexer × Bool
expect l expected =
    if str_eq (token_id l) expected
    then (l, true)
    else (record l { reports = l.reports + 1 }, false)

unfoldable pub is_char_token : Lexer → ℕ → Bool
is_char_token l c = (str_len (token_id l) == 1) && (byte_at l l.token.data_at == c)

-- The current token is the `=` of a store, whose `[` follows.
unfoldable pub at_store : Lexer → Bool
unfolding is_char_token
at_store l = is_char_token l b'=' && (byte_at l l.token.end_at == b'[')

-- Bytes before the first `c`, and those from it on.
unfoldable pub break_at : ℕ → Str → Str × Str
break_at c [] = ([], [])
break_at c (x ∷ s) = let rest = break_at c s in if x == c then ([], x ∷ s) else (x ∷ rest.0, rest.1)

-- The next part of a name between separators, and what is left of it. A separator in front is not
-- of the part.
unfoldable pub dot_iter : Str → ℕ → Str × Str
unfolding break_at
dot_iter [] c = ([], [])
dot_iter (x ∷ s) c = let rest = break_at c s in if x == c then rest else (x ∷ rest.0, rest.1)
