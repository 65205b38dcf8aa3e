-- ===== src/Parser/Literals.antt =====
-- Numbers and characters in the source of alc/main.c, and the names of labels and members.
-- `strtoll` of the C library, and how a `char` becomes a number of 64 bits, are parameters. A text
-- is given from the first byte on; behind it stand zeros.
use allang.Base.{
  ℕ, ◌+◌, ◌-◌, Bool, true, false, not, ◌&&◌, ◌||◌, Option, none, some, List, [], ◌∷◌, leb, ◌==◌,
  if◌then◌else◌, ℤ, pos, negsuc, ltb_ℤ, to_bits, i32, get_or, drop, take,
}
use allang.Str.{Str, str_eq}
use allang.Parser.Source.{Lexer, byte_at, token_id}
use allang.Parser.Types.{find_member}

abbrev pub is_digit : ℕ → Bool
is_digit c = leb b'0' c && leb c b'9'

abbrev pub is_lower : ℕ → Bool
is_lower c = leb b'a' c && leb c b'z'

unfoldable pub is_label_name : Str → Bool
is_label_name t = is_lower (get_or t 0 0) || (get_or t 0 0 == b'_')

-- With the state after the check. A token of the source is never NULL.
unfoldable pub at_block_end : Lexer → Bool → Lexer × Bool
at_block_end l start_of_line =
    if start_of_line && (l.ctx_indent == l.token.indent)
    then (record l { ended = true }, true)
    else (l, false)

-- The letters that stand for a character behind a backslash.
abbrev pub escaped : ℕ → Option ℕ
escaped c =
    if c == b'n'
    then some 10
    else if c == b't'
    then some 9
    else if c == b'r'
    then some 13
    else if c == b'\\'
    then some b'\\'
    else none

module _ (strtoll : List ℕ → ℤ) (char_to_i64 : ℕ → ℤ) where
  -- A number behind a backslash, which `strtoll` reads from the backslash on; above
  -- `sizeof (char)` it is reported.
  unfoldable pub escaped_number : List ℕ → ℕ × Bool
  escaped_number s =
      let number = strtoll s in
      if ltb_ℤ (pos 1) number then (0, true) else (to_bits 8 number, false)

  -- The character, and whether an error is reported.
  unfoldable pub char_escape : List ℕ → ℕ × Bool
  char_escape s =
      if not (get_or s 0 0 == b'\\')
      then (get_or s 0 0, false)
      else elim (escaped (get_or s 1 0)) [ some c ↦ (c, false) | none ↦ escaped_number s ]

  -- The value, and whether an error is reported.
  unfoldable pub char_literal : Lexer → ℤ × Bool
  char_literal l =
      let c = char_escape (drop (l.token.data_at + 1) l.text) in
      (char_to_i64 c.0, not (byte_at l (l.token.end_at - 1) == b'\'') || c.1)

  -- `none` where the token is no literal; else the value, and whether an error is reported.
  unfoldable pub lit_numeric : Lexer → Option (ℤ × Bool)
  lit_numeric l =
      let c = byte_at l l.token.data_at in
      if is_digit c || (c == b'-')
      then some (strtoll (drop l.token.data_at l.text), false)
      else if c == b'\''
      then some (char_literal l)
      else if str_eq (token_id l) (b't' ∷ b'r' ∷ b'u' ∷ b'e' ∷ [])
      then some (pos 1, false)
      else if str_eq (token_id l) (b'f' ∷ b'a' ∷ b'l' ∷ b's' ∷ b'e' ∷ [])
      then some (pos 0, false)
      else none

  -- A name that begins with a digit is an index; -1 for a member that there is not. The text is
  -- that of the name and what follows.
  unfoldable pub find_member_index : List Str → List ℕ → ℕ → ℤ
  find_member_index names s len =
      if is_digit (get_or s 0 0)
      then i32 (strtoll s)
      else elim (find_member names (take len s)) [ some i ↦ i32 (pos i) | none ↦ negsuc 0 ]
