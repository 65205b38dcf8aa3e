-- ===== src/Parser/Tok/Word.antt =====
-- The words of the source: `tok` cuts them out whole.
use allang.Base.{
  ℕ, zero, suc, ◌+◌, ◌<◌, ◌≤◌, ◌≡◌, refl, ap, ◌∙◌, arith, Bool, true, false, not, ◌&&◌, ◌||◌, ltb,
  ◌==◌, if◌then◌else◌, inl, inr, Bool-cases, length, get_or, ok, Option, none, some,
}
use allang.Str.{Str}
use allang.Parser.Source.{Lexer, src_end, byte_at, src_advance}
use allang.Parser.Tok.{
  is_bracket, is_separator, end_token, at_comment, skip_comment, bracket, classify, scan,
  start_token, finish_token, tok_from, tok,
}
use allang.Parser.Tok.Scan.{get_or-past}
use allang.Parser.Tok.Lines.{Passed, finish_token-Passed}

-- The bytes that end a word: brackets and `!`, which are tokens too, and those that are not.
abbrev mark : ℕ → Bool
mark c = (c == b'}') || (c == b'{') || (c == b'!') || (c == b'[') || (c == b']')

abbrev gap : ℕ → Bool
gap c =
    (c == b',') || (c == 10) || (c == b' ') || (c == 0) || (c == b';') || (c == b')') || (c == b'(')

-- A byte inside a word: it ends none, and begins no string, character or comment.
abbrev plain : Str → ℕ → Bool
plain text i =
    let c = get_or text i 0 in
    not (mark c)
    && not (gap c)
    && not (c == b'"')
    && not (c == b'\'')
    && not ((c == b'/') && (get_or text (i + 1) 0 == b'/'))

-- The end of the word that goes on at `i`, at most `left` bytes on.
unfoldable pub word_to : ℕ → Str → ℕ → Option ℕ
word_to zero text i = none
word_to (suc left) text i =
    let on = word_to left text (i + 1) in
    let c = get_or text i 0 in
    if plain text i then on else if ltb i (length text) && (mark c || gap c) then some i else none

-- The end of the word that begins at `i`, where one does.
unfoldable pub word_end : Str → ℕ → Option ℕ
unfolding word_to
word_end text i = if plain text i then word_to (suc (length text)) text (i + 1) else none

plain_inside : (text : Str) (i : ℕ) → plain text i ≡ true → ltb (length text) i ≡ false
plain_inside text i h = elim (Bool-cases (ltb (length text) i)) [
  | inl e ↦
      let past : get_or text i 0 ≡ 0 = get_or-past text i (ground (arith, e)) in
      let is_gap : gap (get_or text i 0) ≡ true = rw past refl in absurd (ground (arith, h, is_gap))
  | inr e ↦ e
]

scan_step :
    (fuel : ℕ) (l : Lexer)
    → plain l.text l.cur ≡ true
    → scan (suc fuel) l ≡ scan fuel (record l { cur = l.cur + 1 })
unfolding scan skip_comment classify
scan_step fuel l h =
    let inside = plain_inside l.text l.cur h in
    let c = byte_at l l.cur in
    let a : (c == b'"') ≡ false = ground (arith, h) in
    let b : (c == b'\'') ≡ false = ground (arith, h) in
    let d : at_comment l ≡ false = ground (arith, h) in
    let e : is_bracket c ≡ false = ground (arith, h) in
    let f : is_separator c ≡ false = ground (arith, h) in rw (inside, a, b, d, e, f) refl

-- What the loop leaves at the end of a word at `j`.
unfoldable WordDone : Lexer → ℕ → Lexer → Type 0
WordDone l j m =
    (m.text ≡ l.text)
    × (m.cur ≤ src_end l)
    × (m.token.data_at ≡ l.token.data_at)
    × (m.token.end_at ≡ j)
    × (l.token.data_at < j)
    × (j < src_end l)

scan_stop :
    (fuel : ℕ) (l : Lexer)
    → l.token.data_at < l.cur
    → l.cur < src_end l
    → mark (byte_at l l.cur) || gap (byte_at l l.cur) ≡ true
    → (m : Lexer) × (scan (suc fuel) l ≡ ok m) × WordDone l l.cur m
unfolding scan skip_comment classify bracket src_advance end_token WordDone
scan_stop fuel l begun inside stop =
    let here : ltb (src_end l) l.cur ≡ false = ground (arith, inside) in
    let c = byte_at l l.cur in
    let a : (c == b'"') ≡ false = ground (arith, stop) in
    let b : (c == b'\'') ≡ false = ground (arith, stop) in
    let d : at_comment l ≡ false = ground (arith, stop) in
    let old : (l.cur == l.token.data_at) ≡ false = ground (arith, begun) in
    elim (Bool-cases (is_bracket c)) [
      | inl e ↦
          rw (here, a, b, d, e, old)
            (_, refl, (refl, omega (arith, inside), refl, refl, begun, inside))
      | inr e ↦
          let f : is_separator c ≡ true = ground (arith, stop, e) in
          rw (here, a, b, d, e, f)
            (_, refl, (refl, omega (arith, inside), refl, refl, begun, inside))
    ]

scan-word :
    (left : ℕ) (l : Lexer) (j : ℕ)
    → word_to left l.text l.cur ≡ some j
    → l.token.data_at < l.cur
    → (m : Lexer) × (scan left l ≡ ok m) × WordDone l j m
unfolding word_to WordDone
scan-word zero l j found begun = cc
scan-word (suc left) l j found begun = elim (Bool-cases (plain l.text l.cur)) [
  | inl e ↦
      let next : word_to left l.text (l.cur + 1) ≡ some j = rw e at found in
      let (m, run, done) =
        scan-word left (record l { cur = l.cur + 1 }) j next (omega (arith, begun)) in
      (m, scan_step left l e ∙ run, done)
  | inr e ↦
      let c = byte_at l l.cur in
      elim (Bool-cases (ltb l.cur (src_end l) && (mark c || gap c))) [
        | inl f ↦
            let at_j : some l.cur ≡ some j = rw (e, f) at found in
            let same : l.cur ≡ j = cc in
            let (m, run, (t, low, at_start, at_end, some_bytes, inside)) =
              scan_stop left l begun (ground (arith, f)) (ground (arith, f)) in
            (
              m,
              run,
              (
                t,
                low,
                at_start,
                at_end ∙ same,
                omega (arith, same, some_bytes),
                omega (arith, same, inside),
              ),
            )
        | inr f ↦ let none_here : none ≡ some j = rw (e, f) at found in cc
      ]
]

-- At the start of a word, `tok` returns it.
pub tok-word :
    (l : Lexer) (j : ℕ)
    → word_end l.text l.cur ≡ some j
    → (m : Lexer) × (tok l ≡ ok (m, true)) × (m.token.data_at ≡ l.cur) × (m.token.end_at ≡ j)
unfolding word_end tok tok_from WordDone Passed
tok-word l j found = elim (Bool-cases (plain l.text l.cur)) [
  | inl e ↦
      let next : word_to (suc (src_end l)) l.text (l.cur + 1) ≡ some j = rw e at found in
      let begun = record (start_token l) { cur = l.cur + 1 } in
      let (m, run, (same, low, at_start, at_end, some_bytes, inside)) =
        scan-word (suc (src_end l)) begun j next (omega arith) in
      let long : src_end m ≡ src_end l = ap length same in
      let scanned = scan_step (suc (src_end l)) (start_token l) e ∙ run in
      let a : ltb (src_end m) m.cur || ltb (src_end m) m.token.end_at ≡ false =
        ground (arith, low, long, at_end, inside) in
      let b : (m.token.end_at == m.token.data_at) ≡ false =
        ground (arith, at_end, at_start, some_bytes) in
      let (t, f, u, d, g) = finish_token-Passed m (omega (arith, low, long)) in
      rw (scanned, a, b) (finish_token m, refl, d ∙ at_start, g ∙ at_end)
  | inr e ↦ let none_here : none ≡ some j = rw e at found in cc
]
