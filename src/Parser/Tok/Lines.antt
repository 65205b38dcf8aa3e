-- ===== src/Parser/Tok/Lines.antt =====
-- What follows a token on its line and at the start of the next keeps to the source.
use allang.Base.{
  ℕ, zero, suc, ◌+◌, ◌%◌, ◌^◌, ◌<◌, ◌≤◌, ◌≡◌, refl, ap, ◌∙◌, arith, Bool, true, false, not, ◌&&◌,
  ltb, ◌==◌, if◌then◌else◌, inl, inr, Bool-cases, ltb→lt, length,
}
use allang.Parser.Source.{Token, Lexer, src_end, byte_at, newline, src_advance, src_fuel}
use allang.Parser.Tok.{
  at_comment, skip_newlines, skip_spaces, skip_line, line_indent, begin_line, ends_line,
  finish_token,
}
use allang.Parser.Tok.Scan.{get_or-past}

-- The place has gone on within the source, and the token is the same.
unfoldable pub Passed : Lexer → Lexer → Type 0
Passed l m =
    (m.text ≡ l.text)
    × (l.cur ≤ m.cur)
    × (m.cur ≤ src_end l)
    × (m.token.data_at ≡ l.token.data_at)
    × (m.token.end_at ≡ l.token.end_at)

Passed-refl : (l : Lexer) → l.cur ≤ src_end l → Passed l l
unfolding Passed
Passed-refl l low = (refl, omega arith, low, refl, refl)

Passed-trans : (a b c : Lexer) → Passed a b → Passed b c → Passed a c
unfolding Passed
Passed-trans a b c (t, f, u, d, e) (t', f', u', d', e') =
    (t' ∙ t, omega arith, omega (arith, ap length t), d' ∙ d, e' ∙ e)

-- A byte that is not zero stands before the end.
inside : (l : Lexer) → (byte_at l l.cur == 0) ≡ false → l.cur < src_end l
inside l h = elim (Bool-cases (ltb l.cur (src_end l))) [
  | inl e ↦ ltb→lt l.cur (src_end l) e
  | inr e ↦
      let past : byte_at l l.cur ≡ 0 = get_or-past l.text l.cur (ground (arith, e)) in
      absurd (ground (arith, past, h))
]

newline-inside : (l : Lexer) → (byte_at l l.cur == newline) ≡ true → l.cur < src_end l
newline-inside l h = inside l (ground (arith, h))

space-inside : (l : Lexer) → (byte_at l l.cur == b' ') ≡ true → l.cur < src_end l
space-inside l h = inside l (ground (arith, h))

Passed-if :
    (b : Bool) (l x y : Lexer)
    → (b ≡ true → Passed l x)
    → (b ≡ false → Passed l y)
    → Passed l (if b then x else y)
Passed-if true l x y first second = first refl
Passed-if false l x y first second = second refl

Passed-if_pair :
    (b : Bool) (l : Lexer) (x y : Lexer × ℕ)
    → (b ≡ true → Passed l x.0)
    → (b ≡ false → Passed l y.0)
    → Passed l (if b then x else y).0
Passed-if_pair true l x y first second = first refl
Passed-if_pair false l x y first second = second refl

-- One byte on.
Passed-step :
    (l m : Lexer)
    → m.text ≡ l.text
    → m.cur ≡ l.cur + 1
    → m.token ≡ l.token
    → l.cur < src_end l
    → Passed l m
unfolding Passed
Passed-step l m t c k room =
    (t, omega (arith, c), omega (arith, c, room), ap Token.data_at k, ap Token.end_at k)

skip_newlines-Passed : (fuel : ℕ) (l : Lexer) → l.cur ≤ src_end l → Passed l (skip_newlines fuel l)
unfolding skip_newlines src_advance
skip_newlines-Passed zero l low = Passed-refl l low
skip_newlines-Passed (suc fuel) l low =
    let m = src_advance l in
    Passed-if (byte_at l l.cur == newline) l (skip_newlines fuel m) l
      (λ e.
        let room = newline-inside l e in
        Passed-trans l m (skip_newlines fuel m) (Passed-step l m refl refl refl room)
          (skip_newlines-Passed fuel m (omega (arith, room))))
      (λ e. Passed-refl l low)

skip_spaces-Passed :
    (fuel n : ℕ) (l : Lexer) → l.cur ≤ src_end l → Passed l (skip_spaces fuel n l).0
unfolding skip_spaces
skip_spaces-Passed zero n l low = Passed-refl l low
skip_spaces-Passed (suc fuel) n l low =
    let m = record l { cur = l.cur + 1 } in
    let more = skip_spaces fuel ((n + 1) % 2 ^ 8) m in
    Passed-if_pair (byte_at l l.cur == b' ') l more (l, n)
      (λ e.
        let room = space-inside l e in
        Passed-trans l m more.0 (Passed-step l m refl refl refl room)
          (skip_spaces-Passed fuel ((n + 1) % 2 ^ 8) m (omega (arith, room))))
      (λ e. Passed-refl l low)

skip_line-Passed : (fuel : ℕ) (l : Lexer) → l.cur ≤ src_end l → Passed l (skip_line fuel l)
unfolding skip_line
skip_line-Passed zero l low = Passed-refl l low
skip_line-Passed (suc fuel) l low =
    let m = record l { cur = l.cur + 1 } in
    Passed-if (ltb l.cur (src_end l) && not (byte_at l l.cur == newline)) l (skip_line fuel m) l
      (λ e.
        let room : l.cur < src_end l = ground (arith, e) in
        Passed-trans l m (skip_line fuel m) (Passed-step l m refl refl refl room)
          (skip_line-Passed fuel m (omega (arith, room))))
      (λ e. Passed-refl l low)

-- The place that a passage leaves is in the source.
Passed-low : (l m : Lexer) → Passed l m → m.cur ≤ src_end m
unfolding Passed
Passed-low l m (t, f, u, d, e) = omega (arith, u, ap length t)

line_indent-Passed : (fuel : ℕ) (l : Lexer) → l.cur ≤ src_end l → Passed l (line_indent fuel l).0
unfolding line_indent
line_indent-Passed zero l low = Passed-refl l low
line_indent-Passed (suc fuel) l low =
    let a = skip_newlines (src_fuel l) l in
    let to_a = skip_newlines-Passed (src_fuel l) l low in
    let spaced = skip_spaces (src_fuel l) 0 a in
    let m = spaced.0 in
    let to_m =
      Passed-trans l a m to_a (skip_spaces-Passed (src_fuel l) 0 a (Passed-low l a to_a)) in
    let b = skip_line (src_fuel l) m in
    let to_b = Passed-trans l m b to_m (skip_line-Passed (src_fuel l) m (Passed-low l m to_m)) in
    Passed-if_pair (ltb m.cur (src_end m) && at_comment m) l (line_indent fuel b) spaced
      (λ e.
        Passed-trans l b (line_indent fuel b).0 to_b
          (line_indent-Passed fuel b (Passed-low l b to_b)))
      (λ e. to_m)

begin_line-Passed : (l : Lexer) → l.cur ≤ src_end l → Passed l (begin_line l)
unfolding begin_line Passed
begin_line-Passed l low = line_indent-Passed (src_fuel l) l low

pub finish_token-Passed : (l : Lexer) → l.cur ≤ src_end l → Passed l (finish_token l)
unfolding finish_token
finish_token-Passed l low =
    let flagged : Lexer = record l { start_of_line = l.end_of_line; end_of_line = ends_line l } in
    Passed-if (ends_line l) l (begin_line flagged) flagged
      (λ e. unfold Passed in begin_line-Passed flagged low)
      (λ e. unfold Passed in Passed-refl l low)
