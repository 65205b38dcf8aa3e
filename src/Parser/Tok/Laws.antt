-- ===== src/Parser/Tok/Laws.antt =====
-- `tok` of alc/main.c returns, with a token or at the end of the source.
use allang.Base.{
  ℕ, ◌<◌, ◌≤◌, ◌≡◌, refl, ap, ◌∙◌, arith, Bool, true, false, ◌||◌, ltb, ◌==◌, if◌then◌else◌, inl,
  inr, Bool-cases, length, Option, none, some, Run, ok, Returns,
}
use allang.Parser.Source.{Lexer, src_end}
use allang.Parser.Tok.{end_of_source, finish_token}
use allang.Parser.Tok.Scan.{Scanned}
use allang.Parser.Tok.Lines.{Passed, finish_token-Passed}

-- A token that is not empty and lies behind the place where `tok` began, or the end of the source.
unfoldable pub Found : Lexer → Lexer × Bool → Type 0
Found l (m, true) =
    (m.text ≡ l.text)
    × (l.cur ≤ m.token.data_at)
    × (m.token.data_at < m.token.end_at)
    × (m.token.end_at ≤ m.cur)
    × (l.cur < m.cur)
    × (m.cur ≤ src_end l)
Found l (m, false) = (m.text ≡ l.text) × (m.eof ≡ true)

-- What a further token says from a place behind.
Found-later :
    (l m : Lexer) (found : Lexer × Bool)
    → m.text ≡ l.text
    → l.cur ≤ m.cur
    → Found m found
    → Found l found
unfolding Found
Found-later l m (k, true) same on (t, a, b, c, d, e) =
    (t ∙ same, omega arith, b, c, omega arith, omega (arith, ap length same))
Found-later l m (k, false) same on (t, a) = (t ∙ same, a)

finish-Found :
    (l m : Lexer)
    → Scanned l l.cur m
    → ltb (src_end m) m.cur ≡ false
    → (m.token.end_at == m.token.data_at) ≡ false
    → Found l (finish_token m, true)
unfolding Scanned Passed Found
finish-Found l m (same, on, low, a, b, c) room some_bytes =
    let within : m.cur ≤ src_end m = ground (arith, room) in
    let (t, f, u, d, e) = finish_token-Passed m within in
    let long : src_end m ≡ src_end l = ap length same in
    (
      t ∙ same,
      omega (arith, d, a),
      ground (arith, d, e, b, some_bytes),
      omega (arith, e, c, f),
      omega (arith, on, f),
      omega (arith, u, long),
    )

-- A retry, or what `tok` returns.
settled :
    (again : Run (Lexer × Bool)) (l m : Lexer)
    → Scanned l l.cur m
    → (m.cur ≤ src_end m → Returns again (Found m))
    → Returns
        (if ltb (src_end m) m.cur || ltb (src_end m) m.token.end_at
          then ok (end_of_source m, false)
          else if m.token.end_at == m.token.data_at
          then again
          else ok (finish_token m, true))
        (Found l)
unfolding end_of_source Scanned Found
settled again l m scanned retry =
    let (same, on, low, a, b, c) = scanned in
    elim (Bool-cases (ltb (src_end m) m.cur || ltb (src_end m) m.token.end_at)) [
      | inl e ↦ rw e ((end_of_source m, false), refl, (same, refl))
      | inr e ↦ elim (Bool-cases (m.token.end_at == m.token.data_at)) [
        | inl f ↦
            let (found, run, there) = retry (ground (arith, e)) in
            rw (e, f) (found, run, Found-later l m found same (omega (arith, on)) there)
        | inr f ↦
            let room : ltb (src_end m) m.cur ≡ false = ground (arith, e) in
            rw (e, f) ((finish_token m, true), refl, finish-Found l m scanned room f)
      ]
    ]

-- Where a word begins, the token is the word, to its end.
unfoldable pub IsWord : Option ℕ → Lexer → Lexer × Bool → Type 0
IsWord none l found = Found l found
IsWord (some j) l found =
    Found l found × (found.1 ≡ true) × (found.0.token.data_at ≡ l.cur) × (found.0.token.end_at ≡ j)
