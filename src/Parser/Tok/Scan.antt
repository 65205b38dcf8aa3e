-- ===== src/Parser/Tok/Scan.antt =====
-- The loop of `tok` finds the end of a token, in a source that ends with a newline.
use allang.Base.{
  ℕ, zero, suc, ◌+◌, ◌<◌, ◌≤◌, ◌≡◌, ◌≢◌, refl, ap, ◌∙◌, arith, true, false, ◌||◌, List, [], ◌∷◌,
  ltb, ◌==◌, inl, inr, Bool-cases, ltb→lt, ==_iff, length, get_or, Run, ok, ◌>>=◌, Returns,
}
use allang.Parser.Source.{Lexer, src_end, byte_at, newline, src_advance, skip_to, src_fuel}
use allang.Parser.Tok.{
  is_bracket, is_separator, end_token, quoted, at_comment, skip_comment, bracket, classify, scan,
}

-- The source has a newline as its last byte, at `n`.
unfoldable pub EndsAt : Lexer → ℕ → Type 0
EndsAt l n = (src_end l ≡ suc n) × (byte_at l n ≡ newline)

pub get_or-past : (xs : List ℕ) (i : ℕ) → length xs ≤ i → get_or xs i 0 ≡ 0
get_or-past [] i h = refl
get_or-past (x ∷ xs) zero h = absurd (omega arith)
get_or-past (x ∷ xs) (suc i) h = get_or-past xs i (omega arith)

-- Behind the newline there is the zero.
last_byte : (l : Lexer) (n i : ℕ) → EndsAt l n → n < i → byte_at l i ≡ 0
unfolding EndsAt
last_byte l n i (long, last) h = get_or-past l.text i (omega (arith, long))

skip_to_lem :
    (fuel close : ℕ) (l : Lexer) (n i : ℕ)
    → EndsAt l n
    → i ≤ n
    → n < i + fuel
    → Returns
        (skip_to fuel close l i)
        λ j. (i ≤ j) × (j ≤ n) × ((byte_at l j == close) || (byte_at l j == newline) ≡ true)
unfolding skip_to EndsAt
skip_to_lem zero close l n i e low h = absurd (omega arith)
skip_to_lem (suc fuel) close l n i (long, last) low h =
    let inside : ltb (src_end l) i ≡ false = ground (arith, long) in
    elim (Bool-cases ((byte_at l i == close) || (byte_at l i == newline))) [
      | inl stop ↦ rw (inside, stop) (i, refl, (omega arith, low, stop))
      | inr on ↦
          let before : i ≢ n = λ same.
            let here : byte_at l i ≡ newline = ap (byte_at l) same ∙ last in
            ground (arith, on, here) in
          let (j, run, (from, to, found)) =
            skip_to_lem fuel close l n (i + 1) (long, last) (omega (arith, before)) (omega arith) in
          rw (inside, on) (j, run, (omega arith, to, found))
    ]

-- What the loop leaves, from a token that begins at `start`.
unfoldable pub Scanned : Lexer → ℕ → Lexer → Type 0
Scanned l start m =
    (m.text ≡ l.text)
    × (start < m.cur)
    × (m.cur ≤ suc (src_end l))
    × (start ≤ m.token.data_at)
    × (m.token.data_at ≤ m.token.end_at)
    × (m.token.end_at ≤ m.cur)

quoted-Scanned :
    (close start : ℕ) (l : Lexer) (n : ℕ)
    → EndsAt l n
    → l.cur < n
    → start ≤ l.cur
    → l.token.data_at ≡ start
    → Returns (quoted close l) (Scanned l start)
unfolding quoted Scanned src_advance end_token EndsAt
quoted-Scanned close start l n (long, last) low from at_start =
    let (i, run, (above, below, found)) =
      skip_to_lem (src_fuel l) close l n (l.cur + 1) (long, last) (omega arith)
        (omega (arith, long)) in
    rw run (
      _,
      refl,
      (
        refl,
        omega arith,
        omega (arith, long),
        omega (arith, at_start),
        omega (arith, at_start),
        omega arith,
      ),
    )

separator-Scanned :
    (start : ℕ) (l m : Lexer)
    → m.text ≡ l.text
    → m.cur ≤ src_end l
    → start ≤ m.token.data_at
    → m.token.data_at ≤ m.cur
    → Scanned l start (src_advance (end_token m m.cur))
unfolding Scanned src_advance end_token
separator-Scanned start l m same low from to =
    (same, omega arith, omega arith, from, to, omega arith)

bracket-Scanned :
    (start : ℕ) (l : Lexer)
    → l.cur < src_end l
    → start ≤ l.cur
    → l.token.data_at ≡ start
    → l.token.end_at ≡ start
    → Scanned l start (bracket l)
unfolding Scanned bracket src_advance end_token
bracket-Scanned start l low from at_start at_end = elim (Bool-cases (l.cur == l.token.data_at)) [
  | inl e ↦ elim (Bool-cases (byte_at l (l.cur + 1) == newline)) [
    | inl f ↦
        rw (e, f)
          (
            refl,
            omega arith,
            omega arith,
            omega (arith, at_start),
            omega (arith, at_start, at_end),
            omega (arith, at_end),
          )
    | inr f ↦
        rw (e, f)
          (
            refl,
            omega arith,
            omega arith,
            omega (arith, at_start),
            omega (arith, at_start, at_end),
            omega (arith, at_end),
          )
  ]
  | inr e ↦ rw e (
    refl,
    ground (arith, e, at_start),
    omega arith,
    omega (arith, at_start),
    omega (arith, at_start),
    omega arith,
  )
]

-- A byte that is no newline and no zero stands before the last newline.
before_last :
    (l : Lexer) (n i : ℕ)
    → EndsAt l n
    → (byte_at l i == newline) ≡ false
    → (byte_at l i == 0) ≡ false
    → i < n
unfolding EndsAt
before_last l n i ends other some_byte = elim (Bool-cases (ltb n i)) [
  | inl e ↦
      let past : byte_at l i ≡ 0 = last_byte l n i ends (ltb→lt n i e) in
      absurd (ground (arith, past, some_byte))
  | inr e ↦ elim (Bool-cases (i == n)) [
    | inl f ↦
        let here : byte_at l i ≡ newline = ap (byte_at l) ((==_iff i n).0 f) ∙ ends.1 in
        absurd (ground (arith, here, other))
    | inr f ↦ ground (arith, e, f)
  ]
]

quote_plain :
    (c q : ℕ)
    → (q == newline) ≡ false
    → (q == 0) ≡ false
    → (c == q) ≡ true
    → ((c == newline) ≡ false) × ((c == 0) ≡ false)
quote_plain c q a b h = (ground (arith, a, h), ground (arith, b, h))

bracket_plain : (c : ℕ) → is_bracket c ≡ true → ((c == newline) ≡ false) × ((c == 0) ≡ false)
bracket_plain c h = (ground (arith, h), ground (arith, h))

comment_plain :
    (l : Lexer)
    → at_comment l ≡ true
    → ((byte_at l l.cur == newline) ≡ false) × ((byte_at l l.cur == 0) ≡ false)
comment_plain l h = (ground (arith, h), ground (arith, h))

newline_separates :
    (c : ℕ)
    → (c == newline) || (c == newline) ≡ true
    → (is_bracket c ≡ false) × (is_separator c ≡ true)
newline_separates c h = (ground (arith, h), ground (arith, h))

other_plain : (c : ℕ) → is_separator c ≡ false → ((c == newline) ≡ false) × ((c == 0) ≡ false)
other_plain c h = (ground (arith, h), ground (arith, h))

-- The state of the loop: a token that began at `start` and has no end yet.
unfoldable pub Scanning : Lexer → ℕ → ℕ → Type 0
Scanning l n start =
    EndsAt l n
    × (l.cur ≤ suc n)
    × (start ≤ l.cur)
    × (l.token.data_at ≡ start)
    × (l.token.end_at ≡ start)

commented :
    (on : Lexer → Run Lexer) (l : Lexer) (n start : ℕ)
    → Scanning l n start
    → l.cur < n
    → at_comment l ≡ true
    → Returns (skip_comment l >>= λ m. classify (on m) m) (Scanned l start)
unfolding skip_comment classify Scanning EndsAt
commented on l n start ((long, last), below, from, at_start, at_end) inside is_comment =
    let (i, run, (above, low, found)) =
      skip_to_lem (src_fuel l) newline l n (l.cur + 1) (long, last) (omega arith)
        (omega (arith, long)) in
    let (no_bracket, separates) = newline_separates (byte_at l i) found in
    let m = record l { cur = i; token = record (l.token) { data_at = i } } in
    rw (is_comment, run, no_bracket, separates)
      (
        src_advance (end_token m i),
        refl,
        separator-Scanned start l m refl (omega (arith, long)) (omega arith) (omega arith),
      )

classified :
    (run : Run Lexer) (l : Lexer) (n start : ℕ)
    → Scanning l n start
    → (l.cur < n → is_separator (byte_at l l.cur) ≡ false → Returns run (Scanned l start))
    → Returns (classify run l) (Scanned l start)
unfolding classify Scanning EndsAt
classified run l n start ((long, last), below, from, at_start, at_end) next =
    elim (Bool-cases (is_bracket (byte_at l l.cur))) [
      | inl e ↦
          let (a, b) = bracket_plain (byte_at l l.cur) e in
          let inside = before_last l n l.cur (long, last) a b in
          rw e (
            bracket l,
            refl,
            bracket-Scanned start l (omega (arith, long, inside)) from at_start at_end,
          )
      | inr e ↦ elim (Bool-cases (is_separator (byte_at l l.cur))) [
        | inl f ↦
            rw (e, f)
              (
                _,
                refl,
                separator-Scanned start l l refl (omega (arith, long)) (omega (arith, at_start))
                    (omega (arith, at_start)),
              )
        | inr f ↦
            let (a, b) = other_plain (byte_at l l.cur) f in
            rw (e, f) (next (before_last l n l.cur (long, last) a b) f)
      ]
    ]

pub scan_lem :
    (fuel : ℕ) (l : Lexer) (n start : ℕ)
    → Scanning l n start
    → suc n < l.cur + fuel
    → Returns (scan fuel l) (Scanned l start)
unfolding scan Scanning EndsAt Scanned
scan_lem zero l n start ((long, last), below, from, at_start, at_end) h = absurd (omega arith)
scan_lem (suc fuel) l n start ((long, last), below, from, at_start, at_end) h =
    let here : ltb (src_end l) l.cur ≡ false = ground (arith, long) in
    let c = byte_at l l.cur in
    let s : Scanning l n start = ((long, last), below, from, at_start, at_end) in
    elim (Bool-cases (c == b'"')) [
      | inl e ↦
          let (a, b) = quote_plain c b'"' refl refl e in
          rw (here, e)
            (quoted-Scanned b'"' start l n (long, last) (before_last l n l.cur (long, last) a b)
              from at_start)
      | inr e ↦ elim (Bool-cases (c == b'\'')) [
        | inl f ↦
            let (a, b) = quote_plain c b'\'' refl refl f in
            rw (here, e, f)
              (quoted-Scanned b'\'' start l n (long, last) (before_last l n l.cur (long, last) a b)
                from at_start)
        | inr f ↦
            rw (here, e, f)
              (elim (Bool-cases (at_comment l)) [
                | inl g ↦
                    let (a, b) = comment_plain l g in
                    commented (λ m. scan fuel (record m { cur = m.cur + 1 })) l n start s
                      (before_last l n l.cur (long, last) a b) g
                | inr g ↦
                    let none_here : skip_comment l ≡ ok l = unfold skip_comment in rw g refl in
                    rw none_here (
                      classified (scan fuel (record l { cur = l.cur + 1 })) l n start s
                        λ inside other.
                          scan_lem fuel (record l { cur = l.cur + 1 }) n start
                            ((long, last), omega arith, omega arith, at_start, at_end)
                            (omega arith))
              ])
      ]
    ]
