-- ===== src/X86/Asm/Bytes.antt =====
-- What `put8` does with bytes for which there is no room.
use allang.Base.{
  ℕ, zero, suc, ◌+◌, ◌-◌, ◌≤◌, ◌≡◌, refl, ◌∙◌, sym, ap, ap₂, arith, true, false, List, [], ◌∷◌,
  ◌++◌, leb, length, take, length-append, inl, inr, Bool-cases,
}
use allang.X86.Asm.{Asm, code_cap, put8, put_bytes, report}
use mathlib.Core.List.{append-nil, append_assoc}

-- The state with more bytes in the body and more reports.
unfoldable pub with_body : Asm → List ℕ → ℕ → Asm
with_body a body reports = record a { body = body; reports = reports }

module _ (a : Asm) (h : a.emit_to_prol ≡ false) (body : List ℕ) (n b : ℕ) where
  put8_room :
      leb code_cap (length body) ≡ false
      → put8 (with_body a body n) b ≡ with_body a (body ++ b ∷ []) n
  unfolding put8 with_body
  put8_room room = rw (h, room) refl

  put8_full :
      leb code_cap (length body) ≡ true → put8 (with_body a body n) b ≡ with_body a body (n + 1)
  unfolding put8 with_body report
  put8_full full = rw (h, full) refl

take-nil : (n : ℕ) → take {A = ℕ} n [] ≡ []
take-nil zero = refl
take-nil (suc n) = refl

module _ (a : Asm) (h : a.emit_to_prol ≡ false) where
  put_more :
      (bs body : List ℕ) (n : ℕ)
      → length body ≤ code_cap
      → put_bytes (with_body a body n) bs
        ≡ with_body a
            (body ++ take (code_cap - length body) bs)
            (n + (length bs - (code_cap - length body)))
  unfolding put_bytes
  put_more [] body n fits =
      ap₂ (with_body a)
        (sym (append-nil body) ∙ ap (λ bs. body ++ bs) (sym (take-nil (code_cap - length body))))
        (omega arith)
  put_more (b ∷ bs) body n fits = elim (Bool-cases (leb code_cap (length body))) [
    | inl full ↦
        let none_left : code_cap - length body ≡ 0 = ground (arith, full) in
        ap (λ s. put_bytes s bs) (put8_full a h body n b full)
        ∙ put_more bs body (n + 1) fits
        ∙ ap₂ (with_body a) (rw none_left refl) (omega arith)
    | inr room ↦
        let grown : length (body ++ b ∷ []) ≡ length body + 1 = length-append body (b ∷ []) in
        let left : code_cap - length body ≡ suc (code_cap - length (body ++ b ∷ [])) =
          ground (arith, room, grown) in
        ap (λ s. put_bytes s bs) (put8_room a h body n b room)
        ∙ put_more bs (body ++ b ∷ []) n (ground (arith, room, grown))
        ∙ ap₂ (with_body a)
            (append_assoc body (b ∷ []) (take (code_cap - length (body ++ b ∷ [])) bs)
              ∙ rw left refl)
            (omega (arith, left))
  ]

-- Bytes for the body of a function go behind it as far as there is room, each that is left over is
-- reported, and nothing else changes.
pub put_bytes_lem :
    (a : Asm) (bs : List ℕ)
    → a.emit_to_prol ≡ false
    → length a.body ≤ code_cap
    → put_bytes a bs
      ≡ with_body a
          (a.body ++ take (code_cap - length a.body) bs)
          (a.reports + (length bs - (code_cap - length a.body)))
put_bytes_lem a bs h fits =
    let same : a ≡ with_body a a.body a.reports = unfold with_body in refl in
    ap (λ s. put_bytes s bs) same ∙ put_more a h bs a.body a.reports fits
