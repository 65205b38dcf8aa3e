-- ===== src/Aarch64/Asm/Settle.antt =====
-- Labels and fixups keep to their words when a function's words join the code.
use allang.Base.{
  ℕ, zero, suc, ◌+◌, ◌<◌, ◌≤◌, ◌≡◌, refl, ◌∙◌, ap, true, false, arith, ltb, List, [], ◌∷◌, ◌++◌,
  get_or, get_elem?, length, some, map, Bool, ◌*◌, ◌⊎◌, ◌≢◌, take, inl, inr, Bool-cases,
  length-append, u32,
}
use allang.Aarch64.Asm.{
  Asm, Label, Fixup, code_cap, settle_label, settle_fixup, name_fn, emit_fn_end, label_cap,
  main_name, no_context, Context,
}
use allang.Str.{str_eq, str_eq_iff}

module _ {ℓ} {A : Type ℓ} where
  get_or-append_left :
      (xs ys : List A) (i : ℕ) (d : A) → i < length xs → get_or (xs ++ ys) i d ≡ get_or xs i d
  get_or-append_left [] ys i d h = absurd (omega arith)
  get_or-append_left (x ∷ xs) ys zero d h = refl
  get_or-append_left (x ∷ xs) ys (suc i) d h = get_or-append_left xs ys i d (omega arith)

  get_or-append_right :
      (xs ys : List A) (i : ℕ) (d : A) → get_or (xs ++ ys) (length xs + i) d ≡ get_or ys i d
  get_or-append_right [] ys i d = let same : 0 + i ≡ i = omega arith in ap (λ n. get_or ys n d) same
  get_or-append_right (x ∷ xs) ys i d =
      let next : suc (length xs) + i ≡ suc (length xs + i) = omega arith in
      ap (λ n. get_or (x ∷ (xs ++ ys)) n d) next ∙ get_or-append_right xs ys i d

get_elem?-map {ℓ κ} :
    {A : Type ℓ} {B : Type κ} (f : A → B) (xs : List A) (i : ℕ) {x : A}
    → get_elem? xs i ≡ some x
    → get_elem? (map f xs) i ≡ some (f x)
get_elem?-map f [] i h = cc
get_elem?-map f (x ∷ xs) zero h = cc
get_elem?-map f (x ∷ xs) (suc i) h = get_elem?-map f xs i h

-- What the end of a function does for its name: a symbol at the first of its words, while there is
-- room for one, and the entry of the program where it is `main`. Without a name it does neither.
unfoldable pub Named : Bool → Asm → List Label → ℕ → Context → Type 0
Named false a syms entry ctx = (syms ≡ a.fn_syms) × (entry ≡ a.entry_off)
Named true a syms entry ctx =
    (((length a.fn_syms < label_cap)
        × (syms
            ≡ a.fn_syms
              ++ record { key = take 95 ctx.fn_name; word = length a.code; done = false } ∷ []))
      ⊎ ((label_cap ≤ length a.fn_syms) × (syms ≡ a.fn_syms)))
    × (((ctx.fn_name ≡ main_name) × (entry ≡ 4 * length a.code))
        ⊎ ((ctx.fn_name ≢ main_name) × (entry ≡ a.entry_off)))

-- Naming a function leaves its words, labels and fixups.
Kept : Asm → Asm → Type 0
Kept a b = (b.code ≡ a.code) × (b.labels ≡ a.labels) × (b.fixups ≡ a.fixups)

name_fn-Kept : (a : Asm) (ctx : Context) (base : ℕ) → Kept a (name_fn a ctx base)
unfolding name_fn Kept
name_fn-Kept a ctx base = elim (Bool-cases (ltb (length a.fn_syms) label_cap)) [
  | inl room ↦ rw room (elim (Bool-cases (str_eq ctx.fn_name main_name)) [
    | inl e ↦ rw e (refl, refl, refl)
    | inr e ↦ rw e (refl, refl, refl)
  ])
  | inr none_left ↦ rw none_left (elim (Bool-cases (str_eq ctx.fn_name main_name)) [
    | inl e ↦ rw e (refl, refl, refl)
    | inr e ↦ rw e (refl, refl, refl)
  ])
]

symbol_named :
    (a : Asm) (ctx : Context) (base : ℕ)
    → (((length a.fn_syms < label_cap)
          × ((name_fn a ctx base).fn_syms
              ≡ a.fn_syms ++ record { key = take 95 ctx.fn_name; word = base; done = false } ∷ []))
        ⊎ ((label_cap ≤ length a.fn_syms) × ((name_fn a ctx base).fn_syms ≡ a.fn_syms)))
unfolding name_fn
symbol_named a ctx base = elim (Bool-cases (str_eq ctx.fn_name main_name)) [
  | inl e ↦ elim (Bool-cases (ltb (length a.fn_syms) label_cap)) [
    | inl room ↦ rw (room, e) (inl (ground (arith, room), refl))
    | inr full ↦ rw (full, e) (inr (ground (arith, full), refl))
  ]
  | inr e ↦ elim (Bool-cases (ltb (length a.fn_syms) label_cap)) [
    | inl room ↦ rw (room, e) (inl (ground (arith, room), refl))
    | inr full ↦ rw (full, e) (inr (ground (arith, full), refl))
  ]
]

entry_named :
    (a : Asm) (ctx : Context) (base : ℕ)
    → base ≤ code_cap
    → ((ctx.fn_name ≡ main_name) × ((name_fn a ctx base).entry_off ≡ 4 * base))
      ⊎ ((ctx.fn_name ≢ main_name) × ((name_fn a ctx base).entry_off ≡ a.entry_off))
unfolding name_fn
entry_named a ctx base low = elim (Bool-cases (str_eq ctx.fn_name main_name)) [
  | inl e ↦
      let same : u32 (base * 4) ≡ 4 * base = omega (arith, low) in
      rw (e, same) (inl ((str_eq_iff ctx.fn_name main_name).0 e, refl))
  | inr e ↦
      let other : ctx.fn_name ≢ main_name =
        λ same. let yes = (str_eq_iff ctx.fn_name main_name).1 same in ground (arith, yes, e) in
      elim (Bool-cases (ltb (length a.fn_syms) label_cap)) [
        | inl room ↦ rw (room, e) (inr (other, refl))
        | inr full ↦ rw (full, e) (inr (other, refl))
      ]
]

settle_label-done : (delta : ℕ) (l : Label) → l.done ≡ true → settle_label delta l ≡ l
unfolding settle_label
settle_label-done delta l e = rw e refl

settle_fixup-done : (delta : ℕ) (fx : Fixup) → fx.done ≡ true → settle_fixup delta fx ≡ fx
unfolding settle_fixup
settle_fixup-done delta fx e = rw e refl

module _ (a : Asm) (c : ℕ) (fits : length a.code + length a.prol + length a.body ≤ code_cap) where
  abbrev delta : ℕ
  delta = length a.code + length a.prol

  settled : Asm
  settled = record a {
    code = (a.code ++ a.prol) ++ a.body;
    labels = map (settle_label delta) a.labels;
    fixups = map (settle_fixup delta) a.fixups;
  }

  emit_fn_end-Kept : Kept settled (emit_fn_end a c)
  unfolding emit_fn_end Kept settled
  emit_fn_end-Kept =
      let room : ltb code_cap (delta + length a.body) ≡ false = ground arith in
      let ctx = get_or a.contexts c no_context in
      elim (Bool-cases ctx.fn_named) [
        | inl e ↦ rw (room, e) (name_fn-Kept settled ctx (length a.code))
        | inr e ↦ rw (room, e) (refl, refl, refl)
      ]

  emit_fn_end-Named :
      Named
        (get_or a.contexts c no_context).fn_named
        a
        (emit_fn_end a c).fn_syms
        (emit_fn_end a c).entry_off
        (get_or a.contexts c no_context)
  unfolding emit_fn_end Named settled
  emit_fn_end-Named =
      let room : ltb code_cap (delta + length a.body) ≡ false = ground arith in
      let ctx = get_or a.contexts c no_context in
      elim (Bool-cases ctx.fn_named) [
        | inl e ↦
            rw (room, e)
              (
                symbol_named settled ctx (length a.code),
                entry_named settled ctx (length a.code) (omega arith),
              )
        | inr e ↦ rw (room, e) (refl, refl)
      ]

  in_code : (w : ℕ) → get_or ((a.code ++ a.prol) ++ a.body) (delta + w) 0 ≡ get_or a.body w 0
  in_code w = rw (← length-append a.code a.prol) (get_or-append_right (a.code ++ a.prol) a.body w 0)

  word :
      (w : ℕ)
      → w ≤ length a.body
      → get_or ((a.code ++ a.prol) ++ a.body) (u32 (w + delta)) 0 ≡ get_or a.body w 0
  word w low = let same : u32 (w + delta) ≡ delta + w = omega arith in rw same (in_code w)

  -- Where a function fits the code buffer, its end leaves the code before it as it was; a label of
  -- the function stands before the same word as in the body; a fixup of the function has the same
  -- word at its site; and the labels and fixups of earlier functions stay. A function with a name
  -- gets a symbol at its first word, while there is room for one, and `main` is the program's entry.
  pub emit_fn_end_lem :
      (n : ℕ) (l : Label) (m : ℕ) (fx : Fixup)
      → get_elem? a.labels n ≡ some l
      → l.done ≡ false
      → l.word ≤ length a.body
      → get_elem? a.fixups m ≡ some fx
      → fx.done ≡ false
      → fx.site < length a.body
      → let a' = emit_fn_end a c in
        ((j : ℕ) → j < length a.code → get_or a'.code j 0 ≡ get_or a.code j 0)
        × ((l' : Label) × (get_elem? a'.labels n ≡ some l')
            × (l'.key ≡ l.key)
            × (l'.done ≡ true)
            × (get_or a'.code l'.word 0 ≡ get_or a.body l.word 0))
        × ((fx' : Fixup) × (get_elem? a'.fixups m ≡ some fx')
            × (fx'.key ≡ fx.key)
            × (fx'.done ≡ true)
            × (get_or a'.code fx'.site 0 ≡ get_or a.body fx.site 0))
        × ((k : ℕ) (old : Label)
            → get_elem? a.labels k ≡ some old
            → old.done ≡ true
            → get_elem? a'.labels k ≡ some old)
        × ((k : ℕ) (old : Fixup)
            → get_elem? a.fixups k ≡ some old
            → old.done ≡ true
            → get_elem? a'.fixups k ≡ some old)
        × Named
            (get_or a.contexts c no_context).fn_named
            a
            a'.fn_syms
            a'.entry_off
            (get_or a.contexts c no_context)
  unfolding settle_label settle_fixup Kept settled
  emit_fn_end_lem n l m fx at_n fresh_l low at_m fresh_fx inside =
      let (code, labels, fixups) = emit_fn_end-Kept in
      let named = emit_fn_end-Named in
      rw (code, labels, fixups)
        (
          λ j k.
              get_or-append_left (a.code ++ a.prol) a.body j 0
                (rw (length-append a.code a.prol) (omega arith))
              ∙ get_or-append_left a.code a.prol j 0 k,
          (
            settle_label delta l,
            get_elem?-map (settle_label delta) a.labels n at_n,
            rw fresh_l refl,
            rw fresh_l refl,
            rw fresh_l (word l.word low),
          ),
          (
            settle_fixup delta fx,
            get_elem?-map (settle_fixup delta) a.fixups m at_m,
            rw fresh_fx refl,
            rw fresh_fx refl,
            rw fresh_fx (word fx.site (omega arith)),
          ),
          λ k old at_k before.
              get_elem?-map (settle_label delta) a.labels k at_k
              ∙ ap (λ l. some l) (settle_label-done delta old before),
          λ k old at_k before.
              get_elem?-map (settle_fixup delta) a.fixups k at_k
              ∙ ap (λ fx. some fx) (settle_fixup-done delta old before),
          named,
        )
