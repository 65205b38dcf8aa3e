-- ===== src/Aarch64/Asm/Laws.antt =====
-- Where a patched branch leads.
use allang.Base.{
  ℕ, true, false, ◌==◌, [], ◌∷◌, if◌then◌else◌, ◌+◌, ◌-◌, ◌*◌, ◌%◌, ◌^◌, ◌<◌, ◌≤◌, ◌≡◌, ◌≢◌, refl,
  ◌∙◌, ap, sym, Bool, arith, leb, List, get_or, length, ℤ, pos, ◌+ℤ◌, bit_and, get_or-set_self,
  get_or-set_ne, Option, none, some, ◌⊎◌, inl, inr, Bool-cases,
}
use allang.Base.Bits.{bit_or_disjoint, bit_and_low, bit_or_above}
use allang.Aarch64.Machine.{field, signed, cond_target, branch_target}
use allang.Aarch64.Words.{◌|||◌, cond_no}
use allang.Aarch64.Asm.{
  Label, Fixup, FixupKind, fx_cond, fx_branch, fx_call, fx_str, Image, branch_bits, rel_bits,
  patch_fixup, patch_rel, find_word, code_cap,
}
use allang.Str.{Str, str_eq, str_eq_refl, str_eq_iff}
use allang.Typesys.Reg.{Cond}

cond_no-lt : (c : Cond) → cond_no c < 16
cond_no-lt c = grind arith

module _ (target site : ℕ) (ht : target < code_cap) (hs : site < code_cap) where
  cond_bits : branch_bits fx_cond (rel_bits target site) ≡ (rel_bits target site % 2 ^ 19) * 2 ^ 5
  unfolding branch_bits
  cond_bits = rw (bit_and_low 19 (rel_bits target site)) (omega arith)

  cond_word :
      (c : ℕ)
      → c < 16
      → (0x54000000 + c ||| branch_bits fx_cond (rel_bits target site))
        ≡ 0x54000000 + (rel_bits target site % 2 ^ 19) * 2 ^ 5 + c
  cond_word c small = rw cond_bits (
      bit_or_above 5 0x2a00000 (rel_bits target site % 2 ^ 19) c (omega arith)
      ∙ rw (bit_or_disjoint 19 0x2a00000 (rel_bits target site % 2 ^ 19) refl (omega arith))
          (omega arith))

  rel_cases :
      ((rel_bits target site ≡ target - site) × (site ≤ target))
      ⊎ ((rel_bits target site ≡ 2 ^ 32 - (site - target)) × (target < site))
  rel_cases = elim (Bool-cases (leb site target)) [
    | inl e ↦ inl (rw e (omega arith), ground (arith, e))
    | inr e ↦ let below : target < site = ground (arith, e) in inr (rw e (omega arith), below)
  ]

  signed_19 : pos site +ℤ signed 19 (rel_bits target site % 2 ^ 19) ≡ pos target
  signed_19 = elim rel_cases [
    | inl (e, h) ↦ rw e (ground arith)
    | inr (e, h) ↦
        let low : (2 ^ 32 - (site - target)) % 2 ^ 19 ≡ 2 ^ 19 - (site - target) = omega arith in
        rw (e, low) (ground arith)
  ]

  signed_26 : pos site +ℤ signed 26 (rel_bits target site % 2 ^ 26) ≡ pos target
  signed_26 = elim rel_cases [
    | inl (e, h) ↦ rw e (ground arith)
    | inr (e, h) ↦
        let low : (2 ^ 32 - (site - target)) % 2 ^ 26 ≡ 2 ^ 26 - (site - target) = omega arith in
        rw (e, low) (ground arith)
  ]

  pub cond_lands :
      (c : Cond)
      → cond_target
          (cond_no c)
          site
          ((0x54000000 ||| cond_no c) ||| branch_bits fx_cond (rel_bits target site))
        ≡ pos target
  unfolding cond_target
  cond_lands c =
      let small = cond_no-lt c in
      rw (bit_or_disjoint 4 0x54000000 (cond_no c) refl small, cond_word (cond_no c) small)
        (let w = 0x54000000 + (rel_bits target site % 2 ^ 19) * 2 ^ 5 + cond_no c in
          let m : field w 5 19 ≡ rel_bits target site % 2 ^ 19 = omega (arith, small) in
          let opcode : field w 24 8 ≡ 0x54 = omega (arith, small) in
          let bit : field w 4 1 ≡ 0 = omega (arith, small) in
          let kept : field w 0 4 ≡ cond_no c = omega (arith, small) in
          let same : (cond_no c == cond_no c) ≡ true = ground arith in
          rw (m, opcode, bit, kept, same) signed_19)

  branch_bits_land :
      (link : Bool) (op : ℕ)
      → op % 2 ^ 26 ≡ 0
      → field op 26 5 ≡ 5
      → field op 31 1 ≡ (if link then 1 else 0)
      → branch_target link site (op ||| bit_and (rel_bits target site) 0x3ffffff) ≡ pos target
  unfolding branch_target
  branch_bits_land link op blank class linked =
      let w = op + rel_bits target site % 2 ^ 26 in
      let m : field w 0 26 ≡ rel_bits target site % 2 ^ 26 = omega (arith, blank) in
      let opcode : field w 26 5 ≡ 5 = omega (arith, blank, class) in
      let top : field w 31 1 ≡ (if link then 1 else 0) = omega (arith, blank) ∙ linked in
      let same : ((if link then 1 else 0) == (if link then 1 else 0)) ≡ true = ground arith in
      rw
        (
          bit_and_low 26 (rel_bits target site),
          bit_or_disjoint 26 op (rel_bits target site % 2 ^ 26) blank (omega arith),
          m,
          opcode,
          top,
          same,
        )
        signed_26

  pub branch_lands :
      (link : Bool)
      → let op : ℕ = if link then 0x94000000 else 0x14000000 in
        branch_target link site (op ||| bit_and (rel_bits target site) 0x3ffffff) ≡ pos target
  unfolding branch_target
  branch_lands false = branch_bits_land false 0x14000000 refl refl refl
  branch_lands true = branch_bits_land true 0x94000000 refl refl refl

-- The first of the labels with a key stands at `t`.
unfoldable pub First : List Label → Str → ℕ → Type 0
First [] key t = ⊥
First (l ∷ tab) key t = ((l.key ≡ key) × (l.word ≡ t)) ⊎ ((l.key ≢ key) × First tab key t)

First-find_word :
    (tab : List Label) (key : Str) (t : ℕ) → First tab key t → find_word tab key ≡ some t
unfolding First find_word
First-find_word [] key t first = absurd first
First-find_word (l ∷ tab) key t (inl (same, at)) =
    let e : str_eq l.key key ≡ true = rw same (str_eq_refl key) in rw e (ap some at)
First-find_word (l ∷ tab) key t (inr (other, first)) = elim (Bool-cases (str_eq l.key key)) [
  | inl e ↦ absurd (other ((str_eq_iff l.key key).0 e))
  | inr e ↦ rw e (First-find_word tab key t first)
]

-- A kind of fixup refers by its key to `t`: a string has no label.
unfoldable pub Refers : FixupKind → List Label → List Label → Str → ℕ → Type 0
Refers fx_cond labels fn_syms key t = First labels key t
Refers fx_branch labels fn_syms key t = First labels key t
Refers fx_call labels fn_syms key t = First fn_syms key t
Refers fx_str labels fn_syms key t = ⊥

-- What the tables give for it.
resolve : FixupKind → List Label → List Label → Str → Option ℕ
resolve fx_cond labels fn_syms key = find_word labels key
resolve fx_branch labels fn_syms key = find_word labels key
resolve fx_call labels fn_syms key = find_word fn_syms key
resolve fx_str labels fn_syms key = none

Refers-resolve :
    (kind : FixupKind) (labels fn_syms : List Label) (key : Str) (t : ℕ)
    → Refers kind labels fn_syms key t
    → resolve kind labels fn_syms key ≡ some t
unfolding Refers resolve
Refers-resolve fx_cond labels fn_syms key t r = First-find_word labels key t r
Refers-resolve fx_branch labels fn_syms key t r = First-find_word labels key t r
Refers-resolve fx_call labels fn_syms key t r = First-find_word fn_syms key t r
Refers-resolve fx_str labels fn_syms key t r = absurd r

-- The word that is put where the fixup is noted.
unfoldable pub blank : FixupKind → Cond → ℕ
blank fx_cond c = 0x54000000 ||| cond_no c
blank fx_branch c = 0x14000000
blank fx_call c = 0x94000000
blank fx_str c = 0x10000000

-- Where the machine goes from the word at a site.
unfoldable pub lands : FixupKind → Cond → ℕ → ℕ → ℤ
lands fx_cond c site w = cond_target (cond_no c) site w
lands fx_branch c site w = branch_target false site w
lands fx_call c site w = branch_target true site w
lands fx_str c site w = pos site

unfoldable pub Landed : Image → Image → FixupKind → Cond → ℕ → ℕ → Type 0
Landed im im' kind c site target =
    (lands kind c site (get_or im'.code site 0) ≡ pos target)
    × ((j : ℕ) → j ≢ site → get_or im'.code j 0 ≡ get_or im.code j 0)

module _ (labels fn_syms : List Label) (code_bytes : ℕ) (im : Image) (target : ℕ) where
  patched_word :
      (key : Str) (site aux : ℕ) (done : Bool) (kind : FixupKind)
      → site < length im.code
      → get_or
          (patch_rel im
            (record { key = key; site = site; aux = aux; kind = kind; done = done })
            target).code
          site
          0
        ≡ (get_or im.code site 0 ||| branch_bits kind (rel_bits target site))
  unfolding patch_rel
  patched_word key site aux done kind inside = get_or-set_self im.code site _ 0 inside

  others_kept :
      (key : Str) (site aux : ℕ) (done : Bool) (kind : FixupKind) (j : ℕ)
      → j ≢ site
      → get_or
          (patch_rel im
            (record { key = key; site = site; aux = aux; kind = kind; done = done })
            target).code
          j
          0
        ≡ get_or im.code j 0
  unfolding patch_rel
  others_kept key site aux done kind j ne = get_or-set_ne im.code site j _ 0 (λ e. ne (sym e))

  patch_rel-Landed :
      (key : Str) (site aux : ℕ) (done : Bool) (kind : FixupKind) (c : Cond)
      → lands kind c site (blank kind c ||| branch_bits kind (rel_bits target site)) ≡ pos target
      → site < length im.code
      → get_or im.code site 0 ≡ blank kind c
      → Landed im
          (patch_rel im
            (record { key = key; site = site; aux = aux; kind = kind; done = done })
            target)
          kind
          c
          site
          target
  unfolding Landed
  patch_rel-Landed key site aux done kind c there inside w =
      let word = patched_word key site aux done kind inside in
      (ap (lands kind c site) (rw w at word) ∙ there, others_kept key site aux done kind)

  patch-Landed :
      (key : Str) (site aux : ℕ) (done : Bool) (kind : FixupKind) (c : Cond)
      → resolve kind labels fn_syms key ≡ some target
      → target < code_cap
      → site < length im.code
      → length im.code ≤ code_cap
      → get_or im.code site 0 ≡ blank kind c
      → Landed im
          (patch_fixup labels fn_syms code_bytes im
            (record { key = key; site = site; aux = aux; kind = kind; done = done }))
          kind
          c
          site
          target
  unfolding patch_fixup resolve blank lands
  patch-Landed key site aux done fx_cond c found low inside few w = rw found (
      patch_rel-Landed key site aux done fx_cond c (cond_lands target site low (omega arith) c)
        inside w)
  patch-Landed key site aux done fx_branch c found low inside few w = rw found (
      patch_rel-Landed key site aux done fx_branch c
        (unfold branch_bits in branch_lands target site low (omega arith) false) inside w)
  patch-Landed key site aux done fx_call c found low inside few w = rw found (
      patch_rel-Landed key site aux done fx_call c
        (unfold branch_bits in branch_lands target site low (omega arith) true) inside w)
  patch-Landed key site aux done fx_str c found low inside few w = cc

  -- Where the code fits its buffer, a fixup of a branch, conditional branch or call, over the word that
  -- was put with it, makes that word a branch, one on the same condition, or a call, that leads to the
  -- first label, or function, of its key, be it ahead or behind, and changes no other word.
  pub patch_fixup-Landed :
      (fx : Fixup) (c : Cond)
      → Refers fx.kind labels fn_syms fx.key target
      → target < code_cap
      → fx.site < length im.code
      → length im.code ≤ code_cap
      → get_or im.code fx.site 0 ≡ blank fx.kind c
      → Landed im (patch_fixup labels fn_syms code_bytes im fx) fx.kind c fx.site target
  patch_fixup-Landed fx c found low inside few w =
      patch-Landed fx.key fx.site fx.aux fx.done fx.kind c
        (Refers-resolve fx.kind labels fn_syms fx.key target found) low inside few w
