-- ===== src/X86/Asm/Laws.antt =====
-- Where a patched site leads.
use allang.Base.{
  ℕ, zero, suc, ◌+◌, ◌^◌, ◌<◌, ◌≤◌, ◌≡◌, ◌≢◌, ◌⊎◌, inl, inr, refl, ◌∙◌, ap, sym, arith, Option,
  none, some, List, [], ◌∷◌, get_or, get_elem?, Bool, true, ◌&&◌, ◌||◌, length, pos, to_bits, sub_ℕ,
  leb, ◌==◌, Bool-cases,
}
use allang.X86.Asm.{
  Label, Fixup, FixupKind, fx_jmp, fx_jcc, fx_call, fx_str, Image, code_cap, find_at, rel32,
  call_import, import_index, import_cap, at_target, patch_rel, patch_kind, patch_fixup, patch_all,
}
use allang.Str.{Str, str_eq, str_eq_refl, str_eq_iff}
use allang.X86.Encode.{put32}
use allang.X86.Asm.Store.{length-store, store_outside, leads, patch_rel-leads}

-- The first of the labels with a key stands at `t`.
unfoldable pub First : List Label → Str → ℕ → Type 0
First [] key t = ⊥
First (l ∷ tab) key t = ((l.key ≡ key) × (l.at ≡ t)) ⊎ ((l.key ≢ key) × First tab key t)

First-find_at : (tab : List Label) (key : Str) (t : ℕ) → First tab key t → find_at tab key ≡ some t
unfolding First find_at
First-find_at [] key t first = absurd first
First-find_at (l ∷ tab) key t (inl (same, at)) =
    let e : str_eq l.key key ≡ true = rw same (str_eq_refl key) in rw e (ap some at)
First-find_at (l ∷ tab) key t (inr (other, first)) = elim (Bool-cases (str_eq l.key key)) [
  | inl e ↦ absurd (other ((str_eq_iff l.key key).0 e))
  | inr e ↦ rw e (First-find_at tab key t first)
]

-- A fixup of a kind refers to `t`: to the first label or function of its key, or to its string behind
-- the code.
unfoldable pub Refers : List Label → List Label → ℕ → Fixup → FixupKind → ℕ → Type 0
Refers labels fn_syms code_len fx fx_jmp t = First labels fx.key t
Refers labels fn_syms code_len fx fx_jcc t = First labels fx.key t
Refers labels fn_syms code_len fx fx_call t = First fn_syms fx.key t
Refers labels fn_syms code_len fx fx_str t = code_len + fx.aux ≡ t

-- What the tables give for it.
resolve_kind : List Label → List Label → ℕ → Fixup → FixupKind → Option ℕ
resolve_kind labels fn_syms code_len fx fx_jmp = find_at labels fx.key
resolve_kind labels fn_syms code_len fx fx_jcc = find_at labels fx.key
resolve_kind labels fn_syms code_len fx fx_call = find_at fn_syms fx.key
resolve_kind labels fn_syms code_len fx fx_str = some (code_len + fx.aux)

resolve : List Label → List Label → ℕ → Fixup → Option ℕ
unfolding resolve_kind
resolve labels fn_syms code_len fx = resolve_kind labels fn_syms code_len fx fx.kind

Refers-resolve :
    (labels fn_syms : List Label) (code_len : ℕ) (fx : Fixup) (kind : FixupKind) (t : ℕ)
    → Refers labels fn_syms code_len fx kind t
    → resolve_kind labels fn_syms code_len fx kind ≡ some t
unfolding Refers resolve_kind
Refers-resolve labels fn_syms code_len fx fx_jmp t r = First-find_at labels fx.key t r
Refers-resolve labels fn_syms code_len fx fx_jcc t r = First-find_at labels fx.key t r
Refers-resolve labels fn_syms code_len fx fx_call t r = First-find_at fn_syms fx.key t r
Refers-resolve labels fn_syms code_len fx fx_str t r = ap some r

-- Code of one length whose bytes differ at the four bytes of a site at most.
unfoldable pub KeptBut : ℕ → List ℕ → List ℕ → Type 0
KeptBut site code code' =
    (length code' ≡ length code)
    × ((j : ℕ) → (j < site) ⊎ (site + 4 ≤ j) → get_or code' j 0 ≡ get_or code j 0)

patch_rel-KeptBut :
    (im : Image) (site target : ℕ) → KeptBut site im.code (patch_rel im site target).code
unfolding KeptBut patch_rel rel32
patch_rel-KeptBut im site target =
    let bs = put32 (to_bits 32 (sub_ℕ target (site + 4))) in
    (length-store bs im.code site, λ j out. store_outside bs im.code site j out)

call_import-code : (im : Image) (fx : Fixup) → (call_import im fx).code ≡ im.code
unfolding call_import
call_import-code im fx = elim (Bool-cases (import_index im.imports fx.key == length im.imports)) [
  | inl e ↦ rw e (elim (Bool-cases (leb import_cap (length im.imports))) [
    | inl f ↦ rw f refl
    | inr f ↦ rw f refl
  ])
  | inr e ↦ rw e refl
]

at_target-KeptBut :
    (found : Option ℕ) (im missing : Image) (site : ℕ)
    → missing.code ≡ im.code
    → KeptBut site im.code (at_target found im site missing).code
unfolding at_target KeptBut
at_target-KeptBut none im missing site e = rw e (refl, λ j out. refl)
at_target-KeptBut (some target) im missing site e = patch_rel-KeptBut im site target

module _ (labels fn_syms : List Label) (code_len : ℕ) where
  patch_kind-KeptBut :
      (im : Image) (fx : Fixup) (kind : FixupKind)
      → KeptBut fx.site im.code (patch_kind labels fn_syms code_len im fx kind).code
  unfolding patch_kind
  patch_kind-KeptBut im fx fx_str = patch_rel-KeptBut im fx.site (code_len + fx.aux)
  patch_kind-KeptBut im fx fx_call =
      at_target-KeptBut (find_at fn_syms fx.key) im (call_import im fx) fx.site
        (call_import-code im fx)
  patch_kind-KeptBut im fx fx_jmp =
      at_target-KeptBut (find_at labels fx.key) im (record im { reports = im.reports + 1 }) fx.site
        refl
  patch_kind-KeptBut im fx fx_jcc =
      at_target-KeptBut (find_at labels fx.key) im (record im { reports = im.reports + 1 }) fx.site
        refl

  patch_fixup-KeptBut :
      (im : Image) (fx : Fixup)
      → KeptBut fx.site im.code (patch_fixup labels fn_syms code_len im fx).code
  unfolding patch_fixup
  patch_fixup-KeptBut im fx = patch_kind-KeptBut im fx fx.kind

  patch_kind-at :
      (im : Image) (fx : Fixup) (kind : FixupKind) (t : ℕ)
      → resolve_kind labels fn_syms code_len fx kind ≡ some t
      → patch_kind labels fn_syms code_len im fx kind ≡ patch_rel im fx.site t
  unfolding patch_kind resolve_kind at_target
  patch_kind-at im fx fx_str t found =
      let same : code_len + fx.aux ≡ t = cc in ap (patch_rel im fx.site) same
  patch_kind-at im fx fx_call t found = rw found refl
  patch_kind-at im fx fx_jmp t found = rw found refl
  patch_kind-at im fx fx_jcc t found = rw found refl

  patch_fixup-at :
      (im : Image) (fx : Fixup) (t : ℕ)
      → resolve labels fn_syms code_len fx ≡ some t
      → patch_fixup labels fn_syms code_len im fx ≡ patch_rel im fx.site t
  unfolding patch_fixup resolve
  patch_fixup-at im fx t found = patch_kind-at im fx fx.kind t found

-- Do two fixups have no byte in common?
abbrev pub apart : Fixup → Fixup → Bool
apart a b = leb (a.site + 4) b.site || leb (b.site + 4) a.site

abbrev pub all_apart : Fixup → List Fixup → Bool
all_apart fx [] = true
all_apart fx (g ∷ gs) = apart fx g && all_apart fx gs

abbrev pub separated : List Fixup → Bool
separated [] = true
separated (fx ∷ fxs) = all_apart fx fxs && separated fxs

-- Do the sites of fixups stand in the first `n` bytes?
abbrev pub all_within : ℕ → List Fixup → Bool
all_within n [] = true
all_within n (fx ∷ fxs) = leb (fx.site + 4) n && all_within n fxs

byte_apart :
    (a b : Fixup) (j : ℕ)
    → apart a b ≡ true
    → a.site ≤ j
    → j < a.site + 4
    → (j < b.site) ⊎ (b.site + 4 ≤ j)
byte_apart a b j h low high = elim (Bool-cases (leb (a.site + 4) b.site)) [
  | inl e ↦ inl (ground (arith, e))
  | inr e ↦ inr (ground (arith, h, e))
]

KeptBut-leads :
    (a b : Fixup) (code code' : List ℕ)
    → apart a b ≡ true
    → KeptBut b.site code code'
    → leads code' a.site ≡ leads code a.site
unfolding leads KeptBut
KeptBut-leads a b code code' h (same, kept) =
    rw
      (
        kept a.site (byte_apart a b (a.site) h (omega arith) (omega arith)),
        kept (a.site + 1) (byte_apart a b (a.site + 1) h (omega arith) (omega arith)),
        kept (a.site + 2) (byte_apart a b (a.site + 2) h (omega arith) (omega arith)),
        kept (a.site + 3) (byte_apart a b (a.site + 3) h (omega arith) (omega arith)),
      )
      refl

module _ (labels fn_syms : List Label) (code_len : ℕ) where
  abbrev patched : Image → List Fixup → List ℕ
  patched im fxs = (patch_all labels fn_syms code_len im fxs).code

  -- Later patches leave where a site leads.
  patch_all-leads :
      (fx : Fixup) (fxs : List Fixup) (im : Image)
      → all_apart fx fxs ≡ true
      → leads (patched im fxs) fx.site ≡ leads im.code fx.site
  unfolding patch_all
  patch_all-leads fx [] im h = refl
  patch_all-leads fx (g ∷ gs) im h =
      let im' = patch_fixup labels fn_syms code_len im g in
      patch_all-leads fx gs im' (ground (arith, h))
      ∙ KeptBut-leads fx g im.code im'.code (ground (arith, h))
          (patch_fixup-KeptBut labels fn_syms code_len im g)

  patch_all-found :
      (fxs : List Fixup) (im : Image) (i : ℕ) (fx : Fixup) (t : ℕ)
      → separated fxs ≡ true
      → all_within (length im.code) fxs ≡ true
      → length im.code ≤ code_cap
      → get_elem? fxs i ≡ some fx
      → resolve labels fn_syms code_len fx ≡ some t
      → t < 2 ^ 30
      → leads (patched im fxs) fx.site ≡ pos t
  unfolding patch_all KeptBut
  patch_all-found [] im i fx t sep inside few at_i found low = cc
  patch_all-found (g ∷ gs) im zero fx t sep inside few at_i found low =
      let same : g ≡ fx = cc in
      let site : g.site ≡ fx.site = ap Fixup.site same in
      let alone : all_apart g gs ≡ true = ground (arith, sep) in
      let room : fx.site + 4 ≤ length im.code = ground (arith, inside, site) in
      patch_all-leads fx gs (patch_fixup labels fn_syms code_len im g)
        (ap (λ x. all_apart x gs) (sym same) ∙ alone)
      ∙ ap (λ x. leads (patch_fixup labels fn_syms code_len im x).code fx.site) same
      ∙ ap (λ (im' : Image). leads im'.code fx.site)
          (patch_fixup-at labels fn_syms code_len im fx t found)
      ∙ patch_rel-leads im fx.site t low (omega arith) room
  patch_all-found (g ∷ gs) im (suc i) fx t sep inside few at_i found low =
      let im' = patch_fixup labels fn_syms code_len im g in
      let (same, kept) = patch_fixup-KeptBut labels fn_syms code_len im g in
      patch_all-found gs im' i fx t (ground (arith, sep)) (rw same (ground (arith, inside)))
        (omega arith) at_i found low

  -- Where fixups in the code have no byte in common, after all the patches each fixup leads to what it
  -- refers to, be it ahead or behind: to the first label, or for a call the first function, of its key
  -- where there is one, and to its string behind the code. What an instruction that ends with its four
  -- bytes takes as its target is that place.
  pub patch_all-target :
      (fxs : List Fixup) (im : Image) (i : ℕ) (fx : Fixup) (t : ℕ)
      → separated fxs ≡ true
      → all_within (length im.code) fxs ≡ true
      → length im.code ≤ code_cap
      → get_elem? fxs i ≡ some fx
      → Refers labels fn_syms code_len fx fx.kind t
      → t < 2 ^ 30
      → leads (patched im fxs) fx.site ≡ pos t
  unfolding resolve
  patch_all-target fxs im i fx t sep inside few at_i refers low =
      patch_all-found fxs im i fx t sep inside few at_i
        (Refers-resolve labels fn_syms code_len fx fx.kind t refers) low
