-- ===== src/Exe/Calls/Laws.antt =====
-- Where the calls of imports lead after their patches.
use allang.Base.{
  ℕ, zero, suc, ◌+◌, ◌%◌, ◌^◌, ◌<◌, ◌≤◌, ◌≡◌, ◌⊎◌, inl, inr, refl, ◌∙◌, ap, arith, Bool, true, ◌&&◌,
  ◌||◌, ltb, leb, ◌==◌, Bool-cases, some, get_or, List, [], ◌∷◌, length, get_elem?, ℤ, pos,
}
use allang.Exe.Image.{Extcall}
use allang.Exe.Calls.{patch_call, patch_calls}
use allang.X86.Asm.{store}
use allang.X86.Asm.Store.{read32, length-store, store_outside, store-put32}
use allang.X86.Encode.{put32}

-- Do the four bytes of two sites have none in common?
abbrev pub apart : ℕ → ℕ → Bool
apart a b = leb (a + 4) b || leb (b + 4) a

abbrev pub all_apart : ℕ → List Extcall → Bool
all_apart site [] = true
all_apart site (e ∷ es) = apart site e.site && all_apart site es

abbrev pub separated : List Extcall → Bool
separated [] = true
separated (e ∷ es) = all_apart e.site es && separated es

-- Sites in a text, at places for code, that call imports there are.
abbrev pub all_sound : (grain text_size nimp : ℕ) → List Extcall → Bool
all_sound grain text_size nimp [] = true
all_sound grain text_size nimp (e ∷ es) =
    leb (e.site + 4) text_size
    && (e.site % grain == 0)
    && ltb e.imp nimp
    && all_sound grain text_size nimp es

-- Are the words at the sites those of calls?
abbrev pub all_calls : (ℕ → Bool) → List Extcall → List ℕ → Bool
all_calls is_call [] text = true
all_calls is_call (e ∷ es) text = is_call (read32 text e.site) && all_calls is_call es text

pub all_calls-any : (es : List Extcall) (text : List ℕ) → all_calls (λ w. true) es text ≡ true
all_calls-any [] text = refl
all_calls-any (e ∷ es) text = all_calls-any es text

-- Is a byte none of the four at any site?
abbrev pub outside : ℕ → List Extcall → Bool
outside k [] = true
outside k (e ∷ es) = (ltb k e.site || leb (e.site + 4) k) && outside k es

-- What a sound call calls.
pub all_sound-imp :
    (grain text_size nimp : ℕ) (es : List Extcall) (j : ℕ) (e : Extcall)
    → all_sound grain text_size nimp es ≡ true
    → get_elem? es j ≡ some e
    → e.imp < nimp
all_sound-imp grain text_size nimp [] j e sound at_j = cc
all_sound-imp grain text_size nimp (e ∷ es) zero e' sound at_j =
    let same : e' ≡ e = cc in rw same (ground (arith, sound))
all_sound-imp grain text_size nimp (e ∷ es) (suc j) e' sound at_j =
    all_sound-imp grain text_size nimp es j e' (ground (arith, sound)) at_j

byte_out : (a b i : ℕ) → apart a b ≡ true → i < 4 → (a + i < b) ⊎ (b + 4 ≤ a + i)
byte_out a b i h low = elim (Bool-cases (leb (a + 4) b)) [
  | inl e ↦ inl (ground (arith, e, low))
  | inr e ↦ inr (ground (arith, h, e, low))
]

-- A word at a site apart from the one that is written.
and_left : (a b : Bool) → a && b ≡ true → a ≡ true
and_left a b h = ground (arith, h)

and_right : (a b : Bool) → a && b ≡ true → b ≡ true
and_right a b h = ground (arith, h)

byte_kept : (k site : ℕ) → ltb k site || leb (site + 4) k ≡ true → (k < site) ⊎ (site + 4 ≤ k)
byte_kept k site h = elim (Bool-cases (ltb k site)) [
  | inl e ↦ inl (ground (arith, e))
  | inr e ↦ inr (ground (arith, h, e))
]

read32-store :
    (code : List ℕ) (v a b : ℕ)
    → apart a b ≡ true
    → read32 (store code b (put32 v)) a ≡ read32 code a
unfolding read32
read32-store code v a b h =
    let first : a + 0 ≡ a = omega arith in
    rw
      (
        store_outside (put32 v) code b a (rw first at (byte_out a b 0 h (omega arith))),
        store_outside (put32 v) code b (a + 1) (byte_out a b 1 h (omega arith)),
        store_outside (put32 v) code b (a + 2) (byte_out a b 2 h (omega arith)),
        store_outside (put32 v) code b (a + 3) (byte_out a b 3 h (omega arith)),
      )
      refl

all_calls-store :
    (is_call : ℕ → Bool) (es : List Extcall) (text : List ℕ) (site v : ℕ)
    → all_apart site es ≡ true
    → all_calls is_call es text ≡ true
    → all_calls is_call es (store text site (put32 v)) ≡ true
all_calls-store is_call [] text site v h calls = refl
all_calls-store is_call (e ∷ es) text site v h calls =
    let same = read32-store text v e.site site (ground (arith, h)) in
    let rest =
      all_calls-store is_call es text site v (ground (arith, h))
        (and_right (is_call (read32 text e.site)) (all_calls is_call es text) calls) in
    rw (same, rest)
      (ap (λ b. b && true)
        (and_left (is_call (read32 text e.site)) (all_calls is_call es text) calls))

module _ (patched_word : ℕ → ℕ → ℕ → ℕ) (call_target : ℕ → ℕ → ℤ) (text_vaddr : ℕ)
    (entry : ℕ → ℕ) where
  -- Later calls leave a site.
  patch_calls-kept :
      (site : ℕ) (es : List Extcall) (text : List ℕ)
      → all_apart site es ≡ true
      → read32 (patch_calls patched_word text_vaddr entry es text) site ≡ read32 text site
  unfolding patch_calls patch_call
  patch_calls-kept site [] text h = refl
  patch_calls-kept site (e ∷ es) text apart_all =
      let v = patched_word (read32 text e.site) (text_vaddr + e.site) (entry e.imp) in
      patch_calls-kept site es (store text e.site (put32 v)) (ground (arith, apart_all))
      ∙ read32-store text v site e.site (ground (arith, apart_all))

  -- No other byte is written.
  pub patch_calls-outside :
      (k : ℕ) (es : List Extcall) (text : List ℕ)
      → outside k es ≡ true
      → get_or (patch_calls patched_word text_vaddr entry es text) k 0 ≡ get_or text k 0
  unfolding patch_calls patch_call
  patch_calls-outside k [] text h = refl
  patch_calls-outside k (e ∷ es) text h =
      let v = patched_word (read32 text e.site) (text_vaddr + e.site) (entry e.imp) in
      patch_calls-outside k es (store text e.site (put32 v)) (ground (arith, h))
      ∙ store_outside (put32 v) text e.site k (byte_kept k e.site (ground (arith, h)))

  length-patch_call :
      (text : List ℕ) (site s t : ℕ) → length (patch_call patched_word text site s t) ≡ length text
  unfolding patch_call
  length-patch_call text site s t =
      length-store (put32 (patched_word (read32 text site) s t)) text site

  pub length-patch_calls :
      (es : List Extcall) (text : List ℕ)
      → length (patch_calls patched_word text_vaddr entry es text) ≡ length text
  unfolding patch_calls
  length-patch_calls [] text = refl
  length-patch_calls (e ∷ es) text =
      length-patch_calls es
        (patch_call patched_word text e.site (text_vaddr + e.site) (entry e.imp))
      ∙ length-patch_call text e.site (text_vaddr + e.site) (entry e.imp)

  abbrev Called : Extcall → List ℕ → Type 0
  Called e text = call_target (read32 text e.site) (text_vaddr + e.site) ≡ pos (entry e.imp)

  -- The machine makes a word that leads from each site to each import.
  module _ (grain nimp text_size : ℕ) (is_call : ℕ → Bool)
      (right : (w s i : ℕ)
        → s + 4 ≤ text_size
        → s % grain ≡ 0
        → i < nimp
        → is_call w ≡ true
        → (patched_word w (text_vaddr + s) (entry i) < 2 ^ 32)
          × (call_target (patched_word w (text_vaddr + s) (entry i)) (text_vaddr + s)
              ≡ pos (entry i))) where
    patched-Called :
        (e : Extcall) (text : List ℕ)
        → length text ≡ text_size
        → all_sound grain text_size nimp (e ∷ []) ≡ true
        → is_call (read32 text e.site) ≡ true
        → Called e (patch_call patched_word text e.site (text_vaddr + e.site) (entry e.imp))
    unfolding patch_call
    patched-Called e text long sound call =
        let inside : e.site + 4 ≤ text_size = ground (arith, sound) in
        let (small, leads) =
          right (read32 text e.site) e.site e.imp inside (ground (arith, sound))
            (ground (arith, sound)) call in
        rw (store-put32 _ text e.site small (omega (arith, inside, long))) leads

    -- After all the patches every site leads where its import is.
    pub patch_calls-Called :
        (es : List Extcall) (text : List ℕ) (j : ℕ) (e : Extcall)
        → length text ≡ text_size
        → separated es ≡ true
        → all_sound grain text_size nimp es ≡ true
        → all_calls is_call es text ≡ true
        → get_elem? es j ≡ some e
        → Called e (patch_calls patched_word text_vaddr entry es text)
    unfolding patch_calls
    patch_calls-Called [] text j e long sep sound calls at_j = cc
    patch_calls-Called (e ∷ es) text zero e' long sep sound calls at_j =
        let same : e' ≡ e = cc in
        let called = patched-Called e text long (ground (arith, sound)) (and_left _ _ calls) in
        let patched = patch_call patched_word text e.site (text_vaddr + e.site) (entry e.imp) in
        rw same (
          ap (λ w. call_target w (text_vaddr + e.site))
            (patch_calls-kept e.site es patched (ground (arith, sep)))
          ∙ called)
    patch_calls-Called (e ∷ es) text (suc j) e' long sep sound calls at_j =
        patch_calls-Called es
          (patch_call patched_word text e.site (text_vaddr + e.site) (entry e.imp)) j e'
          (length-patch_call text e.site _ _ ∙ long) (ground (arith, sep)) (ground (arith, sound))
          (unfold patch_call in
            all_calls-store is_call es text e.site _ (ground (arith, sep)) (and_right _ _ calls))
          at_j
