-- ===== src/X86/Asm/Store.antt =====
-- Bytes that are stored at a site, and where a distance there leads.
use allang.Base.{
  ℕ, zero, suc, ◌+◌, ◌*◌, ◌^◌, ◌<◌, ◌≤◌, ◌≡◌, ◌⊎◌, inl, inr, refl, ◌∙◌, arith, List, [], ◌∷◌,
  get_or, set, length, length-set, get_or-set_self, get_or-set_ne, ℤ, pos, ◌+ℤ◌, to_signed, to_bits,
  sub_ℕ, leb, Bool-cases,
}
use allang.X86.Asm.{Image, store, rel32, patch_rel}
use allang.X86.Encode.{put32}
use allang.X86.Encode.Disp.{bytes_32, to_bits-lt, IsI32, signed_32}

pub length-store : (bs code : List ℕ) (site : ℕ) → length (store code site bs) ≡ length code
unfolding store
length-store [] code site = refl
length-store (b ∷ bs) code site =
    length-store bs (set code site b) (site + 1) ∙ length-set code site b

-- A byte before or behind what is stored stays.
pub store_outside :
    (bs code : List ℕ) (site j : ℕ)
    → (j < site) ⊎ (site + length bs ≤ j)
    → get_or (store code site bs) j 0 ≡ get_or code j 0
unfolding store
store_outside [] code site j out = refl
store_outside (b ∷ bs) code site j out =
    store_outside bs (set code site b) (site + 1) j
      (elim out [ inl h ↦ inl (omega arith) | inr h ↦ inr (omega arith) ])
    ∙ get_or-set_ne code site j b 0 (λ e. elim out [ inl h ↦ omega arith | inr h ↦ omega arith ])

store_at :
    (bs code : List ℕ) (site i j : ℕ)
    → j ≡ site + i
    → i < length bs
    → site + length bs ≤ length code
    → get_or (store code site bs) j 0 ≡ get_or bs i 0
unfolding store
store_at [] code site i j e low room = absurd (omega arith)
store_at (b ∷ bs) code site zero j e low room =
    store_outside bs (set code site b) (site + 1) j (inl (omega arith))
    ∙ (let here : j ≡ site = omega arith in rw here (get_or-set_self code site b 0 (omega arith)))
store_at (b ∷ bs) code site (suc i) j e low room =
    store_at bs (set code site b) (site + 1) i j (omega arith) (omega arith)
      (rw (length-set code site b) (omega arith))

-- Four bytes at a site, little end first, and where an instruction that ends behind them leads.
unfoldable pub read32 : List ℕ → ℕ → ℕ
read32 code site =
    get_or code site 0
    + 2 ^ 8 * get_or code (site + 1) 0
    + 2 ^ 16 * get_or code (site + 2) 0
    + 2 ^ 24 * get_or code (site + 3) 0

unfoldable pub leads : List ℕ → ℕ → ℤ
unfolding read32
leads code site = pos (site + 4) +ℤ to_signed 32 (read32 code site)

store_four :
    (b0 b1 b2 b3 : ℕ) (code : List ℕ) (site : ℕ)
    → site + 4 ≤ length code
    → read32 (store code site (b0 ∷ b1 ∷ b2 ∷ b3 ∷ [])) site
      ≡ b0 + 2 ^ 8 * b1 + 2 ^ 16 * b2 + 2 ^ 24 * b3
unfolding read32
store_four b0 b1 b2 b3 code site room =
    let bs : List ℕ = b0 ∷ b1 ∷ b2 ∷ b3 ∷ [] in
    rw
      (
        store_at bs code site 0 site (omega arith) (omega arith) room,
        store_at bs code site 1 (site + 1) (omega arith) (omega arith) room,
        store_at bs code site 2 (site + 2) (omega arith) (omega arith) room,
        store_at bs code site 3 (site + 3) (omega arith) (omega arith) room,
      )
      refl

pub store-put32 :
    (v : ℕ) (code : List ℕ) (site : ℕ)
    → v < 2 ^ 32
    → site + 4 ≤ length code
    → read32 (store code site (put32 v)) site ≡ v
store-put32 v code site h room = store_four _ _ _ _ code site room ∙ bytes_32 v h

-- Places in code and strings are close enough for 32 bits.
rel-IsI32 : (target site : ℕ) → target < 2 ^ 30 → site < 2 ^ 30 → IsI32 (sub_ℕ target (site + 4))
rel-IsI32 target site ht hs = elim (Bool-cases (leb (site + 4) target)) [
  | inl e ↦ rw e (omega arith)
  | inr e ↦ rw e (omega arith)
]

back_to : (target from : ℕ) → pos from +ℤ sub_ℕ target from ≡ pos target
back_to target from = ground arith

pub patch_rel-leads :
    (im : Image) (site target : ℕ)
    → target < 2 ^ 30
    → site < 2 ^ 30
    → site + 4 ≤ length im.code
    → leads (patch_rel im site target).code site ≡ pos target
unfolding leads patch_rel rel32
patch_rel-leads im site target ht hs room =
    let rel = sub_ℕ target (site + 4) in
    rw
      (
        store-put32 (to_bits 32 rel) im.code site (to_bits-lt rel) room,
        signed_32 rel (rel-IsI32 target site ht hs),
      )
      (back_to target (site + 4))
