-- ===== src/X86/Encode/Disp.antt =====
-- Displacements and other values of 32 bits, as bytes that the machine reads.
use allang.Base.{
  ℕ, ◌+◌, ◌*◌, ◌^◌, ◌<◌, ◌≡◌, refl, sym, ap, arith, Bool, true, false, not, ◌&&◌, some, List, ◌++◌,
  ◌==◌, inl, inr, Bool-cases, bit_and, ℤ, pos, negsuc, to_bits, to_signed, leb_ℤ, eqb_ℤ, ◌>>>◌,
}
use allang.Base.Bits.{bit_and_low}
use allang.X86.Encode.{choose_mod, put_disp}
use allang.X86.Machine.{read_disp, disp_size}

-- A displacement of 32 bits.
abbrev pub IsI32 : ℤ → Type 0
IsI32 (pos n) = n < 2 ^ 31
IsI32 (negsuc n) = n < 2 ^ 31

signed_8 :
    (d : ℤ) → leb_ℤ (negsuc 127) d && leb_ℤ d (pos 127) ≡ true → to_signed 8 (to_bits 8 d) ≡ d
signed_8 (pos n) h = ground (arith, h)
signed_8 (negsuc n) h = ground (arith, h)

pub signed_32 : (d : ℤ) → IsI32 d → to_signed 32 (to_bits 32 d) ≡ d
signed_32 (pos n) h = ground arith
signed_32 (negsuc n) h = ground arith

pub to_bits-lt : (d : ℤ) → to_bits 32 d < 2 ^ 32
to_bits-lt (pos n) = omega arith
to_bits-lt (negsuc n) = omega arith

-- Four bytes, little end first.
pub bytes_32 :
    (v : ℕ)
    → v < 2 ^ 32
    → bit_and v 0xff
        + 2 ^ 8 * bit_and (v >>> 8) 0xff
        + 2 ^ 16 * bit_and (v >>> 16) 0xff
        + 2 ^ 24 * bit_and (v >>> 24) 0xff
      ≡ v
bytes_32 v h = omega (
  arith,
  bit_and_low 8 v,
  bit_and_low 8 (v >>> 8),
  bit_and_low 8 (v >>> 16),
  bit_and_low 8 (v >>> 24),
)

pub is_zero : (d : ℤ) (b : Bool) → eqb_ℤ d (pos 0) && b ≡ true → d ≡ pos 0
is_zero (pos n) b h = let same : n ≡ 0 = ground (arith, h) in ap pos same
is_zero (negsuc n) b h = absurd (ground (arith, h))

-- The form of a displacement: none only where it is 0 and the base is not 5 or 13.
unfoldable pub Form : ℤ → ℕ → ℕ → Type 0
Form d low mode =
    (mode < 3)
    × ((mode == 0) && (low == 5) ≡ false)
    × ((rest : List ℕ) → read_disp (disp_size mode) (put_disp d mode ++ rest) ≡ some (d, rest))

pub choose_mod-Form : (d : ℤ) (low : ℕ) → IsI32 d → Form d low (choose_mod d low)
unfolding Form choose_mod put_disp read_disp
choose_mod-Form d low h = elim (Bool-cases (eqb_ℤ d (pos 0) && not (low == 5))) [
  | inl e ↦ rw e (
    omega arith,
    ground (arith, e),
    λ rest. ap (λ z. some (z, rest)) (sym (is_zero d (not (low == 5)) e)),
  )
  | inr e ↦ elim (Bool-cases (leb_ℤ (negsuc 127) d && leb_ℤ d (pos 127))) [
    | inl near ↦ rw (e, near) (omega arith, refl, λ rest. rw (signed_8 d near) refl)
    | inr far ↦
        rw (e, far)
          (
            omega arith,
            refl,
            λ rest. rw (bytes_32 (to_bits 32 d) (to_bits-lt d), signed_32 d h) refl,
          )
  ]
]
