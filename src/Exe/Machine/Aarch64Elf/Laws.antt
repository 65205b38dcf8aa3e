-- ===== src/Exe/Machine/Aarch64Elf/Laws.antt =====
-- The calls and PLT entries of AArch64, as the architecture reads them.
use allang.Base.{
  Bool, ℕ, ◌+◌, ◌-◌, ◌*◌, ◌/◌, ◌%◌, ◌^◌, ◌<◌, ◌≤◌, ◌≡◌, ◌⊎◌, refl, ◌∙◌, arith, true, ◌&&◌, ◌==◌,
  if◌then◌else◌, List, ◌++◌, ℤ, pos, negsuc, ◌+ℤ◌, sub_ℕ, to_bits, bit_and, ◌|||◌, ◌>>>◌, shl, u32,
  leb, ltb, false, inl, inr, Bool-cases,
}
use allang.Base.Bits.{bit_or_disjoint, bit_or_above, bit_and_low, bit_and_above, bit_and-le_right}
use allang.Parser.Struct.Align.{masked}
use allang.Aarch64.Machine.{field, signed}
use allang.X86.Asm.Store.{read32}
use allang.X86.Encode.Disp.{bytes_32}
use allang.Exe.Machine.{ElfLaws}
use allang.Exe.Machine.Aarch64Elf.{
  asr, page_of, page_bits, enc_adrp, enc_ldr64, build_plt_entry, patched_word, aarch64_elf,
}

abbrev pub scale : ℤ → ℕ → ℤ
scale (pos n) m = pos (n * m)
scale (negsuc n) m = negsuc (n * m + (m - 1))

-- BL: 100101, and 26 bits that count words.
abbrev pub is_call : ℕ → Bool
is_call w = field w 26 6 == 37

abbrev pub call_target : ℕ → ℕ → ℤ
call_target w vaddr =
    if is_call w then pos vaddr +ℤ scale (signed 26 (field w 0 26)) 4 else negsuc 0

-- ADRP: the page of the instruction, and 21 bits that count pages.
unfoldable pub adrp_target : ℕ → ℕ → ℤ
adrp_target w vaddr =
    pos (vaddr / 4096 * 4096) +ℤ scale (signed 21 (field w 5 19 * 4 + field w 29 2)) 4096

-- ADRP, LDR of 64 bits from its register with 12 bits that count eights, and BR to what was loaded.
-- Without that, no address.
unfoldable pub slot_of : ℕ → ℕ → ℕ → ℕ → ℤ
slot_of adrp ldr br vaddr =
    if (field adrp 31 1 == 1)
      && (field adrp 24 5 == 16)
      && (field ldr 22 10 == 0x3e5)
      && (field ldr 5 5 == field adrp 0 5)
      && (field br 10 22 == 0x3587c0)
      && (field br 0 5 == 0)
      && (field br 5 5 == field ldr 0 5)
    then adrp_target adrp vaddr +ℤ pos (field ldr 10 12 * 8)
    else negsuc 0

abbrev slot_target : List ℕ → ℕ → ℤ
slot_target bytes vaddr = slot_of (read32 bytes 0) (read32 bytes 4) (read32 bytes 12) vaddr

-- What the arithmetic shift gives of the distance of two multiples.
pub asr-cases :
    (a b : ℕ) → ((b ≤ a) × (sub_ℕ a b ≡ pos (a - b))) ⊎ ((a < b) × (sub_ℕ a b ≡ negsuc (b - a - 1)))
asr-cases a b = elim (Bool-cases (leb b a)) [
  | inl e ↦ inl (ground (arith, e), rw e refl)
  | inr e ↦ inr (ground (arith, e), rw e refl)
]

-- A distance of `n` steps on or back, in `w` bits, times the step.
pub signed_on : (w n : ℕ) → n < 2 ^ (w - 1) → signed w n ≡ pos n
signed_on w n h = let small : ltb n (2 ^ (w - 1)) ≡ true = ground (arith, h) in rw small refl

signed_back :
    (w n : ℕ)
    → 1 ≤ n
    → n ≤ 2 ^ (w - 1)
    → 2 ^ w ≡ 2 * 2 ^ (w - 1)
    → signed w (2 ^ w - n) ≡ negsuc (n - 1)
signed_back w n least h double =
    let large : ltb (2 ^ w - n) (2 ^ (w - 1)) ≡ false = ground (arith, h, double, least) in
    let above : leb (2 ^ w) (2 ^ w - n) ≡ false = ground (arith, h, double, least) in
    let back : 2 ^ w - (2 ^ w - n) - 1 ≡ n - 1 = omega (arith, h, double) in
    rw (large, above, back) refl

unfoldable pub call_bits : ℕ → ℕ → ℕ
call_bits s t = bit_and (to_bits 32 (asr (sub_ℕ t s) 2)) 0x3ffffff

pub call_bits-lands :
    (s t : ℕ)
    → s < t + 2 ^ 27
    → t < s + 2 ^ 27
    → s % 4 ≡ 0
    → t % 4 ≡ 0
    → (call_bits s t < 2 ^ 26) × (pos s +ℤ scale (signed 26 (call_bits s t)) 4 ≡ pos t)
unfolding call_bits
call_bits-lands s t hs ht fs ft =
    rw (bit_and_low 26 (to_bits 32 (asr (sub_ℕ t s) 2))) (elim (asr-cases t s) [
      | inl (h, e) ↦
          let v : to_bits 32 (asr (sub_ℕ t s) 2) % 2 ^ 26 ≡ (t - s) / 4 =
            rw e (omega (arith, h, hs, ht)) in
          rw (v, signed_on 26 ((t - s) / 4) (omega (arith, ht)))
            (omega (arith, ht), ground (arith, h, fs, ft))
      | inr (h, e) ↦
          let v : to_bits 32 (asr (sub_ℕ t s) 2) % 2 ^ 26 ≡ 2 ^ 26 - (s - t) / 4 =
            rw e (omega (arith, h, hs, fs, ft)) in
          rw (v, signed_back 26 ((s - t) / 4) (omega (arith, h, fs, ft)) (omega (arith, hs)) refl)
            (omega (arith, h, fs, ft), ground (arith, h, fs, ft))
    ])

-- What the patch keeps of a word.
kept_bits : ℕ → ℕ
kept_bits w = bit_and w (2 ^ 32 - 1 - 0x3ffffff)

kept_bits-high : (w : ℕ) → (kept_bits w % 2 ^ 26 ≡ 0) × (kept_bits w ≤ 2 ^ 32 - 2 ^ 26)
unfolding kept_bits
kept_bits-high w =
    let split : w / 2 ^ 26 * 2 ^ 26 + w % 2 ^ 26 ≡ w = omega arith in
    let cleared = rw split at (bit_and_above 26 (w / 2 ^ 26) 63 (w % 2 ^ 26) (omega arith)) in
    (omega (arith, cleared), bit_and-le_right w (2 ^ 32 - 1 - 0x3ffffff))

kept_bits-opcode : (w : ℕ) → kept_bits w ≡ field w 26 6 * 2 ^ 26
unfolding kept_bits
kept_bits-opcode w =
    let split : w / 2 ^ 26 * 2 ^ 26 + w % 2 ^ 26 ≡ w = omega arith in
    rw split at (bit_and_above 26 (w / 2 ^ 26) 63 (w % 2 ^ 26) (omega arith))
    ∙ rw (bit_and_low 6 (w / 2 ^ 26)) refl

patched_word-sum :
    (w s t : ℕ) → call_bits s t < 2 ^ 26 → patched_word w s t ≡ kept_bits w + call_bits s t
unfolding kept_bits call_bits
patched_word-sum w s t low =
    bit_or_disjoint 26 (kept_bits w) (call_bits s t) (kept_bits-high w).0 low

patched-calls :
    (w s t : ℕ)
    → s < 2 ^ 26
    → t < 2 ^ 26
    → s % 4 ≡ 0
    → t % 4 ≡ 0
    → is_call w ≡ true
    → (patched_word w s t < 2 ^ 32) × (call_target (patched_word w s t) s ≡ pos t)
patched-calls w s t hs ht fs ft call =
    let (low, lands) = call_bits-lands s t (omega (arith, hs)) (omega (arith, ht)) fs ft in
    let (clear, high) = kept_bits-high w in
    let opcode : field (kept_bits w + call_bits s t) 26 6 ≡ 37 =
      ground (arith, kept_bits-opcode w, call, low) in
    let m : field (kept_bits w + call_bits s t) 0 26 ≡ call_bits s t = omega (arith, clear, low) in
    rw (patched_word-sum w s t low) (omega (arith, high, low), rw (opcode, m) lands)

pub page_of-pages : (x : ℕ) → x < 2 ^ 64 → page_of x ≡ x / 4096 * 4096
page_of-pages x h = masked 12 52 x (omega arith)

page_bits-lands :
    (p t : ℕ)
    → p < 2 ^ 26
    → t < 2 ^ 26
    → (page_bits p t < 2 ^ 21)
      × (pos (p / 4096 * 4096) +ℤ scale (signed 21 (page_bits p t)) 4096 ≡ pos (t / 4096 * 4096))
unfolding page_bits
page_bits-lands p t hp ht =
    rw
      (
        page_of-pages p (omega (arith, hp)),
        page_of-pages t (omega (arith, ht)),
        bit_and_low 21 (to_bits 64 (asr (sub_ℕ (t / 4096 * 4096) (p / 4096 * 4096)) 12)),
      )
      (elim (asr-cases (t / 4096 * 4096) (p / 4096 * 4096)) [
        | inl (h, e) ↦
            let v : u32 (to_bits 64 (asr (sub_ℕ (t / 4096 * 4096) (p / 4096 * 4096)) 12) % 2 ^ 21)
                ≡ t / 4096 - p / 4096 =
              rw e (omega (arith, h, hp, ht)) in
            rw (v, signed_on 21 (t / 4096 - p / 4096) (omega arith))
              (omega arith, ground (arith, h))
        | inr (h, e) ↦
            let v : u32 (to_bits 64 (asr (sub_ℕ (t / 4096 * 4096) (p / 4096 * 4096)) 12) % 2 ^ 21)
                ≡ 2 ^ 21 - (p / 4096 - t / 4096) =
              rw e (omega (arith, h, hp, ht)) in
            rw (v, signed_back 21 (p / 4096 - t / 4096) (omega arith) (omega arith) refl)
              (omega arith, ground (arith, h))
      ])

enc_adrp-sum :
    (rd p t : ℕ)
    → rd < 32
    → page_bits p t < 2 ^ 21
    → enc_adrp rd p t ≡ 0x90000000 + page_bits p t % 4 * 2 ^ 29 + page_bits p t / 4 * 2 ^ 5 + rd
unfolding enc_adrp
enc_adrp-sum rd p t hd low =
    let imm = page_bits p t in
    let lo : shl (bit_and imm 3) 29 ≡ imm % 4 * 2 ^ 29 = rw (bit_and_low 2 imm) (omega arith) in
    let hi : shl (bit_and (imm >>> 2) 0x7ffff) 5 ≡ imm / 4 * 2 ^ 5 =
      rw (bit_and_low 19 (imm >>> 2)) (omega arith) in
    let top : (0x90000000 ||| imm % 4 * 2 ^ 29) ≡ 0x90000000 + imm % 4 * 2 ^ 29 =
      bit_or_above 29 4 (imm % 4) (2 ^ 28) (omega arith)
      ∙ rw (bit_or_disjoint 2 4 (imm % 4) refl (omega arith)) (omega arith) in
    rw
      (
        lo,
        hi,
        top,
        bit_or_disjoint 24 (0x90000000 + imm % 4 * 2 ^ 29) (imm / 4 * 2 ^ 5) (omega arith)
            (omega (arith, low)),
        bit_or_disjoint 5 (0x90000000 + imm % 4 * 2 ^ 29 + imm / 4 * 2 ^ 5) rd (omega arith) hd,
      )
      refl

adrp-page :
    (rd p t : ℕ)
    → rd < 32
    → p < 2 ^ 26
    → t < 2 ^ 26
    → let w = enc_adrp rd p t in
      (w < 2 ^ 32)
      × (field w 0 5 ≡ rd)
      × (adrp_target w p ≡ pos (t / 4096 * 4096))
      × (field w 31 1 ≡ 1)
      × (field w 24 5 ≡ 16)
unfolding adrp_target
adrp-page rd p t hd hp ht =
    let (low, lands) = page_bits-lands p t hp ht in
    let imm = page_bits p t in
    let w = 0x90000000 + imm % 4 * 2 ^ 29 + imm / 4 * 2 ^ 5 + rd in
    let whole : field w 5 19 * 4 + field w 29 2 ≡ imm = omega (arith, low, hd) in
    rw (enc_adrp-sum rd p t hd low) (
      omega (arith, low, hd),
      omega (arith, low, hd),
      rw whole lands,
      omega (arith, low, hd),
      omega (arith, low, hd),
    )

enc_ldr64-fields :
    (rt rn t : ℕ)
    → rt < 32
    → rn < 32
    → let w = enc_ldr64 rt rn t in
      (w < 2 ^ 32)
      × (field w 0 5 ≡ rt)
      × (field w 5 5 ≡ rn)
      × (field w 10 12 ≡ t % 4096 / 8)
      × (field w 22 10 ≡ 0x3e5)
unfolding enc_ldr64
enc_ldr64-fields rt rn t ht hn =
    let imm : shl (bit_and t 0xfff >>> 3) 10 ≡ t % 4096 / 8 * 2 ^ 10 =
      rw (bit_and_low 12 t) (omega arith) in
    let base : shl rn 5 ≡ rn * 2 ^ 5 = omega arith in
    rw
      (
        imm,
        base,
        bit_or_disjoint 22 0xf9400000 (t % 4096 / 8 * 2 ^ 10) refl (omega arith),
        bit_or_disjoint 10 (0xf9400000 + t % 4096 / 8 * 2 ^ 10) (rn * 2 ^ 5) (omega arith)
            (omega arith),
        bit_or_disjoint 5 (0xf9400000 + t % 4096 / 8 * 2 ^ 10 + rn * 2 ^ 5) rt (omega arith) ht,
      )
      (
        omega (arith, ht, hn),
        omega (arith, ht, hn),
        omega (arith, ht, hn),
        omega (arith, ht, hn),
        omega (arith, ht, hn),
      )

slot_of-slot :
    (p t : ℕ)
    → p < 2 ^ 26
    → t < 2 ^ 26
    → t % 8 ≡ 0
    → slot_of (enc_adrp 16 p t) (enc_ldr64 17 16 t) 0xd61f0220 p ≡ pos t
unfolding slot_of
slot_of-slot p t hp ht aligned =
    let (a, b, c, a1, a2) = adrp-page 16 p t (omega arith) hp ht in
    let (d, e, f, g, d1) = enc_ldr64-fields 17 16 t (omega arith) (omega arith) in
    rw (a1, a2, d1, b, c, e, f, g) (ground (arith, aligned))

entry_jumps :
    (i p p0 g : ℕ)
    → p < 2 ^ 26
    → g < 2 ^ 26
    → g % 8 ≡ 0
    → (rest : List ℕ) → slot_target ((build_plt_entry i p p0 g).0 ++ rest) p ≡ pos g
unfolding read32
entry_jumps i p p0 g hp hg aligned rest =
    let (a, b, c, a1, a2) = adrp-page 16 p g (omega arith) hp hg in
    let (d, e, f, h, d1) = enc_ldr64-fields 17 16 g (omega arith) (omega arith) in
    rw (bytes_32 (enc_adrp 16 p g) a, bytes_32 (enc_ldr64 17 16 g) d)
      (slot_of-slot p g hp hg aligned)

-- The laws of the machine, for the instructions of AArch64.
pub aarch64_elf-ElfLaws : (em jump_slot : ℕ) → ElfLaws (aarch64_elf em jump_slot) 4
unfolding aarch64_elf
aarch64_elf-ElfLaws em jump_slot = record {
  is_call = is_call;
  call_target = call_target;
  slot_target = slot_target;
  grain_text = λ n h. omega arith;
  grain_plt = λ n i h. omega arith;
  grain_sum = λ n i h k. omega arith;
  calls = patched-calls;
  jumps = entry_jumps;
  length_stub = λ s t e. refl;
  length_plt0 = λ p g. refl;
  length_entry = λ i p p0 g. refl;
}
