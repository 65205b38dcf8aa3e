-- ===== src/Exe/Macho/Laws/Stub.antt =====
-- The stubs and the calls of a Mach-O file, as the architecture reads them.
use allang.Base.{
  ℕ, ◌+◌, ◌-◌, ◌*◌, ◌/◌, ◌%◌, ◌^◌, ◌<◌, ◌≤◌, ◌≡◌, refl, ◌∙◌, arith, inl, inr, List, ◌++◌, ℤ, pos,
  sub_ℕ, bit_and, ◌|||◌, ◌>>>◌, shl, u32, leb, true,
}
use allang.Base.Bits.{bit_or_disjoint, bit_or_above, bit_and_low}
use allang.Aarch64.Machine.{field}
use allang.X86.Asm.Store.{read32}
use allang.X86.Encode.Disp.{bytes_32}
use allang.Exe.Machine.Aarch64Elf.Laws.{
  call_bits, call_bits-lands, call_target, adrp_target, slot_of, asr-cases, signed_on,
  page_of-pages,
}
use allang.Exe.Macho.Stubs.{distance, stub_pages, stub_adrp, stub_ldr, build_stub, patched_bl}

distance-near : (a b : ℕ) → a < 2 ^ 34 → b < 2 ^ 34 → distance a b ≡ sub_ℕ a b
distance-near a b ha hb = elim (asr-cases a b) [
  | inl (h, e) ↦ rw e (ground (arith, ha, hb))
  | inr (h, e) ↦ rw e (ground (arith, ha, hb))
]

-- A call at a place for code leads where it is meant to.
pub patched_bl-leads :
    (w s t : ℕ)
    → s < 2 ^ 33
    → t < 2 ^ 33
    → s < t + 2 ^ 27
    → t < s + 2 ^ 27
    → s % 4 ≡ 0
    → t % 4 ≡ 0
    → (patched_bl w s t < 2 ^ 32) × (call_target (patched_bl w s t) s ≡ pos t)
unfolding call_bits
patched_bl-leads w s t hs ht near_s near_t fs ft =
    let (low, lands) = call_bits-lands s t near_s near_t fs ft in
    let whole : field (0x94000000 + call_bits s t) 0 26 ≡ call_bits s t = omega (arith, low) in
    let opcode : field (0x94000000 + call_bits s t) 26 6 ≡ 37 = omega (arith, low) in
    rw
      (
        distance-near t s (omega (arith, ht)) (omega (arith, hs)),
        bit_or_disjoint 26 0x94000000 (call_bits s t) refl low,
      )
      (omega (arith, low), rw (opcode, whole) lands)

stub_pages-on : (p t : ℕ) → p ≤ t → t < 2 ^ 33 → stub_pages t p ≡ pos (t / 4096 - p / 4096)
unfolding stub_pages
stub_pages-on p t le ht =
    let on : leb (p / 4096 * 4096) (t / 4096 * 4096) ≡ true = ground (arith, le) in
    let same : (t / 4096 * 4096 - p / 4096 * 4096) / 4096 ≡ t / 4096 - p / 4096 =
      omega (arith, le) in
    rw
      (
        page_of-pages p (omega (arith, le, ht)),
        page_of-pages t (omega (arith, ht)),
        distance-near (t / 4096 * 4096) (p / 4096 * 4096) (omega (arith, ht))
            (omega (arith, le, ht)),
        on,
        same,
      )
      refl

-- ADRP to X16 with `n` pages, its bits apart.
adrp-sum :
    (p t n : ℕ)
    → stub_pages t p ≡ pos n
    → n < 2 ^ 20
    → stub_adrp t p ≡ 0x90000010 + n % 4 * 2 ^ 29 + n / 4 * 2 ^ 5
unfolding stub_adrp
adrp-sum p t n e low =
    let lo : u32 (shl (u32 (bit_and (n % 2 ^ 64) 3)) 29) ≡ n % 4 * 2 ^ 29 =
      rw (bit_and_low 2 (n % 2 ^ 64)) (omega arith) in
    let hi : u32 (shl (bit_and (n / 2 ^ 2 % 2 ^ 32) 0x7ffff) 5) ≡ n / 4 * 2 ^ 5 =
      rw (bit_and_low 19 (n / 2 ^ 2 % 2 ^ 32)) (omega (arith, low)) in
    let top : (0x90000010 ||| n % 4 * 2 ^ 29) ≡ (0x4800000 + n % 4 * 2 ^ 24) * 2 ^ 5 + 0x10 =
      bit_or_above 29 4 (n % 4) 0x10000010 (omega arith)
      ∙ rw (bit_or_disjoint 2 4 (n % 4) refl (omega arith)) (omega arith) in
    rw
      (
        e,
        lo,
        hi,
        top,
        bit_or_above 5 (0x4800000 + n % 4 * 2 ^ 24) (n / 4) 0x10 (omega arith),
        bit_or_disjoint 23 (0x4800000 + n % 4 * 2 ^ 24) (n / 4) (omega arith) (omega (arith, low)),
      )
      (omega arith)

adrp-page :
    (p t : ℕ)
    → p ≤ t
    → t < 2 ^ 33
    → t < p + 2 ^ 31
    → let w = stub_adrp t p in
      (w < 2 ^ 32)
      × (field w 0 5 ≡ 16)
      × (adrp_target w p ≡ pos (t / 4096 * 4096))
      × (field w 31 1 ≡ 1)
      × (field w 24 5 ≡ 16)
unfolding adrp_target
adrp-page p t le ht near =
    let n = t / 4096 - p / 4096 in
    let few : n < 2 ^ 20 = omega (arith, near) in
    let w = 0x90000010 + n % 4 * 2 ^ 29 + n / 4 * 2 ^ 5 in
    let whole : field w 5 19 * 4 + field w 29 2 ≡ n = omega (arith, few) in
    rw (adrp-sum p t n (stub_pages-on p t le ht) few) (
      omega (arith, few),
      omega (arith, few),
      rw (whole, signed_on 21 n few) (ground (arith, le)),
      omega (arith, few),
      omega (arith, few),
    )

ldr-fields :
    (t : ℕ)
    → let w = stub_ldr t in
      (w < 2 ^ 32)
      × (field w 0 5 ≡ 16)
      × (field w 5 5 ≡ 16)
      × (field w 10 12 ≡ t % 4096 / 8)
      × (field w 22 10 ≡ 0x3e5)
unfolding stub_ldr
ldr-fields t =
    let imm : u32 (shl (u32 (bit_and t 0xfff) >>> 3) 10) ≡ t % 4096 / 8 * 2 ^ 10 =
      rw (bit_and_low 12 t) (omega arith) in
    rw
      (
        imm,
        bit_or_above 10 0x3e5000 (t % 4096 / 8) 0x210 (omega arith),
        bit_or_disjoint 12 0x3e5000 (t % 4096 / 8) refl (omega arith),
      )
      (omega arith, omega arith, omega arith, omega arith, omega arith)

-- ADRP, LDR from its register and BR to what was loaded.
abbrev pub stub_target : List ℕ → ℕ → ℤ
stub_target bytes vaddr = slot_of (read32 bytes 0) (read32 bytes 4) (read32 bytes 8) vaddr

-- A stub before its slot jumps through the slot.
pub build_stub-leads :
    (t p : ℕ)
    → p ≤ t
    → t < 2 ^ 33
    → t < p + 2 ^ 31
    → t % 8 ≡ 0
    → (rest : List ℕ) → stub_target (build_stub t p ++ rest) p ≡ pos t
unfolding build_stub read32 slot_of
build_stub-leads t p le ht near aligned rest =
    let (a, b, c, a1, a2) = adrp-page p t le ht near in
    let (d, e, f, g, d1) = ldr-fields t in
    rw (bytes_32 (stub_adrp t p) a, bytes_32 (stub_ldr t) d, a1, a2, d1, b, c, e, f, g)
      (ground (arith, aligned))
