-- ===== src/Exe/Macho/Laws/Calls.antt =====
-- Where the calls of imports in a Mach-O file lead, and what the loader puts there.
use allang.Base.{
  ℕ, ◌+◌, ◌-◌, ◌*◌, ◌/◌, ◌%◌, ◌^◌, ◌<◌, ◌≤◌, ◌≡◌, refl, ◌∙◌, ap, arith, Bool, true, false, ltb,
  some, List, length, get_elem?, drop, u32, bit_and, pos,
}
use allang.Parser.Struct.Align.{masked, Rounded}
use allang.X86.Asm.Store.{read32}
use allang.Exe.Image.{Extcall, BinImage}
use allang.Exe.Blocks.{build_blocks-drop}
use allang.Exe.Calls.{patch_calls}
use allang.Exe.Calls.Laws.{separated, all_sound, all_calls-any, all_sound-imp, patch_calls-Called}
use allang.Exe.Machine.Aarch64Elf.Laws.{call_target}
use allang.Exe.Macho.{MachH, text_vm, align_up}
use allang.Exe.Macho.Commands.{code_offset}
use allang.Exe.Macho.Stubs.{build_stub, build_stubs, patched_bl}
use allang.Exe.Macho.Write.{
  Unsigned, is_dyn, cmd_max, sect_size, stub_pad, fill_macho, write_macho, img_cap, n_slots,
}
use allang.Exe.Macho.Laws.Stub.{stub_target, build_stub-leads, patched_bl-leads}

-- Where the code begins.
abbrev pub code_start : MachH → Bool → BinImage → ℕ
code_start h link_c image =
    let n = length image.imports in
    code_offset h (is_dyn link_c image) n (sect_size (u32 (length image.text)) n)

-- What the writer checks, for a header of at most a page, a text of at most 16 megabytes and imports
-- whose slots fit a page, with the code at a word.
pub record Fits (h : MachH) (link_c : Bool) (image : BinImage) : Type 0 where
  pub commands : code_start h link_c image ≤ cmd_max h
  pub header : h.size_header ≤ 0x1000
  pub at_word : code_start h link_c image % 4 ≡ 0
  pub short : length image.text ≤ 2 ^ 24
  pub few : length image.imports ≤ 2048

align_up-word : (n : ℕ) → n + 4 ≤ 2 ^ 32 → Rounded n 4 (align_up n 4)
unfolding align_up
align_up-word n room =
    let up : u32 (n + 4 + (2 ^ 32 - 1)) ≡ n + 3 = omega arith in
    let cleared : bit_and (n + 3) (2 ^ 32 - 4) ≡ (n + 3) / 4 * 4 =
      masked 2 30 (n + 3) (omega arith) in
    rw (up, cleared) (omega arith, omega arith, omega arith)

align_up-page : (n : ℕ) → n + 0x4000 ≤ 2 ^ 32 → Rounded n 0x4000 (align_up n 0x4000)
unfolding align_up
align_up-page n room =
    let up : u32 (n + 0x4000 + (2 ^ 32 - 1)) ≡ n + 0x3fff = omega arith in
    let cleared : bit_and (n + 0x3fff) (2 ^ 32 - 0x4000) ≡ (n + 0x3fff) / 0x4000 * 0x4000 =
      masked 14 18 (n + 0x3fff) (omega arith) in
    rw (up, cleared) (omega arith, omega arith, omega arith)

-- A code of `size` bytes from `c` on, `n` stubs and their slots lie behind one another.
layout :
    (c size n : ℕ)
    → c ≤ 0x1400
    → c % 4 ≡ 0
    → size ≤ 2 ^ 24
    → n ≤ 2048
    → let stubs = u32 (c + u32 size + stub_pad (u32 size)) in
      let slots = align_up (u32 (c + sect_size (u32 size) n)) 0x4000 in
      (stubs % 4 ≡ 0)
      × (slots % 8 ≡ 0)
      × (c + size ≤ stubs)
      × (stubs + n * 12 ≤ slots)
      × (slots < 2 ^ 26)
layout c size n hc fc hs hn =
    let same : u32 size ≡ size = omega (arith, hs) in
    let (fw, above, below) = align_up-word size (omega (arith, hs)) in
    let flat : u32 (c + sect_size size n) ≡ c + align_up size 4 + n * 12 =
      omega (arith, hc, hs, hn, above, below) in
    let (fp, over, under) =
      align_up-page (c + align_up size 4 + n * 12) (omega (arith, hc, hs, hn, below)) in
    let stubs : u32 (c + size + stub_pad size) ≡ c + align_up size 4 =
      omega (arith, hc, hs, above, below) in
    rw (same, flat, stubs)
      (
        omega (arith, fc, fw),
        omega (arith, fp),
        omega (arith, above),
        over,
        omega (arith, under, hc, hs, hn, below),
      )

-- Calls from a code at `c` to stubs that lie behind it and before their slots.
calls_lead :
    (c stubs slots n : ℕ) (text : List ℕ) (es : List Extcall) (j : ℕ) (e : Extcall)
    → c % 4 ≡ 0
    → (stubs % 4 ≡ 0)
      × (slots % 8 ≡ 0)
      × (c + length text ≤ stubs)
      × (stubs + n * 12 ≤ slots)
      × (slots < 2 ^ 26)
    → separated es ≡ true
    → all_sound 4 (length text) n es ≡ true
    → get_elem? es j ≡ some e
    → let stub_vm = λ (i : ℕ). text_vm + stubs + i * 12 in
      (call_target
          (read32 (patch_calls patched_bl (text_vm + c) stub_vm es text) e.site)
          (text_vm + c + e.site)
        ≡ pos (stub_vm e.imp))
      × (stub_target
            (drop (e.imp * 12) (build_stubs (text_vm + slots) (text_vm + stubs) n))
            (stub_vm e.imp)
          ≡ pos (text_vm + slots + e.imp * 8))
unfolding build_stub
calls_lead c stubs slots n text es j e fc (fs, ft, behind, before, small) sep sound at_j =
    let stub_vm = λ (i : ℕ). text_vm + stubs + i * 12 in
    let low : e.imp < n = all_sound-imp 4 (length text) n es j e sound at_j in
    let (rest, found) =
      build_blocks-drop (λ (i : ℕ). build_stub (text_vm + slots + i * 8) (stub_vm i)) 12 (λ i. refl)
        0 n e.imp e.imp (omega arith) low in
    (
      patch_calls-Called patched_bl call_target (text_vm + c) stub_vm 4 n (length text) (λ w. true)
          (λ w s i fit at_grain low_i call.
            patched_bl-leads w (text_vm + c + s) (stub_vm i)
              (omega (arith, fit, behind, before, small)) (omega (arith, before, small, low_i))
              (omega (arith, fit, behind)) (omega (arith, before, small, low_i))
              (omega (arith, fc, at_grain)) (omega (arith, fs)))
          es text j e refl sep sound (all_calls-any es text) at_j,
      ap (λ bytes. stub_target bytes (stub_vm e.imp)) found
          ∙ build_stub-leads (text_vm + slots + e.imp * 8) (stub_vm e.imp)
              (omega (arith, low, before)) (omega (arith, low, small, before))
              (omega (arith, low, small, before)) (omega (arith, ft)) rest,
    )

module _ (h : MachH) (sha256 : Unsigned → ℕ → ℕ → List ℕ) (link_c : Bool) (image : BinImage)
    (fits : Fits h link_c image) where
  abbrev body : Unsigned
  body = (fill_macho h sha256 link_c image).body

  abbrev stub_vm : ℕ → ℕ
  stub_vm i = text_vm + body.stub_off + i * 12

  abbrev slot_vm : ℕ → ℕ
  slot_vm i = text_vm + body.text_fp + i * 8

  places :
      (body.stub_off % 4 ≡ 0)
      × (body.text_fp % 8 ≡ 0)
      × (body.code_off + length image.text ≤ body.stub_off)
      × (body.stub_off + length image.imports * 12 ≤ body.text_fp)
      × (body.text_fp < 2 ^ 26)
  unfolding fill_macho
  places =
      layout (code_start h link_c image) (length image.text) (length image.imports)
        (omega (arith, fits.commands, fits.header)) fits.at_word fits.short fits.few

  written :
      (memory : ℕ → Bool)
      → ((n : ℕ) → memory n ≡ true)
      → write_macho h sha256 link_c image memory ≡ some (fill_macho h sha256 link_c image)
  unfolding write_macho
  written memory ready =
      let f = fill_macho h sha256 link_c image in
      let checked : ltb (cmd_max h) (code_start h link_c image) ≡ false =
        ground (arith, fits.commands) in
      rw
        (
          ready (img_cap h (u32 (length image.text)) image.imports),
          checked,
          ready (n_slots h f.sig_off * h.sha256_digest_length),
        )
        refl

  -- For an image that fits, where the memory asked for is given, the file is written. Every call of an
  -- import whose site is in the text, at a word and apart from the other sites, leads to the stub of
  -- its import, which jumps through the own slot of the import. The stubs lie behind the text and
  -- before the slots.
  pub write_macho-calls :
      (memory : ℕ → Bool) (j : ℕ) (e : Extcall)
      → ((n : ℕ) → memory n ≡ true)
      → separated image.extcalls ≡ true
      → all_sound 4 (length image.text) (length image.imports) image.extcalls ≡ true
      → get_elem? image.extcalls j ≡ some e
      → (write_macho h sha256 link_c image memory ≡ some (fill_macho h sha256 link_c image))
        × (call_target (read32 body.text e.site) (text_vm + body.code_off + e.site)
            ≡ pos (stub_vm e.imp))
        × (stub_target (drop (e.imp * 12) body.stubs) (stub_vm e.imp) ≡ pos (slot_vm e.imp))
        × (body.code_off + length image.text ≤ body.stub_off)
        × (body.stub_off + length image.imports * 12 ≤ body.text_fp)
  unfolding fill_macho
  write_macho-calls memory j e ready sep sound at_j =
      let (stubs, slots, behind, before, small) = places in
      let (call, jump) =
        calls_lead (code_start h link_c image) body.stub_off body.text_fp (length image.imports)
          image.text image.extcalls j e fits.at_word places sep sound at_j in
      (written memory ready, call, jump, behind, before)
