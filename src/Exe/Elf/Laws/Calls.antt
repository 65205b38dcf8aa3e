-- ===== src/Exe/Elf/Laws/Calls.antt =====
-- Where the calls of imports in a dynamic ELF file lead.
use allang.Base.{
  ℕ, ◌+◌, ◌*◌, ◌%◌, ◌^◌, ◌<◌, ◌≤◌, ◌≡◌, refl, arith, true, some, length, get_or, get_elem?, pos,
}
use allang.Exe.Calls.Laws.{
  separated, all_sound, all_calls, outside, length-patch_calls, patch_calls-outside,
  patch_calls-Called,
}
use allang.Exe.Image.{Extcall, BinImage}
use allang.Exe.Machine.{ElfMachine, ElfLaws}
use allang.Exe.Machine.Target.{Target, machine, grain_of, machine_laws}
use allang.Exe.Elf.{ElfH, load_base}
use allang.Exe.Elf.Dynamic.{fill_file, import_names, parts_start, entry_vaddr, patch_extcalls}
use allang.Exe.Elf.Laws.{file_parts, dynamic_file, Fits, Placed-at, file_parts-Placed}
use allang.Exe.Elf.Laws.Plt.{entry_vaddr-low}
use allang.X86.Asm.Store.{read32}

module _ (h : ElfH) (m : ElfMachine) (grain : ℕ) (laws : ElfLaws m grain) where
  site_ok :
      (image : BinImage)
      → Fits h m image
      → let text_off = get_or (dynamic_file h m image).offs 4 0 in
        (s : ℕ)
        → s + 4 ≤ length image.text
        → s % grain ≡ 0
        → (load_base + text_off + s < 2 ^ 26) × ((load_base + text_off + s) % grain ≡ 0)
  unfolding fill_file
  site_ok image fits s inside at_grain =
      let (placed, small) = file_parts-Placed h m image fits in
      let f = dynamic_file h m image in
      let text_off = get_or f.offs 4 0 in
      let (aligned, above, below) =
        Placed-at (parts_start h m) f.total_size (file_parts h m image) f.offs 4 placed
          (omega arith) in
      (
        omega (arith, below, small, inside),
        laws.grain_sum (load_base + text_off) s
            (laws.grain_text (load_base + text_off) (omega (arith, aligned))) at_grain,
      )

  entry_ok :
      (image : BinImage)
      → Fits h m image
      → let plt_off = (dynamic_file h m image).plt_off in
        (i : ℕ)
        → i < length (import_names image)
        → (entry_vaddr h m plt_off i < 2 ^ 26) × (entry_vaddr h m plt_off i % grain ≡ 0)
  unfolding fill_file
  entry_ok image fits i low =
      let (placed, small) = file_parts-Placed h m image fits in
      let f = dynamic_file h m image in
      let stub_off = get_or f.offs 3 0 in
      let (aligned, above, below) =
        Placed-at (parts_start h m) f.total_size (file_parts h m image) f.offs 3 placed
          (omega arith) in
      let order : load_base + stub_off + m.dyn_start_stub_size + m.plt0_size + i * m.plt_entry_size
          ≡ entry_vaddr h m f.plt_off i =
        omega arith in
      (
        entry_vaddr-low h m grain laws image i fits low,
        rw order at (laws.grain_plt (load_base + stub_off) i (omega (arith, aligned))),
      )

  -- On a machine with the laws, a call leads to an entry.
  extcall-entry_any :
      (image : BinImage) (j : ℕ) (e : Extcall)
      → Fits h m image
      → separated image.extcalls ≡ true
      → all_sound grain (length image.text) (length (import_names image)) image.extcalls ≡ true
      → all_calls laws.is_call image.extcalls image.text ≡ true
      → get_elem? image.extcalls j ≡ some e
      → let f = dynamic_file h m image in
        (laws.call_target (read32 f.text e.site) (load_base + get_or f.offs 4 0 + e.site)
          ≡ pos (entry_vaddr h m f.plt_off e.imp))
        × (length f.text ≡ length image.text)
        × ((k : ℕ) → outside k image.extcalls ≡ true → get_or f.text k 0 ≡ get_or image.text k 0)
  unfolding fill_file patch_extcalls
  extcall-entry_any image j e fits sep sound calls at_j =
      let f = dynamic_file h m image in
      let text_vaddr = load_base + get_or f.offs 4 0 in
      let entry = entry_vaddr h m f.plt_off in
      (
        patch_calls-Called m.patched_word laws.call_target text_vaddr entry grain
            (length (import_names image)) (length image.text) laws.is_call
            (λ w s i inside at_grain low call.
              let (s_low, s_grain) = site_ok image fits s inside at_grain in
              let (t_low, t_grain) = entry_ok image fits i low in
              laws.calls w (text_vaddr + s) (entry i) s_low t_low s_grain t_grain call)
            image.extcalls image.text j e refl sep sound calls at_j,
        length-patch_calls m.patched_word laws.call_target text_vaddr entry image.extcalls
            image.text,
        λ k out.
            patch_calls-outside m.patched_word laws.call_target text_vaddr entry k image.extcalls
              image.text out,
      )

-- In a file that fits, for x86-64 or AArch64, every call of an import, where the sites are in the
-- text, at places for code, apart, and hold calls, is a call that leads to the PLT entry of its
-- import. The bytes of the text but for the four at each site are as they were.
pub extcall-entry :
    (h : ElfH) (k : Target) (image : BinImage) (j : ℕ) (e : Extcall)
    → Fits h (machine k) image
    → separated image.extcalls ≡ true
    → all_sound (grain_of k) (length image.text) (length (import_names image)) image.extcalls ≡ true
    → all_calls (machine_laws k).is_call image.extcalls image.text ≡ true
    → get_elem? image.extcalls j ≡ some e
    → let m = machine k in
      let f = dynamic_file h m image in
      ((machine_laws k).call_target (read32 f.text e.site) (load_base + get_or f.offs 4 0 + e.site)
        ≡ pos (entry_vaddr h m f.plt_off e.imp))
      × (length f.text ≡ length image.text)
      × ((i : ℕ) → outside i image.extcalls ≡ true → get_or f.text i 0 ≡ get_or image.text i 0)
extcall-entry h k = extcall-entry_any h (machine k) (grain_of k) (machine_laws k)
