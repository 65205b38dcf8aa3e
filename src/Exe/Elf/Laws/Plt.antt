-- ===== src/Exe/Elf/Laws/Plt.antt =====
-- The PLT entries of a dynamic ELF file, their slots and the relocations of these.
use allang.Base.{
  ℕ, zero, suc, ◌+◌, ◌*◌, ◌%◌, ◌^◌, ◌<◌, ◌≤◌, ◌≡◌, refl, ◌∙◌, ap, sym, arith, List, ◌++◌, length,
  get_or, drop, drop-append, pos,
}
use native.Mathlib.Nat.{mul-le-mul_right}
use allang.Exe.Image.{BinImage}
use allang.Exe.Machine.{ElfMachine, ElfLaws}
use allang.Exe.Machine.Target.{Target, machine, grain_of, machine_laws}
use allang.Exe.Elf.{ElfH, load_base}
use allang.Exe.Elf.Dynamic.{
  fill_file, import_names, parts_start, build_entries, Rela, build_rela, entry_vaddr, slot_vaddr,
  got_reserved,
}
use allang.Exe.Elf.Laws.{file_parts, dynamic_file, Fits, Placed-at, file_parts-Placed, suc_mul}

-- In place of a relocation that there is not.
abbrev pub no_rela : Rela
no_rela = record { r_offset = 0; r_sym = 0; r_type = 0 }

drop_past : (xs ys : List ℕ) (n k : ℕ) → length xs ≡ n → drop (n + k) (xs ++ ys) ≡ drop k ys
drop_past xs ys n k e = rw (← e) (drop-append xs ys k)

module _ (h : ElfH) (m : ElfMachine) (grain : ℕ) (laws : ElfLaws m grain) where
  -- The entry of an import, among those from `i` on.
  build_entries-drop :
      (plt_off got_off i n j k : ℕ)
      → k ≡ i + j
      → j < n
      → let entry =
          m.build_plt_entry k
            (entry_vaddr h m plt_off k)
            (load_base + plt_off)
            (slot_vaddr h m got_off k) in
        (rest : List ℕ) × (drop (j * m.plt_entry_size) (build_entries h m plt_off got_off i n).0
          ≡ entry.0 ++ rest)
  unfolding build_entries
  build_entries-drop plt_off got_off i zero j k e low = absurd (omega arith)
  build_entries-drop plt_off got_off i (suc n) zero k e low =
      let none_before : 0 * m.plt_entry_size ≡ 0 = omega arith in
      let same : k ≡ i = omega (arith, e) in
      rw (none_before, same) ((build_entries h m plt_off got_off (i + 1) n).0, refl)
  build_entries-drop plt_off got_off i (suc n) (suc j) k e low =
      let first =
        m.build_plt_entry i (entry_vaddr h m plt_off i) (load_base + plt_off)
          (slot_vaddr h m got_off i) in
      let others = (build_entries h m plt_off got_off (i + 1) n).0 in
      let one : length first.0 ≡ m.plt_entry_size =
        laws.length_entry i (entry_vaddr h m plt_off i) (load_base + plt_off)
          (slot_vaddr h m got_off i) in
      let (rest, found) =
        build_entries-drop plt_off got_off (i + 1) n j k (omega (arith, e)) (omega (arith, low)) in
      (
        rest,
        rw (suc_mul j m.plt_entry_size)
            (drop_past first.0 others m.plt_entry_size (j * m.plt_entry_size) one ∙ found),
      )

  build_rela-at :
      (got_off i n j k : ℕ)
      → k ≡ i + j
      → j < n
      → (get_or (build_rela h m got_off i n) j no_rela).r_offset ≡ slot_vaddr h m got_off k
        × ((get_or (build_rela h m got_off i n) j no_rela).r_sym ≡ k + 1)
  unfolding build_rela
  build_rela-at got_off i zero j k e low = absurd (omega arith)
  build_rela-at got_off i (suc n) zero k e low =
      let same : k ≡ i = omega (arith, e) in rw same (refl, refl)
  build_rela-at got_off i (suc n) (suc j) k e low =
      build_rela-at got_off (i + 1) n j k (omega (arith, e)) (omega (arith, low))

  -- The addresses of an import lie in the file's first 64 megabytes.
  pub entry_vaddr-low :
      (image : BinImage) (i : ℕ)
      → Fits h m image
      → i < length (import_names image)
      → entry_vaddr h m (dynamic_file h m image).plt_off i < 2 ^ 26
  unfolding fill_file
  entry_vaddr-low image i fits low =
      let (placed, small) = file_parts-Placed h m image fits in
      let f = dynamic_file h m image in
      let (aligned, above, below) =
        Placed-at (parts_start h m) f.total_size (file_parts h m image) f.offs 3 placed
          (omega arith) in
      let product : suc i * m.plt_entry_size ≤ length (import_names image) * m.plt_entry_size =
        mul-le-mul_right m.plt_entry_size low in
      omega (arith, below, small, product, suc_mul i m.plt_entry_size)

  slot_vaddr-low :
      (image : BinImage) (i : ℕ)
      → Fits h m image
      → i < length (import_names image)
      → h.size_dyn % 8 ≡ 0
      → let got_off = (dynamic_file h m image).got_off in
        (slot_vaddr h m got_off i < 2 ^ 26) × (slot_vaddr h m got_off i % 8 ≡ 0)
  unfolding fill_file
  slot_vaddr-low image i fits low whole =
      let (placed, small) = file_parts-Placed h m image fits in
      let f = dynamic_file h m image in
      let (aligned, above, below) =
        Placed-at (parts_start h m) f.total_size (file_parts h m image) f.offs 5 placed
          (omega arith) in
      (omega (arith, below, small, low), omega (arith, aligned, whole))

  -- On a machine with the laws, an entry jumps through its slot.
  plt-slot_any :
      (image : BinImage) (i : ℕ)
      → Fits h m image
      → i < length (import_names image)
      → h.size_dyn % 8 ≡ 0
      → let f = dynamic_file h m image in
        let rela = get_or f.rela i no_rela in
        (laws.slot_target
            (drop (m.plt0_size + i * m.plt_entry_size) f.plt)
            (entry_vaddr h m f.plt_off i)
          ≡ pos rela.r_offset)
        × (rela.r_sym ≡ i + 1)
        × (rela.r_offset ≡ load_base + f.got_off + (got_reserved + i) * 8)
  unfolding fill_file
  plt-slot_any image i fits low whole =
      let f = dynamic_file h m image in
      let nimp = length (import_names image) in
      let zeroth : i ≡ 0 + i = omega arith in
      let (offset, symbol) = build_rela-at f.got_off 0 nimp i i zeroth low in
      let (rest, found) = build_entries-drop f.plt_off f.got_off 0 nimp i i zeroth low in
      let (near, multiple) = slot_vaddr-low image i fits low whole in
      let at = entry_vaddr h m f.plt_off i in
      let slot = slot_vaddr h m f.got_off i in
      let past =
        drop_past (m.build_plt0 (load_base + f.plt_off) (load_base + f.got_off))
          (build_entries h m f.plt_off f.got_off 0 nimp).0 m.plt0_size (i * m.plt_entry_size)
          (laws.length_plt0 (load_base + f.plt_off) (load_base + f.got_off)) in
      (
        ap (λ bytes. laws.slot_target bytes at) (past ∙ found)
            ∙ laws.jumps i at (load_base + f.plt_off) slot (entry_vaddr-low image i fits low) near
                multiple rest
            ∙ ap pos (sym offset),
        symbol,
        offset,
      )

-- In a file that fits, for x86-64 or AArch64, the PLT entry of every import jumps through the slot of
-- the GOT that the relocation of the import names; the relocation is for the symbol of the import,
-- and the slot is the import's own, behind the three reserved ones.
pub plt-slot :
    (h : ElfH) (k : Target) (image : BinImage) (i : ℕ)
    → Fits h (machine k) image
    → i < length (import_names image)
    → h.size_dyn % 8 ≡ 0
    → let m = machine k in
      let f = dynamic_file h m image in
      let rela = get_or f.rela i no_rela in
      ((machine_laws k).slot_target
          (drop (m.plt0_size + i * m.plt_entry_size) f.plt)
          (entry_vaddr h m f.plt_off i)
        ≡ pos rela.r_offset)
      × (rela.r_sym ≡ i + 1)
      × (rela.r_offset ≡ load_base + f.got_off + (got_reserved + i) * 8)
plt-slot h k = plt-slot_any h (machine k) (grain_of k) (machine_laws k)
