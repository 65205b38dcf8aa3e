-- ===== src/Exe/Macho/Chained.antt =====
-- The chained fixups of alc/exe-macho.c: the table of imports with their names, and the slots that
-- the loader fills.
use allang.Base.{
  ℕ, zero, suc, ◌+◌, ◌-◌, ◌*◌, ◌^◌, List, [], ◌∷◌, ◌++◌, length, set, replicate, u32, u64, shl,
  ◌|||◌, ltb, if◌then◌else◌,
}
use allang.Str.{Str}
use allang.Exe.Macho.{MachH, align_up, file_page}

-- The parts of the fixups; `seg_offsets` are the numbers behind the count of the segments.
pub record Fixups : Type 0 where
  pub starts_offset : ℕ
  pub imports_offset : ℕ
  pub symbols_offset : ℕ
  pub imports_count : ℕ
  pub imports_format : ℕ
  pub seg_count : ℕ
  pub seg_offsets : List ℕ
  pub starts_size : ℕ
  pub page_size : ℕ
  pub pointer_format : ℕ
  pub segment_offset : ℕ
  pub page_starts : List ℕ
  pub imports : List ℕ
  pub symbols : List ℕ
  pub size : ℕ

-- `1u | (name_off << 9)`
abbrev pub import_entry : ℕ → ℕ
import_entry name_off = 1 ||| u32 (shl name_off 9)

abbrev pub put_symbol : Str → List ℕ
put_symbol name = b'_' ∷ name ++ 0 ∷ []

-- The entries and the names, from the offset `name_off` on.
unfoldable pub build_imports : ℕ → List Str → List ℕ × List ℕ
build_imports name_off [] = ([], [])
build_imports name_off (name ∷ names) =
    let rest = build_imports (u32 (name_off + length (put_symbol name))) names in
    (import_entry name_off ∷ rest.0, put_symbol name ++ rest.1)

module _ (h : MachH) where
  abbrev pub sii_off : ℕ
  sii_off = align_up h.size_fixups_header 8

  abbrev pub sis_off : ℕ → ℕ
  sis_off nsegs = align_up (u32 (sii_off + 4 + 4 * nsegs)) 8

  abbrev pub imports_off : ℕ → ℕ
  imports_off nsegs = align_up (u32 (sis_off nsegs + h.size_starts_in_segment)) 4

  abbrev pub symbols_off : (nsegs n_imp : ℕ) → ℕ
  symbols_off nsegs n_imp = align_up (u32 (imports_off nsegs + 4 * n_imp)) 4

  unfoldable pub build_chained_imports :
      (nsegs data_seg_idx : ℕ) → List Str → (data_off : ℕ) → Fixups
  unfolding build_imports
  build_chained_imports nsegs data_seg_idx names data_off =
      let table = build_imports 1 names in
      let symbols = 0 ∷ table.1 in
      record {
        starts_offset = sii_off;
        imports_offset = imports_off nsegs;
        symbols_offset = symbols_off nsegs (length names);
        imports_count = length names;
        imports_format = h.dyld_chained_import;
        seg_count = nsegs;
        seg_offsets = set (replicate nsegs 0) data_seg_idx (sis_off nsegs - sii_off);
        starts_size = h.size_starts_in_segment;
        page_size = file_page;
        pointer_format = h.dyld_chained_ptr_64_offset;
        segment_offset = data_off;
        page_starts = 0 ∷ [];
        imports = table.0;
        symbols = symbols;
        size = u32 (symbols_off nsegs (length names) + length symbols);
      }

  -- Where nothing is imported.
  unfoldable pub no_fixups : ℕ → Fixups
  no_fixups nsegs =
      let size = u32 (sii_off + u32 (4 * (1 + nsegs))) in
      record {
        starts_offset = sii_off;
        imports_offset = size;
        symbols_offset = size;
        imports_count = 0;
        imports_format = h.dyld_chained_import;
        seg_count = nsegs;
        seg_offsets = replicate nsegs 0;
        starts_size = 0;
        page_size = 0;
        pointer_format = 0;
        segment_offset = 0;
        page_starts = [];
        imports = [];
        symbols = [];
        size = size;
      }

-- `(1ull << 63) | (next << 51) | i`
abbrev pub got_slot : (i n_imp : ℕ) → ℕ
got_slot i n_imp =
    let next = if ltb (i + 1) n_imp then 2 else 0 in 2 ^ 63 ||| u64 (next * 2 ^ 51) ||| i

-- From the slot `i` on, `n` of them.
unfoldable pub build_got : (n_imp i n : ℕ) → List ℕ
build_got n_imp i zero = []
build_got n_imp i (suc n) = got_slot i n_imp ∷ build_got n_imp (i + 1) n
