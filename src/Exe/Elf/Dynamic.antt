-- ===== src/Exe/Elf/Dynamic.antt =====
-- `write_dynamic_elf` of alc/emit_helper-elf-exe.h.
use allang.Base.{
  ℕ, zero, suc, ◌+◌, ◌*◌, ◌||◌, Option, none, some, List, [], ◌∷◌, ◌++◌, map, ◌|||◌, ltb,
  if◌then◌else◌, length, get_or, u32, Run, ok, abort,
}
use allang.Str.{Str}
use allang.Exe.Image.{Extcall, BinImage}
use allang.Exe.Parts.{Part, place_parts, parts_end}
use allang.Exe.Hash.{HashTable, symbol_table}
use allang.Exe.Calls.{patch_calls}
use allang.Exe.Machine.{ElfMachine}
use allang.Exe.Elf.{
  ElfH, Ehdr, Phdr, Shdr, load_base, page, img_size, header, segment, code_section, names_section,
}

-- A symbol of a function that is not defined here.
pub record Sym : Type 0 where
  pub st_name : ℕ
  pub st_info : ℕ
  pub st_shndx : ℕ

-- A relocation of the slot at `r_offset` for a symbol, and a tag with its value.
pub record Rela : Type 0 where
  pub r_offset : ℕ
  pub r_sym : ℕ
  pub r_type : ℕ

pub record Dyn : Type 0 where
  pub d_tag : ℕ
  pub d_val : ℕ

abbrev pub lib_name : Str
lib_name = b'l' ∷ b'i' ∷ b'b' ∷ b'c' ∷ b'.' ∷ b's' ∷ b'o' ∷ b'.' ∷ b'6' ∷ 0 ∷ []

abbrev pub exit_name : Str
exit_name = b'e' ∷ b'x' ∷ b'i' ∷ b't' ∷ []

abbrev pub got_reserved : ℕ
got_reserved = 3

abbrev pub dynstr_cap : ℕ
dynstr_cap = 0x2000

abbrev pub sym_name_cap : ℕ
sym_name_cap = 64

abbrev pub ndyn : ℕ
ndyn = 11

abbrev pub nphdr : ℕ
nphdr = 5

-- `sizeof shstrtab_dyn`, of "\0.plt\0.text\0.shstrtab" with its zero.
abbrev pub shstrtab_dyn_size : ℕ
shstrtab_dyn_size = 22

-- The names that `import_name` gives: those of the image, and `exit`.
abbrev pub import_names : BinImage → List Str
import_names image = image.imports ++ exit_name ∷ []

-- Each name with its zero, and where each begins.
unfoldable pub put_names : List Str → List ℕ
put_names [] = []
put_names (name ∷ names) = name ++ 0 ∷ put_names names

unfoldable pub name_offs : ℕ → List Str → List ℕ
name_offs off [] = []
name_offs off (name ∷ names) = off ∷ name_offs (u32 (off + (length name + 1))) names

unfoldable pub build_dynstr : List Str → List ℕ
unfolding put_names
build_dynstr names = 0 ∷ lib_name ++ put_names names

pub record DynamicFile : Type 0 where
  pub ehdr : Ehdr
  pub phdrs : List Phdr
  pub interp_off : ℕ
  pub offs : List ℕ
  pub syms : List Sym
  pub dynstr : List ℕ
  pub hash : HashTable
  pub rela : List Rela
  pub dyn : List Dyn
  pub plt_off : ℕ
  pub stub : List ℕ
  pub plt : List ℕ
  pub text : List ℕ
  pub got_off : ℕ
  pub got : List ℕ
  pub shdrs : List Shdr
  pub total_size : ℕ

-- The calls of imports lead to their PLT entries.
unfoldable pub patch_extcalls : ElfMachine → ℕ → ℕ → List Extcall → List ℕ → List ℕ
unfolding patch_calls
patch_extcalls m text_off plt_off es text =
    patch_calls m.patched_word (load_base + text_off)
      (λ i. load_base + plt_off + m.plt0_size + i * m.plt_entry_size) es text

module _ (h : ElfH) (m : ElfMachine) where
  -- The address of the slot of an import, and of its PLT entry.
  abbrev pub slot_vaddr : ℕ → ℕ → ℕ
  slot_vaddr got_off i = load_base + got_off + (got_reserved + i) * 8

  abbrev pub entry_vaddr : ℕ → ℕ → ℕ
  entry_vaddr plt_off i = load_base + plt_off + m.plt0_size + i * m.plt_entry_size

  -- From the import `i` on, `n` of them.
  unfoldable pub build_rela : ℕ → ℕ → ℕ → List Rela
  build_rela got_off i zero = []
  build_rela got_off i (suc n) =
      (record { r_offset = slot_vaddr got_off i; r_sym = i + 1; r_type = m.reloc_jump_slot })
      ∷ build_rela got_off (i + 1) n

  -- The PLT entries, and the first values of their slots.
  unfoldable pub build_entries : ℕ → ℕ → ℕ → ℕ → List ℕ × List ℕ
  build_entries plt_off got_off i zero = ([], [])
  build_entries plt_off got_off i (suc n) =
      let entry =
        m.build_plt_entry i (entry_vaddr plt_off i) (load_base + plt_off) (slot_vaddr got_off i) in
      let rest = build_entries plt_off got_off (i + 1) n in (entry.0 ++ rest.0, entry.1 ∷ rest.1)

  -- The start of the parts behind the headers and the name of the interpreter, and the parts:
  -- symbols and their names, the hash table, relocations, the stub and the PLT, the text, the
  -- dynamic section with the GOT and the names of sections, and the section headers.
  abbrev pub parts_start : ℕ
  parts_start = h.size_ehdr + nphdr * h.size_phdr + (length m.interp + 1)

  abbrev pub plt_size : ℕ → ℕ
  plt_size nimp = m.plt0_size + nimp * m.plt_entry_size

  abbrev pub got_size : ℕ → ℕ
  got_size nimp = (got_reserved + nimp) * 8

  abbrev pub dynamic_parts : ℕ → ℕ → ℕ → List Part
  dynamic_parts nimp dynstr_len text_size =
      (record { align = 8; size = (nimp + 1) * h.size_sym + dynstr_len })
      ∷ (record { align = 8; size = (2 + nimp + (nimp + 1)) * 4 })
      ∷ (record { align = 8; size = nimp * h.size_rela })
      ∷ (record { align = 16; size = m.dyn_start_stub_size + plt_size nimp })
      ∷ (record { align = 16; size = text_size })
      ∷ (record { align = 4096; size = ndyn * h.size_dyn + got_size nimp + shstrtab_dyn_size })
      ∷ (record { align = 8; size = 4 * h.size_shdr })
      ∷ []

  abbrev pub build_phdrs : List ℕ → ℕ → ℕ → List Phdr
  build_phdrs offs nimp text_size =
      let text_off = get_or offs 4 0 in
      let rw_off = get_or offs 5 0 in
      let rw_filesz = ndyn * h.size_dyn + got_size nimp in
      segment h.pt_phdr h.pf_r h.size_ehdr (nphdr * h.size_phdr) 8
      ∷ segment h.pt_interp h.pf_r (h.size_ehdr + nphdr * h.size_phdr) (length m.interp + 1) 1
      ∷ segment h.pt_load (h.pf_r ||| h.pf_x) 0 (text_off + text_size) page
      ∷ segment h.pt_load (h.pf_r ||| h.pf_w) rw_off rw_filesz page
      ∷ segment h.pt_dynamic (h.pf_r ||| h.pf_w) rw_off (ndyn * h.size_dyn) 8
      ∷ []

  abbrev tagged : ℕ → ℕ → Dyn
  tagged tag val = record { d_tag = tag; d_val = val }

  abbrev pub build_dyn : List ℕ → ℕ → ℕ → ℕ → List Dyn
  build_dyn offs nimp dynstr_len got_off =
      let dynsym_off = get_or offs 0 0 in
      tagged h.dt_needed 1
      ∷ tagged h.dt_hash (load_base + get_or offs 1 0)
      ∷ tagged h.dt_strtab (load_base + (dynsym_off + (nimp + 1) * h.size_sym))
      ∷ tagged h.dt_symtab (load_base + dynsym_off)
      ∷ tagged h.dt_strsz dynstr_len
      ∷ tagged h.dt_syment h.size_sym
      ∷ tagged h.dt_pltgot (load_base + got_off)
      ∷ tagged h.dt_pltrelsz (nimp * h.size_rela)
      ∷ tagged h.dt_pltrel h.dt_rela
      ∷ tagged h.dt_jmprel (load_base + get_or offs 2 0)
      ∷ tagged h.dt_null 0
      ∷ []

  -- Section 0 is all zero and left out; the last one is that of the names.
  abbrev pub build_shdrs : List ℕ → ℕ → ℕ → ℕ → List Shdr
  build_shdrs offs nimp text_size names_off =
      code_section h 1 (get_or offs 3 0) (m.dyn_start_stub_size + plt_size nimp) 16
      ∷ code_section h 6 (get_or offs 4 0) text_size 4
      ∷ names_section h 12 names_off shstrtab_dyn_size
      ∷ []

  -- What is written once the file fits. Symbol 0 is all zero and left out.
  unfoldable pub fill_file : BinImage → List ℕ → ℕ → DynamicFile
  unfolding build_dynstr name_offs symbol_table build_rela build_entries patch_extcalls
  fill_file image offs total_size =
      let names = import_names image in
      let nimp = length names in
      let dynstr = build_dynstr names in
      let stub_off = get_or offs 3 0 in
      let text_off = get_or offs 4 0 in
      let dynamic_off = get_or offs 5 0 in
      let plt_off = stub_off + m.dyn_start_stub_size in
      let got_off = dynamic_off + ndyn * h.size_dyn in
      let entries = build_entries plt_off got_off 0 nimp in
      record {
        ehdr = header h m.elf_machine (load_base + stub_off) (get_or offs 6 0) nphdr 4 3;
        phdrs = build_phdrs offs nimp (length image.text);
        interp_off = h.size_ehdr + nphdr * h.size_phdr;
        offs = offs;
        syms =
            map
              (λ (off : ℕ). record { st_name = off; st_info = h.func_info; st_shndx = h.shn_undef })
              (name_offs 11 names);
        dynstr = dynstr;
        hash = symbol_table names;
        rela = build_rela got_off 0 nimp;
        dyn = build_dyn offs nimp (length dynstr) got_off;
        plt_off = plt_off;
        stub =
            m.build_dyn_start_stub (load_base + stub_off) (load_base + text_off + image.entry)
              (entry_vaddr plt_off (length image.imports));
        plt = m.build_plt0 (load_base + plt_off) (load_base + got_off) ++ entries.0;
        text = patch_extcalls m text_off plt_off image.extcalls image.text;
        got_off = got_off;
        got = (load_base + dynamic_off) ∷ 0 ∷ 0 ∷ entries.1;
        shdrs = build_shdrs offs nimp (length image.text) (got_off + got_size nimp);
        total_size = total_size;
      }

  -- `none` is a report. A write past the end of the tables of names, which C leaves undefined and
  -- which happens before the sizes are checked, is `abort`.
  unfoldable pub write_dynamic_elf : BinImage → Run (Option DynamicFile)
  unfolding build_dynstr fill_file place_parts parts_end
  write_dynamic_elf image =
      let names = import_names image in
      let nimp = length names in
      let dynstr_len = length (build_dynstr names) in
      let parts = dynamic_parts nimp dynstr_len (length image.text) in
      let total_size = parts_end parts_start parts in
      if ltb sym_name_cap nimp || ltb dynstr_cap dynstr_len
      then abort
      else if ltb img_size total_size || ltb 62 nimp
      then ok none
      else ok (some (fill_file image (place_parts parts_start parts) total_size))
