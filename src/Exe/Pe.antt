-- ===== src/Exe/Pe.antt =====
-- alc/emit_helper-pe-exe.h and alc/exe-pe-x86_64.c: a PE executable, as its parts with their
-- offsets. Of <windows.h>, the sizes of its structs and the constants are the parameter `h`.
pub mod Laws
use allang.Base.{
  ℕ, zero, suc, ◌+◌, ◌-◌, ◌*◌, ◌^◌, Option, none, some, List, [], ◌∷◌, ◌++◌, map, ltb, ◌==◌,
  if◌then◌else◌, length, u32, bit_and, to_bits, sub_ℕ, ◌|||◌,
}
use allang.Str.{Str, str_eq}
use allang.X86.Encode.{put32}
use allang.Exe.Image.{BinImage}
use allang.Exe.Calls.{patch_calls}
use allang.Exe.Blocks.{build_blocks}

-- What the code uses of <windows.h>.
pub record PeH : Type 0 where
  pub size_dos : ℕ
  pub size_nt : ℕ
  pub size_section : ℕ
  pub size_desc : ℕ
  pub size_optional : ℕ
  pub machine_amd64 : ℕ
  pub dos_signature : ℕ
  pub nt_signature : ℕ
  pub optional_magic : ℕ
  pub executable_image : ℕ
  pub large_address_aware : ℕ
  pub subsystem_cui : ℕ
  pub directory_entries : ℕ
  pub scn_code : ℕ
  pub scn_data : ℕ
  pub scn_execute : ℕ
  pub scn_read : ℕ
  pub scn_write : ℕ

abbrev pub pe_section_align : ℕ
pe_section_align = 0x1000

abbrev pub pe_file_align : ℕ
pe_file_align = 0x200

abbrev pub pe_image_base : ℕ
pe_image_base = 0x140000000

abbrev pub pe_num_sections : ℕ
pe_num_sections = 2

abbrev pub pe_max_imports : ℕ
pe_max_imports = 128

abbrev pub pe_thunk_entry : ℕ
pe_thunk_entry = 8

abbrev pub pe_entry_stub_size : ℕ
pe_entry_stub_size = 16

abbrev pub pe_thunk_size : ℕ
pe_thunk_size = 6

abbrev pub img_size : ℕ
img_size = 0x80000

abbrev pub import_dll : Str
import_dll = b'm' ∷ b's' ∷ b'v' ∷ b'c' ∷ b'r' ∷ b't' ∷ b'.' ∷ b'd' ∷ b'l' ∷ b'l' ∷ []

unfoldable pub pe_align : ℕ → ℕ → ℕ
pe_align x a = bit_and (u32 (x + a + (2 ^ 32 - 1))) (2 ^ 32 - 1 - u32 (a + (2 ^ 32 - 1)))

-- `_Exit` is called `_exit`.
unfoldable pub pe_export_name : Str → Str
pe_export_name name =
    if str_eq name (b'_' ∷ b'E' ∷ b'x' ∷ b'i' ∷ b't' ∷ [])
    then b'_' ∷ b'e' ∷ b'x' ∷ b'i' ∷ b't' ∷ []
    else name

-- The names that `pe_import_name` gives: those of the image as they are exported, and `exit`.
unfoldable pub pe_import_names : BinImage → List Str
unfolding pe_export_name
pe_import_names image = map pe_export_name image.imports ++ (b'e' ∷ b'x' ∷ b'i' ∷ b't' ∷ []) ∷ []

-- `(int32_t)(target - from)`
abbrev pub rel_rva : ℕ → ℕ → ℕ
rel_rva target from = to_bits 32 (sub_ℕ target from)

abbrev pub pe_build_entry_stub : ℕ → ℕ → ℕ → List ℕ
pe_build_entry_stub stub_rva main_rva exit_thunk_rva =
    0x48 ∷ 0x83 ∷ 0xec ∷ 0x28 ∷ 0xe8 ∷ put32 (rel_rva main_rva (stub_rva + 9))
    ++ 0x89 ∷ 0xc1 ∷ 0xe8 ∷ put32 (rel_rva exit_thunk_rva (stub_rva + 16))

abbrev pub pe_build_thunk : ℕ → ℕ → List ℕ
pe_build_thunk thunk_rva iat_slot_rva = 0xff ∷ 0x25 ∷ put32 (rel_rva iat_slot_rva (thunk_rva + 6))

-- `pe_patch_call`
abbrev pub pe_patched_word : ℕ → ℕ → ℕ → ℕ
pe_patched_word w site_rva target_rva = rel_rva target_rva (site_rva + 4)

-- The bytes of a hint, a name and its zero, to an even number.
abbrev pub hint_name_size : Str → ℕ
hint_name_size name = pe_align (2 + length name + 1) 2

-- Where each name begins, and `cur` behind them.
unfoldable pub name_offs : ℕ → List Str → List ℕ
unfolding pe_align
name_offs cur [] = []
name_offs cur (name ∷ names) = cur ∷ name_offs (u32 (cur + hint_name_size name)) names

unfoldable pub names_end : ℕ → List Str → ℕ
unfolding pe_align
names_end cur [] = cur
names_end cur (name ∷ names) = names_end (u32 (cur + hint_name_size name)) names

-- A section, and the directory of an optional header: an address and a size.
pub record Section : Type 0 where
  pub name : Str
  pub virtual_size : ℕ
  pub virtual_address : ℕ
  pub size_of_raw_data : ℕ
  pub pointer_to_raw_data : ℕ
  pub characteristics : ℕ

-- The fields of the headers that are not zero.
pub record Headers : Type 0 where
  pub e_magic : ℕ
  pub e_lfanew : ℕ
  pub signature : ℕ
  pub machine : ℕ
  pub number_of_sections : ℕ
  pub size_of_optional_header : ℕ
  pub characteristics : ℕ
  pub magic : ℕ
  pub address_of_entry_point : ℕ
  pub base_of_code : ℕ
  pub image_base : ℕ
  pub section_alignment : ℕ
  pub file_alignment : ℕ
  pub major_operating_system_version : ℕ
  pub major_subsystem_version : ℕ
  pub size_of_image : ℕ
  pub size_of_headers : ℕ
  pub subsystem : ℕ
  pub size_of_stack_reserve : ℕ
  pub size_of_stack_commit : ℕ
  pub size_of_heap_reserve : ℕ
  pub size_of_heap_commit : ℕ
  pub number_of_rva_and_sizes : ℕ
  pub size_of_code : ℕ
  pub size_of_initialized_data : ℕ
  pub import_directory : ℕ × ℕ
  pub iat_directory : ℕ × ℕ
  pub sections : List Section

-- The file; `hint_names` are the names with their offsets in `.idata`, and `ilt` is also the IAT.
pub record PeFile : Type 0 where
  pub headers : Headers
  pub stub : List ℕ
  pub thunks : List ℕ
  pub text : List ℕ
  pub original_first_thunk : ℕ
  pub dll_name : ℕ
  pub first_thunk : ℕ
  pub ilt : List ℕ
  pub hint_names : List (ℕ × Str)
  pub total_file : ℕ

abbrev pub thunks_rva : ℕ
thunks_rva = pe_section_align + pe_entry_stub_size

abbrev pub thunk_rva : ℕ → ℕ
thunk_rva i = thunks_rva + i * pe_thunk_size

-- The code behind the thunks, and the sizes of `.text`.
abbrev pub code_rva : ℕ → ℕ
code_rva nimp = thunks_rva + nimp * pe_thunk_size

abbrev pub text_vsize : ℕ → ℕ → ℕ
text_vsize nimp text_size = u32 (code_rva nimp - pe_section_align + u32 text_size)

abbrev pub idata_va : ℕ → ℕ → ℕ
idata_va nimp text_size =
    pe_align (u32 (pe_section_align + text_vsize nimp text_size)) pe_section_align

abbrev pub zip_offs : List ℕ → List Str → List (ℕ × Str)
zip_offs [] names = []
zip_offs (o ∷ os) [] = []
zip_offs (o ∷ os) (name ∷ names) = (o, name) ∷ zip_offs os names

module _ (h : PeH) where
  abbrev pub size_of_headers : ℕ
  size_of_headers =
      pe_align (h.size_dos + h.size_nt + pe_num_sections * h.size_section) pe_file_align

  -- The offsets in `.idata` of the lookup table, the address table and the names.
  abbrev pub ilt_off : ℕ
  ilt_off = 2 * h.size_desc

  abbrev pub iat_off : ℕ → ℕ
  iat_off nimp = ilt_off + (nimp + 1) * pe_thunk_entry

  abbrev pub names_off : ℕ → ℕ
  names_off nimp = iat_off nimp + (nimp + 1) * pe_thunk_entry

  -- The thunks of `n` imports.
  abbrev pub build_thunks : (iat_rva n : ℕ) → List ℕ
  build_thunks iat_rva n =
      build_blocks (λ (i : ℕ). pe_build_thunk (thunk_rva i) (iat_rva + i * pe_thunk_entry)) 0 n

  -- `.idata` ends behind the name of the library.
  abbrev pub idata_vsize : List Str → ℕ
  idata_vsize names = u32 (names_end (names_off (length names)) names + length import_dll + 1)

  abbrev pub text_raw_size : ℕ → ℕ → ℕ
  text_raw_size nimp text_size = pe_align (text_vsize nimp text_size) pe_file_align

  abbrev pub idata_raw_ptr : ℕ → ℕ → ℕ
  idata_raw_ptr nimp text_size = u32 (size_of_headers + text_raw_size nimp text_size)

  abbrev pub total_file : List Str → ℕ → ℕ
  total_file names text_size =
      u32 (idata_raw_ptr (length names) text_size + pe_align (idata_vsize names) pe_file_align)

  abbrev build_sections : List Str → ℕ → List Section
  build_sections names text_size =
      let nimp = length names in
      (record {
        name = b'.' ∷ b't' ∷ b'e' ∷ b'x' ∷ b't' ∷ [];
        virtual_size = text_vsize nimp text_size;
        virtual_address = pe_section_align;
        size_of_raw_data = text_raw_size nimp text_size;
        pointer_to_raw_data = size_of_headers;
        characteristics = h.scn_code ||| h.scn_execute ||| h.scn_read;
      })
      ∷ (record {
        name = b'.' ∷ b'i' ∷ b'd' ∷ b'a' ∷ b't' ∷ b'a' ∷ [];
        virtual_size = idata_vsize names;
        virtual_address = idata_va nimp text_size;
        size_of_raw_data = pe_align (idata_vsize names) pe_file_align;
        pointer_to_raw_data = idata_raw_ptr nimp text_size;
        characteristics = h.scn_data ||| h.scn_read ||| h.scn_write;
      })
      ∷ []

  unfoldable pub build_headers : List Str → ℕ → Headers
  build_headers names text_size =
      let nimp = length names in
      let idata = idata_va nimp text_size in
      record {
        e_magic = h.dos_signature;
        e_lfanew = h.size_dos;
        signature = h.nt_signature;
        machine = h.machine_amd64;
        number_of_sections = pe_num_sections;
        size_of_optional_header = h.size_optional;
        characteristics = h.executable_image ||| h.large_address_aware;
        magic = h.optional_magic;
        address_of_entry_point = pe_section_align;
        base_of_code = pe_section_align;
        image_base = pe_image_base;
        section_alignment = pe_section_align;
        file_alignment = pe_file_align;
        major_operating_system_version = 6;
        major_subsystem_version = 6;
        size_of_image = pe_align (u32 (idata + idata_vsize names)) pe_section_align;
        size_of_headers = size_of_headers;
        subsystem = h.subsystem_cui;
        size_of_stack_reserve = 0x100000;
        size_of_stack_commit = 0x1000;
        size_of_heap_reserve = 0x100000;
        size_of_heap_commit = 0x1000;
        number_of_rva_and_sizes = h.directory_entries;
        size_of_code = text_raw_size nimp text_size;
        size_of_initialized_data = pe_align (idata_vsize names) pe_file_align;
        import_directory = (idata, 2 * h.size_desc);
        iat_directory = (idata + iat_off nimp, (nimp + 1) * pe_thunk_entry);
        sections = build_sections names text_size;
      }

  unfoldable pub fill_pe : BinImage → PeFile
  unfolding pe_import_names build_headers build_blocks name_offs names_end patch_calls
  fill_pe image =
      let names = pe_import_names image in
      let nimp = length names in
      let text_size = length image.text in
      let idata = idata_va nimp text_size in
      let offs = name_offs (names_off nimp) names in
      record {
        headers = build_headers names text_size;
        stub =
            pe_build_entry_stub pe_section_align (u32 (code_rva nimp + image.entry))
              (thunk_rva (length image.imports));
        thunks = build_thunks (idata + iat_off nimp) nimp;
        text = patch_calls pe_patched_word (code_rva nimp) thunk_rva image.extcalls image.text;
        original_first_thunk = idata + ilt_off;
        dll_name = idata + names_end (names_off nimp) names;
        first_thunk = idata + iat_off nimp;
        ilt = map (λ (off : ℕ). idata + off) offs;
        hint_names = zip_offs offs names;
        total_file = total_file names text_size;
      }

  -- `none` is a report.
  unfoldable pub write_pe : BinImage → Option PeFile
  unfolding pe_import_names fill_pe
  write_pe image =
      let names = pe_import_names image in
      if ltb pe_max_imports (length names)
      then none
      else if ltb img_size (total_file names (length image.text))
      then none
      else some (fill_pe image)
