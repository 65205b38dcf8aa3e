-- ===== src/Exe/Macho/Commands.antt =====
-- The load commands of alc/exe-macho.c. The code appends them with zeros and sets some fields later
-- through pointers: `build_commands` is run twice, with zeros for the offset of the code, and with
-- what the fields are set to.
use allang.Base.{ℕ, ◌+◌, ◌-◌, ◌*◌, Bool, if◌then◌else◌, [], ◌∷◌, length, u32, ◌|||◌}
use allang.Str.{Str}
use allang.Exe.Macho.{
  MachH, text_vm, file_page, dyld_path, lib_path, align_up, segment, section, linkedit_data,
  dylinker, dylib, path, build_version, entry_point, Builder, add_command, add_payload, add_segment,
}

-- The fields that are set later.
pub record Patches : Type 0 where
  pub text_fp : ℕ
  pub code_off : ℕ
  pub entryoff : ℕ
  pub data_vm : ℕ
  pub le_fileoff : ℕ
  pub le_filesize : ℕ
  pub cf_size : ℕ
  pub sig_off : ℕ
  pub sb_len : ℕ

abbrev pub no_patches : Patches
no_patches = record {
  text_fp = 0;
  code_off = 0;
  entryoff = 0;
  data_vm = 0;
  le_fileoff = 0;
  le_filesize = 0;
  cf_size = 0;
  sig_off = 0;
  sb_len = 0;
}

-- The fields of the header that are not zero.
pub record Header : Type 0 where
  pub magic : ℕ
  pub cputype : ℕ
  pub cpusubtype : ℕ
  pub filetype : ℕ
  pub ncmds : ℕ
  pub sizeofcmds : ℕ
  pub flags : ℕ

module _ (h : MachH) where
  abbrev add_text : (sect_size : ℕ) → Patches → Builder → Builder
  add_text sect_size p b =
      let zeroes =
        add_segment b
          (segment (record {
            cmdsize = h.size_segment;
            segname = h.seg_pagezero;
            vmaddr = 0;
            vmsize = text_vm;
            fileoff = 0;
            filesize = 0;
            maxprot = 0;
            initprot = 0;
            nsects = 0;
          }))
          h.size_segment in
      let text =
        add_segment zeroes
          (segment (record {
            cmdsize = h.size_segment + h.size_section;
            segname = h.seg_text;
            vmaddr = text_vm;
            vmsize = p.text_fp;
            fileoff = 0;
            filesize = p.text_fp;
            maxprot = h.vm_prot_read ||| h.vm_prot_execute;
            initprot = h.vm_prot_read ||| h.vm_prot_execute;
            nsects = 1;
          }))
          h.size_segment in
      add_payload text
        (section (record {
          sectname = h.sect_text;
          segname = h.seg_text;
          addr = text_vm + p.code_off;
          size = sect_size;
          offset = p.code_off;
          align = 2;
          flags = h.s_attr_pure_instructions ||| h.s_attr_some_instructions;
        }))
        h.size_section

  -- "__DATA_CONST"
  abbrev data_name : Str
  data_name = b'_' ∷ b'_' ∷ b'D' ∷ b'A' ∷ b'T' ∷ b'A' ∷ b'_' ∷ b'C' ∷ b'O' ∷ b'N' ∷ b'S' ∷ b'T' ∷ []

  abbrev add_data : (n_imp : ℕ) → Patches → Builder → Builder
  add_data n_imp p b =
      let data_segment =
        add_segment b
          (segment (record {
            cmdsize = h.size_segment + h.size_section;
            segname = data_name;
            vmaddr = p.data_vm;
            vmsize = file_page;
            fileoff = p.text_fp;
            filesize = file_page;
            maxprot = h.vm_prot_read ||| h.vm_prot_write;
            initprot = h.vm_prot_read ||| h.vm_prot_write;
            nsects = 1;
          }))
          h.size_segment in
      add_payload data_segment
        (section (record {
          sectname = b'_' ∷ b'_' ∷ b'g' ∷ b'o' ∷ b't' ∷ [];
          segname = data_name;
          addr = p.data_vm;
          size = u32 (n_imp * 8);
          offset = p.text_fp;
          align = 3;
          flags = 0;
        }))
        h.size_section

  abbrev add_linkedit : Patches → Builder → Builder
  add_linkedit p b =
      let linkedit =
        add_segment b
          (segment (record {
            cmdsize = h.size_segment;
            segname = h.seg_linkedit;
            vmaddr = text_vm + p.le_fileoff;
            vmsize = file_page;
            fileoff = p.le_fileoff;
            filesize = p.le_filesize;
            maxprot = h.vm_prot_read;
            initprot = h.vm_prot_read;
            nsects = 0;
          }))
          h.size_segment in
      add_command linkedit
        (linkedit_data h.lc_dyld_chained_fixups h.size_linkedit_data p.le_fileoff p.cf_size)
        h.size_linkedit_data

  -- A command and the path behind it, up to a multiple of eight.
  abbrev path_cmdsize : ℕ → Str → ℕ
  path_cmdsize size p = align_up (size + length p + 1) 8

  abbrev add_dylinker : Builder → Builder
  add_dylinker b =
      let cmdsize = path_cmdsize h.size_dylinker dyld_path in
      add_payload (add_command b (dylinker cmdsize h.size_dylinker) h.size_dylinker)
        (path dyld_path) (cmdsize - h.size_dylinker)

  abbrev add_dylib : Builder → Builder
  add_dylib b =
      let cmdsize = path_cmdsize h.size_dylib lib_path in
      add_payload (add_command b (dylib cmdsize h.size_dylib 2 0x05470000 0x00010000) h.size_dylib)
        (path lib_path) (cmdsize - h.size_dylib)

  abbrev add_others : Patches → Builder → Builder
  add_others p b =
      let version =
        add_command b (build_version h.size_build_version h.platform_macos 0x000d0000 0x000d0000)
          h.size_build_version in
      let main =
        add_command version (entry_point h.size_entry_point p.entryoff) h.size_entry_point in
      add_command main (linkedit_data h.lc_code_signature h.size_linkedit_data p.sig_off p.sb_len)
        h.size_linkedit_data

  abbrev first_builder : Builder
  first_builder = record { items = []; off = h.size_header; ncmds = 0; sizeofcmds = 0; nsegs = 0 }

  unfoldable pub build_commands : (dyn : Bool) → (n_imp sect_size : ℕ) → Patches → Builder
  unfolding align_up
  build_commands dyn n_imp sect_size p =
      let text = add_text sect_size p first_builder in
      let filled = if dyn then add_data n_imp p text else text in
      let loader = add_dylinker (add_linkedit p filled) in
      add_others p (if dyn then add_dylib loader else loader)

  -- The offset of the code, behind the commands.
  abbrev pub code_offset : (dyn : Bool) → (n_imp sect_size : ℕ) → ℕ
  code_offset dyn n_imp sect_size = u32 (build_commands dyn n_imp sect_size no_patches).off

  unfoldable pub build_header : Builder → Header
  build_header b = record {
    magic = h.mh_magic_64;
    cputype = h.cpu_type_arm64;
    cpusubtype = h.cpu_subtype_arm64_all;
    filetype = h.mh_execute;
    ncmds = b.ncmds;
    sizeofcmds = b.sizeofcmds;
    flags = h.mh_noundefs ||| h.mh_dyldlink ||| h.mh_twolevel ||| h.mh_pie;
  }
