-- ===== src/Exe/Macho.antt =====
-- alc/exe-macho.c: the types of a Mach-O executable, its builder of load commands, and its helpers.
-- Of <mach-o/loader.h> and the headers beside it, the sizes of the structs and the constants are
-- the parameter `h`.
pub mod Signature
pub mod Chained
pub mod Stubs
pub mod Commands
pub mod Write
pub mod Laws
use allang.Base.{ℕ, ◌+◌, ◌-◌, ◌^◌, List, [], ◌∷◌, ◌++◌, u32, bit_and, ◌>>>◌}
use allang.Str.{Str}

-- What the code uses of the headers of the system.
pub record MachH : Type 0 where
  pub size_header : ℕ
  pub size_segment : ℕ
  pub size_section : ℕ
  pub size_linkedit_data : ℕ
  pub size_dylinker : ℕ
  pub size_dylib : ℕ
  pub size_build_version : ℕ
  pub size_entry_point : ℕ
  pub size_fixups_header : ℕ
  pub size_starts_in_segment : ℕ
  pub mh_magic_64 : ℕ
  pub cpu_type_arm64 : ℕ
  pub cpu_subtype_arm64_all : ℕ
  pub mh_execute : ℕ
  pub mh_noundefs : ℕ
  pub mh_dyldlink : ℕ
  pub mh_twolevel : ℕ
  pub mh_pie : ℕ
  pub lc_segment_64 : ℕ
  pub lc_dyld_chained_fixups : ℕ
  pub lc_load_dylinker : ℕ
  pub lc_load_dylib : ℕ
  pub lc_build_version : ℕ
  pub lc_main : ℕ
  pub lc_code_signature : ℕ
  pub vm_prot_read : ℕ
  pub vm_prot_write : ℕ
  pub vm_prot_execute : ℕ
  pub s_attr_pure_instructions : ℕ
  pub s_attr_some_instructions : ℕ
  pub platform_macos : ℕ
  pub dyld_chained_import : ℕ
  pub dyld_chained_ptr_64_offset : ℕ
  pub seg_pagezero : Str
  pub seg_text : Str
  pub seg_linkedit : Str
  pub sect_text : Str
  pub sha256_digest_length : ℕ

abbrev pub text_vm : ℕ
text_vm = 0x100000000

abbrev pub file_page : ℕ
file_page = 0x4000

abbrev pub cs_page : ℕ
cs_page = 4096

-- "/usr/lib/dyld"
abbrev pub dyld_path : Str
dyld_path =
    b'/' ∷ b'u' ∷ b's' ∷ b'r' ∷ b'/' ∷ b'l' ∷ b'i' ∷ b'b' ∷ b'/' ∷ b'd' ∷ b'y' ∷ b'l' ∷ b'd' ∷ []

-- "/usr/lib/libSystem.B.dylib"
abbrev pub lib_path : Str
lib_path =
    b'/' ∷ b'u' ∷ b's' ∷ b'r' ∷ b'/' ∷ b'l' ∷ b'i' ∷ b'b' ∷ b'/' ∷ b'l' ∷ b'i' ∷ b'b' ∷ b'S' ∷ b'y'
    ∷ b's' ∷ b't' ∷ b'e' ∷ b'm' ∷ b'.' ∷ b'B' ∷ b'.' ∷ b'd' ∷ b'y' ∷ b'l' ∷ b'i' ∷ b'b' ∷ []

abbrev pub put_u32_be : ℕ → List ℕ
put_u32_be v =
    bit_and (v >>> 24) 0xff ∷ bit_and (v >>> 16) 0xff ∷ bit_and (v >>> 8) 0xff ∷ bit_and v 0xff ∷ []

abbrev pub put_u64_be : ℕ → List ℕ
put_u64_be v = put_u32_be (u32 (v >>> 32)) ++ put_u32_be (u32 (bit_and v 0xffffffff))

unfoldable pub align_up : ℕ → ℕ → ℕ
align_up x a = bit_and (u32 (x + a + (2 ^ 32 - 1))) (2 ^ 32 - 1 - u32 (a + (2 ^ 32 - 1)))

-- The structs of the load commands, with the fields that are not zero.
pub record Segment : Type 0 where
  pub cmdsize : ℕ
  pub segname : Str
  pub vmaddr : ℕ
  pub vmsize : ℕ
  pub fileoff : ℕ
  pub filesize : ℕ
  pub maxprot : ℕ
  pub initprot : ℕ
  pub nsects : ℕ

pub record Sect : Type 0 where
  pub sectname : Str
  pub segname : Str
  pub addr : ℕ
  pub size : ℕ
  pub offset : ℕ
  pub align : ℕ
  pub flags : ℕ

pub data Command : Type 0 where
  segment : Segment → Command
  section : Sect → Command
  linkedit_data : (cmd cmdsize dataoff datasize : ℕ) → Command
  dylinker : (cmdsize name_offset : ℕ) → Command
  dylib : (cmdsize name_offset timestamp current_version compatibility_version : ℕ) → Command
  path : Str → Command
  build_version : (cmdsize platform minos sdk : ℕ) → Command
  entry_point : (cmdsize entryoff : ℕ) → Command

-- What was appended is the list of the structs.
pub record Builder : Type 0 where
  pub items : List Command
  pub off : ℕ
  pub ncmds : ℕ
  pub sizeofcmds : ℕ
  pub nsegs : ℕ

abbrev pub bld_append : Builder → Command → ℕ → Builder
bld_append b p n = record b { items = b.items ++ p ∷ []; off = b.off + n }

abbrev pub add_command : Builder → Command → ℕ → Builder
add_command b cmd n =
    let after = bld_append b cmd n in
    record after { ncmds = u32 (after.ncmds + 1); sizeofcmds = u32 (after.sizeofcmds + u32 n) }

abbrev pub add_payload : Builder → Command → ℕ → Builder
add_payload b p n =
    let after = bld_append b p n in record after { sizeofcmds = u32 (after.sizeofcmds + u32 n) }

abbrev pub add_segment : Builder → Command → ℕ → Builder
add_segment b cmd n =
    let after = add_command b cmd n in record after { nsegs = u32 (after.nsegs + 1) }
