-- ===== src/Tests/ExeTests.antt =====
-- Concrete runs of the writers of executables, as witnesses of the theorems about them.
use allang.Base.{
  ℕ, ◌+◌, ◌*◌, ◌≤◌, ◌≡◌, refl, arith, some, List, [], ◌∷◌, replicate, true, length, get_or, drop,
  pos,
}
use allang.Str.{Str}
use allang.X86.Asm.Store.{read32}
use allang.Exe.Image.{BinImage}
use allang.Exe.Hash.{symbol_table}
use allang.Exe.Hash.Laws.{search, symbol_name, symbol_table-search}
use allang.Exe.Calls.Laws.{outside, all_calls}
use allang.Exe.Parts.Laws.{parts_room}
use allang.Exe.Machine.X86Elf.{x86_elf, x86_elf-ElfLaws, is_call_any, call_target, slot_target}
use allang.Exe.Machine.Aarch64Elf.{aarch64_elf}
use allang.Exe.Machine.Aarch64Elf.Laws.{aarch64_elf-ElfLaws}
use allang.Exe.Machine.{ElfMachine, ElfLaws}
use allang.Exe.Machine.Target.{on_x86_64, on_aarch64}
use allang.Exe.Pe.{PeH}
use allang.Exe.Pe.Laws
use allang.Exe.Macho.{MachH, text_vm, align_up}
use allang.Exe.Macho.Commands.{build_commands}
use allang.Exe.Macho.Write.{Unsigned, fill_macho, write_macho}
use allang.Exe.Macho.Laws.Stub.{stub_target}
use allang.Exe.Macho.Laws.Calls
use allang.Exe.Macho.Laws.Calls.{write_macho-calls}
use allang.Exe.Machine.Aarch64Elf
use allang.Exe.Elf.{ElfH, load_base}
use allang.Exe.Elf.Dynamic.{got_reserved, entry_vaddr, build_dynstr, put_names}
use allang.Exe.Elf.Laws.{dynamic_file, Fits}
use allang.Exe.Elf.Laws.Plt.{no_rela, plt-slot}
use allang.Exe.Elf.Laws.Calls.{extcall-entry}

-- The values of <elf.h>, by the System V ABI.
abbrev elf_h : ElfH
elf_h = record {
  size_ehdr = 64;
  size_phdr = 56;
  size_shdr = 64;
  size_sym = 24;
  size_rela = 24;
  size_dyn = 16;
  e_ident = 0x7f ∷ b'E' ∷ b'L' ∷ b'F' ∷ 2 ∷ 1 ∷ 1 ∷ [];
  et_exec = 2;
  ev_current = 1;
  pt_load = 1;
  pt_phdr = 6;
  pt_interp = 3;
  pt_dynamic = 2;
  pf_r = 4;
  pf_w = 2;
  pf_x = 1;
  sht_progbits = 1;
  sht_strtab = 3;
  shf_alloc = 2;
  shf_execinstr = 4;
  func_info = 0x12;
  shn_undef = 0;
  dt_needed = 1;
  dt_hash = 4;
  dt_strtab = 5;
  dt_symtab = 6;
  dt_strsz = 10;
  dt_syment = 11;
  dt_pltgot = 3;
  dt_pltrelsz = 2;
  dt_pltrel = 20;
  dt_jmprel = 23;
  dt_null = 0;
  dt_rela = 7;
}

abbrev puts : Str
puts = b'p' ∷ b'u' ∷ b't' ∷ b's' ∷ []

abbrev abs : Str
abs = b'a' ∷ b'b' ∷ b's' ∷ []

-- `call abs; call puts; ret`
abbrev two_calls : BinImage
two_calls = record {
  text = 0xe8 ∷ 0 ∷ 0 ∷ 0 ∷ 0 ∷ 0xe8 ∷ 0 ∷ 0 ∷ 0 ∷ 0 ∷ 0xc3 ∷ [];
  entry = 0;
  imports = puts ∷ abs ∷ [];
  extcalls = (record { site = 1; imp = 1 }) ∷ (record { site = 6; imp = 0 }) ∷ [];
}

-- `bl abs; ret`
abbrev one_call : BinImage
one_call = record {
  text = 0 ∷ 0 ∷ 0 ∷ 0x94 ∷ 0xc0 ∷ 0x03 ∷ 0x5f ∷ 0xd6 ∷ [];
  entry = 0;
  imports = puts ∷ abs ∷ [];
  extcalls = (record { site = 0; imp = 1 }) ∷ [];
}

abbrev x86 : ElfMachine
x86 = x86_elf 62 7

abbrev arm : ElfMachine
arm = aarch64_elf 183 1026

abbrev x86_laws : ElfLaws x86 1
x86_laws = x86_elf-ElfLaws 62 7

abbrev arm_laws : ElfLaws arm 4
arm_laws = aarch64_elf-ElfLaws 183 1026

two_calls-Fits : Fits elf_h x86 two_calls
unfolding x86_elf parts_room build_dynstr put_names
two_calls-Fits = record { few = omega arith; short = omega arith; room = omega arith }

one_call-Fits : Fits elf_h arm one_call
unfolding aarch64_elf parts_room build_dynstr put_names
one_call-Fits = record { few = omega arith; short = omega arith; room = omega arith }

symbol_table-search_example :
    let all : List Str = puts ∷ abs ∷ [] in
    (z : ℕ) × (search (symbol_table all) all abs ≡ some z) × (symbol_name all z ≡ abs)
symbol_table-search_example = symbol_table-search (puts ∷ abs ∷ []) 1 (omega arith)

plt-slot_example :
    let f = dynamic_file elf_h arm one_call in
    let rela = get_or f.rela 1 no_rela in
    (arm_laws.slot_target
        (drop (arm.plt0_size + 1 * arm.plt_entry_size) f.plt)
        (entry_vaddr elf_h arm f.plt_off 1)
      ≡ pos rela.r_offset)
    × (rela.r_sym ≡ 2)
    × (rela.r_offset ≡ load_base + f.got_off + (got_reserved + 1) * 8)
plt-slot_example = plt-slot elf_h (on_aarch64 183 1026) one_call 1 one_call-Fits (omega arith) refl

two_calls-calls : all_calls x86_laws.is_call two_calls.extcalls two_calls.text ≡ true
two_calls-calls =
    let any = is_call_any 62 7 in
    rw (any (read32 two_calls.text 1), any (read32 two_calls.text 6)) refl

extcall-entry_example :
    let f = dynamic_file elf_h x86 two_calls in
    (x86_laws.call_target (read32 f.text 1) (load_base + get_or f.offs 4 0 + 1)
      ≡ pos (entry_vaddr elf_h x86 f.plt_off 1))
    × (length f.text ≡ 11)
    × ((k : ℕ)
        → outside k two_calls.extcalls ≡ true
        → get_or f.text k 0 ≡ get_or two_calls.text k 0)
extcall-entry_example =
    extcall-entry elf_h (on_x86_64 62 7) two_calls 0 (record { site = 1; imp = 1 }) two_calls-Fits
      refl refl two_calls-calls refl

-- The values of <windows.h>.
abbrev pe_h : PeH
pe_h = record {
  size_dos = 64;
  size_nt = 264;
  size_section = 40;
  size_desc = 20;
  size_optional = 240;
  machine_amd64 = 0x8664;
  dos_signature = 0x5a4d;
  nt_signature = 0x4550;
  optional_magic = 0x20b;
  executable_image = 2;
  large_address_aware = 0x20;
  subsystem_cui = 3;
  directory_entries = 16;
  scn_code = 0x20;
  scn_data = 0x40;
  scn_execute = 0x20000000;
  scn_read = 0x40000000;
  scn_write = 0x80000000;
}

-- The values of <mach-o/loader.h> and the headers beside it.
abbrev mach_h : MachH
mach_h = record {
  size_header = 32;
  size_segment = 72;
  size_section = 80;
  size_linkedit_data = 16;
  size_dylinker = 12;
  size_dylib = 24;
  size_build_version = 24;
  size_entry_point = 24;
  size_fixups_header = 28;
  size_starts_in_segment = 24;
  mh_magic_64 = 0xfeedfacf;
  cpu_type_arm64 = 0x100000c;
  cpu_subtype_arm64_all = 0;
  mh_execute = 2;
  mh_noundefs = 1;
  mh_dyldlink = 4;
  mh_twolevel = 0x80;
  mh_pie = 0x200000;
  lc_segment_64 = 0x19;
  lc_dyld_chained_fixups = 0x80000034;
  lc_load_dylinker = 0xe;
  lc_load_dylib = 0xc;
  lc_build_version = 0x32;
  lc_main = 0x80000028;
  lc_code_signature = 0x1d;
  vm_prot_read = 1;
  vm_prot_write = 2;
  vm_prot_execute = 4;
  s_attr_pure_instructions = 0x80000000;
  s_attr_some_instructions = 0x400;
  platform_macos = 1;
  dyld_chained_import = 1;
  dyld_chained_ptr_64_offset = 6;
  seg_pagezero = b'_' ∷ b'_' ∷ b'P' ∷ b'A' ∷ b'G' ∷ b'E' ∷ b'Z' ∷ b'E' ∷ b'R' ∷ b'O' ∷ [];
  seg_text = b'_' ∷ b'_' ∷ b'T' ∷ b'E' ∷ b'X' ∷ b'T' ∷ [];
  seg_linkedit = b'_' ∷ b'_' ∷ b'L' ∷ b'I' ∷ b'N' ∷ b'K' ∷ b'E' ∷ b'D' ∷ b'I' ∷ b'T' ∷ [];
  sect_text = b'_' ∷ b'_' ∷ b't' ∷ b'e' ∷ b'x' ∷ b't' ∷ [];
  sha256_digest_length = 32;
}

-- In place of a digest.
abbrev no_digest : Unsigned → ℕ → ℕ → List ℕ
no_digest body start len = replicate 32 0

macho-Fits : Calls.Fits mach_h true one_call
unfolding build_commands align_up
macho-Fits = record {
  commands = omega arith;
  header = omega arith;
  at_word = omega arith;
  short = omega arith;
  few = omega arith;
}

write_macho-calls_example :
    let f = fill_macho mach_h no_digest true one_call in
    let b = f.body in
    (write_macho mach_h no_digest true one_call (λ n. true) ≡ some f)
    × (Aarch64Elf.Laws.call_target (read32 b.text 0) (text_vm + b.code_off + 0)
        ≡ pos (text_vm + b.stub_off + 1 * 12))
    × (stub_target (drop (1 * 12) b.stubs) (text_vm + b.stub_off + 1 * 12)
        ≡ pos (text_vm + b.text_fp + 1 * 8))
    × (b.code_off + 8 ≤ b.stub_off)
    × (b.stub_off + 2 * 12 ≤ b.text_fp)
write_macho-calls_example =
    write_macho-calls mach_h no_digest true one_call macho-Fits (λ n. true) 0
      (record { site = 0; imp = 1 }) (λ n. refl) refl refl refl
