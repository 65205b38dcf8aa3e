-- ===== src/Exe/Elf.antt =====
-- alc/emit_helper-elf-exe.h: an ELF executable, as its parts with their offsets. Of <elf.h>, the
-- sizes of its structs and the constants are the parameter `h`.
pub mod Static
pub mod Dynamic
pub mod Laws
use allang.Base.{ℕ, ◌+◌, List, ◌|||◌}

-- What the code uses of <elf.h>; `e_ident` is its seven bytes for a 64-bit file, little end first.
pub record ElfH : Type 0 where
  pub size_ehdr : ℕ
  pub size_phdr : ℕ
  pub size_shdr : ℕ
  pub size_sym : ℕ
  pub size_rela : ℕ
  pub size_dyn : ℕ
  pub e_ident : List ℕ
  pub et_exec : ℕ
  pub ev_current : ℕ
  pub pt_load : ℕ
  pub pt_phdr : ℕ
  pub pt_interp : ℕ
  pub pt_dynamic : ℕ
  pub pf_r : ℕ
  pub pf_w : ℕ
  pub pf_x : ℕ
  pub sht_progbits : ℕ
  pub sht_strtab : ℕ
  pub shf_alloc : ℕ
  pub shf_execinstr : ℕ
  pub func_info : ℕ
  pub shn_undef : ℕ
  pub dt_needed : ℕ
  pub dt_hash : ℕ
  pub dt_strtab : ℕ
  pub dt_symtab : ℕ
  pub dt_strsz : ℕ
  pub dt_syment : ℕ
  pub dt_pltgot : ℕ
  pub dt_pltrelsz : ℕ
  pub dt_pltrel : ℕ
  pub dt_jmprel : ℕ
  pub dt_null : ℕ
  pub dt_rela : ℕ

-- The fields of the structs that are set; the others are zero.
pub record Ehdr : Type 0 where
  pub e_ident : List ℕ
  pub e_type : ℕ
  pub e_machine : ℕ
  pub e_version : ℕ
  pub e_entry : ℕ
  pub e_phoff : ℕ
  pub e_shoff : ℕ
  pub e_ehsize : ℕ
  pub e_phentsize : ℕ
  pub e_phnum : ℕ
  pub e_shentsize : ℕ
  pub e_shnum : ℕ
  pub e_shstrndx : ℕ

pub record Phdr : Type 0 where
  pub p_type : ℕ
  pub p_flags : ℕ
  pub p_offset : ℕ
  pub p_vaddr : ℕ
  pub p_paddr : ℕ
  pub p_filesz : ℕ
  pub p_memsz : ℕ
  pub p_align : ℕ

pub record Shdr : Type 0 where
  pub sh_name : ℕ
  pub sh_type : ℕ
  pub sh_flags : ℕ
  pub sh_addr : ℕ
  pub sh_offset : ℕ
  pub sh_size : ℕ
  pub sh_addralign : ℕ

abbrev pub load_base : ℕ
load_base = 0x400000

abbrev pub page : ℕ
page = 0x1000

abbrev pub img_size : ℕ
img_size = 0x80000

-- The header of a file with an entry and its tables.
abbrev pub header : ElfH → (machine entry shoff phnum shnum shstrndx : ℕ) → Ehdr
header h machine entry shoff phnum shnum shstrndx = record {
  e_ident = h.e_ident;
  e_type = h.et_exec;
  e_machine = machine;
  e_version = h.ev_current;
  e_entry = entry;
  e_phoff = h.size_ehdr;
  e_shoff = shoff;
  e_ehsize = h.size_ehdr;
  e_phentsize = h.size_phdr;
  e_phnum = phnum;
  e_shentsize = h.size_shdr;
  e_shnum = shnum;
  e_shstrndx = shstrndx;
}

-- A segment whose bytes in the file are all of those in memory.
abbrev pub segment : (type flags off size align : ℕ) → Phdr
segment type flags off size align = record {
  p_type = type;
  p_flags = flags;
  p_offset = off;
  p_vaddr = load_base + off;
  p_paddr = load_base + off;
  p_filesz = size;
  p_memsz = size;
  p_align = align;
}

-- A section of code, and the one with the names of sections.
abbrev pub code_section : ElfH → (name off size align : ℕ) → Shdr
code_section h name off size align = record {
  sh_name = name;
  sh_type = h.sht_progbits;
  sh_flags = h.shf_alloc ||| h.shf_execinstr;
  sh_addr = load_base + off;
  sh_offset = off;
  sh_size = size;
  sh_addralign = align;
}

abbrev pub names_section : ElfH → (name off size : ℕ) → Shdr
names_section h name off size = record {
  sh_name = name;
  sh_type = h.sht_strtab;
  sh_flags = 0;
  sh_addr = 0;
  sh_offset = off;
  sh_size = size;
  sh_addralign = 1;
}
