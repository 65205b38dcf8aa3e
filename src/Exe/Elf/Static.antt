-- ===== src/Exe/Elf/Static.antt =====
-- `write_static_elf` of alc/emit_helper-elf-exe.h.
use allang.Base.{
  ℕ, ◌+◌, ◌-◌, ◌*◌, Option, none, some, List, [], ◌∷◌, ◌|||◌, ltb, if◌then◌else◌, length, u64,
}
use allang.Parser.Struct.{align_to}
use allang.Exe.Image.{BinImage}
use allang.Exe.Machine.{ElfMachine}
use allang.Exe.Elf.{
  ElfH, Ehdr, Phdr, Shdr, load_base, page, img_size, header, segment, code_section, names_section,
}

-- `sizeof shstrtab`, of "\0.text\0.shstrtab" with its zero.
abbrev pub shstrtab_size : ℕ
shstrtab_size = 17

pub record StaticFile : Type 0 where
  pub ehdr : Ehdr
  pub phdr : Phdr
  pub stub_off : ℕ
  pub stub : List ℕ
  pub text_off : ℕ
  pub text : List ℕ
  pub shstrtab_off : ℕ
  pub shdr_off : ℕ
  pub shdrs : List Shdr
  pub total_size : ℕ

module _ (h : ElfH) (m : ElfMachine) where
  abbrev pub stub_off : ℕ
  stub_off = h.size_ehdr + h.size_phdr

  abbrev pub text_off : ℕ
  text_off = u64 (stub_off + m.start_stub_size)

  abbrev pub image_size : BinImage → ℕ
  image_size image = u64 (text_off + length image.text)

  abbrev pub shdr_off : BinImage → ℕ
  shdr_off image = align_to (u64 (image_size image + shstrtab_size)) 8

  abbrev pub total_size : BinImage → ℕ
  total_size image = u64 (shdr_off image + 3 * h.size_shdr)

  -- `none` is a report. Section 0 is all zero and left out.
  unfoldable pub write_static_elf : BinImage → Option StaticFile
  write_static_elf image =
      if ltb img_size (total_size image)
      then none
      else some (record {
        ehdr = header h m.elf_machine (load_base + stub_off) (shdr_off image) 1 3 2;
        phdr = segment h.pt_load (h.pf_r ||| h.pf_w ||| h.pf_x) 0 (image_size image) page;
        stub_off = stub_off;
        stub = m.build_start_stub (load_base + stub_off) (load_base + text_off + image.entry);
        text_off = text_off;
        text = image.text;
        shstrtab_off = image_size image;
        shdr_off = shdr_off image;
        shdrs =
            code_section h 1 stub_off (image_size image - stub_off) 4
            ∷ names_section h 7 (image_size image) shstrtab_size
            ∷ [];
        total_size = total_size image;
      })
