-- ===== src/Exe/Macho/Write.antt =====
-- `write_macho` of alc/exe-macho.c. `memory n` tells whether `calloc` gives `n` bytes, and
-- `sha256 file start len` is the digest of bytes of the file without its signature.
use allang.Base.{
  ℕ, zero, suc, ◌+◌, ◌-◌, ◌*◌, ◌/◌, ◌^◌, Bool, not, ◌&&◌, ltb, if◌then◌else◌, Option, none, some,
  List, [], ◌∷◌, length, u32,
}
use allang.Str.{Str}
use allang.Exe.Image.{BinImage}
use allang.Exe.Calls.{patch_calls}
use allang.Exe.Macho.{MachH, text_vm, file_page, cs_page, align_up, Command}
use allang.Exe.Macho.Commands.{Header, build_commands, code_offset, build_header}
use allang.Exe.Macho.Signature.{cd_hdr_sz, ident_len, write_signature}
use allang.Exe.Macho.Chained.{Fixups, build_chained_imports, no_fixups, build_got}
use allang.Exe.Macho.Stubs.{build_stubs, patched_bl}

-- The file up to the signature; `stubs` stand at `stub_off`, and `got` at `text_fp`.
pub record Unsigned : Type 0 where
  pub header : Header
  pub commands : List Command
  pub code_off : ℕ
  pub text : List ℕ
  pub stub_off : ℕ
  pub stubs : List ℕ
  pub text_fp : ℕ
  pub got : List ℕ
  pub cf_off : ℕ
  pub fixups : Fixups

pub record MachFile : Type 0 where
  pub body : Unsigned
  pub sig_off : ℕ
  pub signature : List ℕ
  pub size : ℕ

abbrev pub stub_pad : ℕ → ℕ
stub_pad text_bytes = align_up text_bytes 4 - text_bytes

abbrev pub sect_size : (text_bytes n_imp : ℕ) → ℕ
sect_size text_bytes n_imp = u32 (text_bytes + stub_pad text_bytes + n_imp * 12)

unfoldable pub name_bytes : List Str → ℕ
name_bytes [] = 0
name_bytes (name ∷ names) = u32 (length name + 2 + name_bytes names)

abbrev pub is_dyn : (link_c : Bool) → BinImage → Bool
is_dyn link_c image = link_c && ltb 0 (length image.imports)

module _ (h : MachH) where
  abbrev pub cmd_max : ℕ
  cmd_max = h.size_header + 0x400

  abbrev pub body_max : (text_bytes : ℕ) → List Str → ℕ
  body_max text_bytes names =
      cmd_max
      + sect_size text_bytes (length names)
      + 2 * file_page
      + (0x100 + 4 * length names + u32 (1 + name_bytes names))

  abbrev pub img_cap : (text_bytes : ℕ) → List Str → ℕ
  img_cap text_bytes names =
      let body = body_max text_bytes names in
      body + 16 + (64 + cd_hdr_sz + ident_len + (body / cs_page + 2) * h.sha256_digest_length)

  unfoldable pub build_fixups : (dyn : Bool) → List Str → (text_fp : ℕ) → Fixups
  build_fixups dyn names text_fp =
      if dyn then build_chained_imports h 4 2 names text_fp else no_fixups h 3

  abbrev pub n_slots : ℕ → ℕ
  n_slots code_limit = u32 (code_limit + cs_page + (2 ^ 32 - 1)) / cs_page

  -- The digests of the pages from `i` on.
  unfoldable pub hash_pages : (sha256 : ℕ → ℕ → List ℕ) → (code_limit i n : ℕ) → List (List ℕ)
  hash_pages sha256 code_limit i zero = []
  hash_pages sha256 code_limit i (suc n) =
      let start = i * cs_page in
      let len = if ltb cs_page (code_limit - start) then cs_page else code_limit - start in
      sha256 start len ∷ hash_pages sha256 code_limit (i + 1) n

  module _ (sha256 : Unsigned → ℕ → ℕ → List ℕ) (link_c : Bool) (image : BinImage) where
    unfoldable pub fill_macho : MachFile
    unfolding build_commands build_header build_fixups hash_pages
    fill_macho =
        let text_bytes = u32 (length image.text) in
        let n_imp = length image.imports in
        let size = sect_size text_bytes n_imp in
        let code_off = code_offset h (is_dyn link_c image) n_imp size in
        let text_fp = align_up (u32 (code_off + size)) file_page in
        let data_vm = text_vm + text_fp in
        let le_fileoff = if is_dyn link_c image then u32 (text_fp + file_page) else text_fp in
        let fixups = build_fixups (is_dyn link_c image) image.imports text_fp in
        let sig_off = align_up (u32 (le_fileoff + fixups.size)) 16 in
        let slots = n_slots sig_off in
        let sb_len = u32 (20 + (cd_hdr_sz + ident_len) + u32 (slots * h.sha256_digest_length)) in
        let stub_off = u32 (code_off + text_bytes + stub_pad text_bytes) in
        let commands = build_commands h (is_dyn link_c image) n_imp size (record {
          text_fp = text_fp;
          code_off = code_off;
          entryoff = u32 (code_off + image.entry);
          data_vm = data_vm;
          le_fileoff = le_fileoff;
          le_filesize = u32 (sig_off + sb_len) - le_fileoff;
          cf_size = fixups.size;
          sig_off = sig_off;
          sb_len = sb_len;
        }) in
        let body : Unsigned = record {
          header = build_header h commands;
          commands = commands.items;
          code_off = code_off;
          text =
              patch_calls patched_bl (text_vm + code_off) (λ (i : ℕ). text_vm + stub_off + i * 12)
                image.extcalls image.text;
          stub_off = stub_off;
          stubs = build_stubs data_vm (text_vm + stub_off) n_imp;
          text_fp = text_fp;
          got = if is_dyn link_c image then build_got n_imp 0 n_imp else [];
          cf_off = le_fileoff;
          fixups = fixups;
        } in
        record {
          body = body;
          sig_off = sig_off;
          signature =
              write_signature h sig_off text_fp slots (hash_pages (sha256 body) sig_off 0 slots);
          size = u32 (sig_off + sb_len);
        }

    -- `none` is a report.
    unfoldable pub write_macho : (memory : ℕ → Bool) → Option MachFile
    unfolding build_commands fill_macho name_bytes
    write_macho memory =
        let text_bytes = u32 (length image.text) in
        let n_imp = length image.imports in
        if not (memory (img_cap text_bytes image.imports))
        then none
        else if ltb cmd_max (code_offset h (is_dyn link_c image) n_imp (sect_size text_bytes n_imp))
        then none
        else if not (memory (n_slots fill_macho.sig_off * h.sha256_digest_length))
        then none
        else some fill_macho
