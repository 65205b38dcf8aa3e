-- ===== src/X86/Asm/Patch.antt =====
-- Labels and fixups, and the patches of `bin_emit`: four bytes at a site, with the distance from
-- the byte after them.
use allang.Base.{
  ℕ, ◌+◌, Bool, Option, none, some, List, [], ◌∷◌, ◌++◌, leb, ◌==◌, if◌then◌else◌, set, length,
  sub_ℕ, to_bits,
}
use allang.Str.{Str, str_eq}
use allang.X86.Encode.{put32}

pub record Label : Type 0 where
  pub key : Str
  pub at : ℕ
  pub done : Bool

pub data FixupKind : Type 0 where
  fx_jmp fx_jcc fx_call fx_str : FixupKind

pub record Fixup : Type 0 where
  pub key : Str
  pub site : ℕ
  pub aux : ℕ
  pub kind : FixupKind
  pub done : Bool

unfoldable pub find_at : List Label → Str → Option ℕ
find_at [] key = none
find_at (l ∷ tab) key = if str_eq l.key key then some l.at else find_at tab key

abbrev pub import_cap : ℕ
import_cap = 64

-- What the loop of `bin_emit` writes; an external call is a site and an import.
pub record Image : Type 0 where
  pub code : List ℕ
  pub imports : List Str
  pub extcalls : List (ℕ × ℕ)
  pub reports : ℕ

-- `memcpy` into the code.
unfoldable pub store : List ℕ → ℕ → List ℕ → List ℕ
store code site [] = code
store code site (b ∷ bs) = store (set code site b) (site + 1) bs

-- `(int32_t)target - (int32_t)(site + 4)`
unfoldable pub rel32 : ℕ → ℕ → List ℕ
rel32 target site = put32 (to_bits 32 (sub_ℕ target (site + 4)))

unfoldable pub patch_rel : Image → ℕ → ℕ → Image
unfolding store rel32
patch_rel im site target = record im { code = store im.code site (rel32 target site) }

-- The index of a name among the imports, or their number.
unfoldable pub import_index : List Str → Str → ℕ
import_index [] key = 0
import_index (name ∷ names) key = if str_eq name key then 0 else import_index names key + 1

unfoldable pub call_import : Image → Fixup → Image
unfolding import_index
call_import im fx =
    let imp = import_index im.imports fx.key in
    let noted = record im { extcalls = im.extcalls ++ (fx.site, imp) ∷ [] } in
    if imp == length im.imports
    then (if leb import_cap (length im.imports)
        then record im { reports = im.reports + 1 }
        else record noted { imports = im.imports ++ fx.key ∷ [] })
    else noted

-- Patch at a target that was found, or do without it.
unfoldable pub at_target : Option ℕ → Image → ℕ → Image → Image
unfolding patch_rel
at_target none im site missing = missing
at_target (some target) im site missing = patch_rel im site target

-- The patch of a fixup, by its kind; a string stands behind the code, of `code_len` bytes.
unfoldable pub patch_kind : List Label → List Label → ℕ → Image → Fixup → FixupKind → Image
unfolding find_at patch_rel call_import at_target
patch_kind labels fn_syms code_len im fx fx_str = patch_rel im fx.site (code_len + fx.aux)
patch_kind labels fn_syms code_len im fx fx_call =
    at_target (find_at fn_syms fx.key) im fx.site (call_import im fx)
patch_kind labels fn_syms code_len im fx fx_jmp =
    at_target (find_at labels fx.key) im fx.site (record im { reports = im.reports + 1 })
patch_kind labels fn_syms code_len im fx fx_jcc =
    at_target (find_at labels fx.key) im fx.site (record im { reports = im.reports + 1 })

unfoldable pub patch_fixup : List Label → List Label → ℕ → Image → Fixup → Image
unfolding patch_kind
patch_fixup labels fn_syms code_len im fx = patch_kind labels fn_syms code_len im fx fx.kind

unfoldable pub patch_all : List Label → List Label → ℕ → Image → List Fixup → Image
unfolding patch_fixup
patch_all labels fn_syms code_len im [] = im
patch_all labels fn_syms code_len im (fx ∷ fxs) =
    patch_all labels fn_syms code_len (patch_fixup labels fn_syms code_len im fx) fxs

-- The bytes of the image: the code with its patches, and the strings.
unfoldable pub bin_emit : List Label → List Label → List ℕ → Image → List Fixup → List ℕ × Image
unfolding patch_all
bin_emit labels fn_syms cstrs im fixups =
    let patched = patch_all labels fn_syms (length im.code) im fixups in
    (patched.code ++ cstrs, patched)
