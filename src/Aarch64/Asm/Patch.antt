-- ===== src/Aarch64/Asm/Patch.antt =====
-- Labels and fixups, and the patches of `bin_emit`.
use allang.Base.{
  ℕ, ◌+◌, ◌*◌, Bool, Option, none, some, List, [], ◌∷◌, ◌++◌, leb, ◌==◌, if◌then◌else◌, get_or, set,
  length, sub_ℕ, to_bits, bit_and, ◌>>>◌,
}
use allang.Aarch64.Words.{◌|||◌, shl}
use allang.Str.{Str, str_eq}

pub record Label : Type 0 where
  pub key : Str
  pub word : ℕ
  pub done : Bool

pub data FixupKind : Type 0 where
  fx_branch fx_cond fx_call fx_str : FixupKind

pub record Fixup : Type 0 where
  pub key : Str
  pub site : ℕ
  pub aux : ℕ
  pub kind : FixupKind
  pub done : Bool

unfoldable pub find_word : List Label → Str → Option ℕ
find_word [] key = none
find_word (l ∷ tab) key = if str_eq l.key key then some l.word else find_word tab key

abbrev pub imports_cap : ℕ
imports_cap = 64

-- What the loop of `bin_emit` writes; an external call is a site in bytes and an import.
pub record Image : Type 0 where
  pub code : List ℕ
  pub imports : List Str
  pub extcalls : List (ℕ × ℕ)
  pub reports : ℕ

-- `(uint32_t)((int32_t)target - (int32_t)site)`
abbrev pub rel_bits : ℕ → ℕ → ℕ
rel_bits target site = to_bits 32 (sub_ℕ target site)

abbrev pub or_into : List ℕ → ℕ → ℕ → List ℕ
or_into code site bits = set code site (get_or code site 0 ||| bits)

unfoldable pub branch_bits : FixupKind → ℕ → ℕ
branch_bits fx_cond rel = shl (bit_and rel 0x7ffff) 5
branch_bits fx_branch rel = bit_and rel 0x3ffffff
branch_bits fx_call rel = bit_and rel 0x3ffffff
branch_bits fx_str rel = shl (bit_and rel 3) 29 ||| shl (bit_and (rel >>> 2) 0x7ffff) 5

unfoldable pub patch_rel : Image → Fixup → ℕ → Image
unfolding branch_bits
patch_rel im fx target = record im {
  code = or_into im.code fx.site (branch_bits fx.kind (rel_bits target fx.site));
}

-- The address of a string, from the bytes of code before the strings.
unfoldable pub patch_str : Image → Fixup → ℕ → Image
unfolding branch_bits
patch_str im fx code_bytes = record im {
  code =
      or_into im.code fx.site (branch_bits fx_str (rel_bits (code_bytes + fx.aux) (fx.site * 4)));
}

-- The index of a name among the imports, or their number.
unfoldable pub import_index : List Str → Str → ℕ
import_index [] key = 0
import_index (name ∷ names) key = if str_eq name key then 0 else import_index names key + 1

unfoldable pub call_import : Image → Fixup → Image
unfolding import_index
call_import im fx =
    let imp = import_index im.imports fx.key in
    let noted = record im { extcalls = im.extcalls ++ (fx.site * 4, imp) ∷ [] } in
    if imp == length im.imports
    then (if leb imports_cap (length im.imports)
        then record im { reports = im.reports + 1 }
        else record noted { imports = im.imports ++ fx.key ∷ [] })
    else noted

-- Patch at a target that was found, or do without it.
abbrev at_target : Option ℕ → Image → Fixup → Image → Image
at_target none im fx missing = missing
at_target (some target) im fx missing = patch_rel im fx target

unfoldable pub patch_fixup : List Label → List Label → ℕ → Image → Fixup → Image
unfolding find_word patch_rel patch_str call_import
patch_fixup labels fn_syms code_bytes im fx = elim fx.kind [
  | fx_str ↦ patch_str im fx code_bytes
  | fx_call ↦ at_target (find_word fn_syms fx.key) im fx (call_import im fx)
  | fx_branch ↦ at_target (find_word labels fx.key) im fx (record im { reports = im.reports + 1 })
  | fx_cond ↦ at_target (find_word labels fx.key) im fx (record im { reports = im.reports + 1 })
]

unfoldable pub patch_all : List Label → List Label → ℕ → Image → List Fixup → Image
unfolding patch_fixup
patch_all labels fn_syms code_bytes im [] = im
patch_all labels fn_syms code_bytes im (fx ∷ fxs) =
    patch_all labels fn_syms code_bytes (patch_fixup labels fn_syms code_bytes im fx) fxs
