-- ===== src/Exe/Calls.antt =====
-- The patches of the calls of imports, which the writers of all formats make. A machine says what
-- it makes of the four bytes at a site, by the addresses of the site and of what is called.
pub mod Laws
use allang.Base.{ℕ, ◌+◌, List, [], ◌∷◌}
use allang.Exe.Image.{Extcall}
use allang.X86.Asm.{store}
use allang.X86.Asm.Store.{read32}
use allang.X86.Encode.{put32}

unfoldable pub patch_call :
    (patched_word : ℕ → ℕ → ℕ → ℕ) → List ℕ → (site site_vaddr target_vaddr : ℕ) → List ℕ
patch_call patched_word code site site_vaddr target_vaddr =
    store code site (put32 (patched_word (read32 code site) site_vaddr target_vaddr))

-- The calls in their order; `entry` is the address that stands for an import.
unfoldable pub patch_calls :
    (patched_word : ℕ → ℕ → ℕ → ℕ)
    → (text_vaddr : ℕ) → (entry : ℕ → ℕ) → List Extcall
    → List ℕ
    → List ℕ
unfolding patch_call
patch_calls patched_word text_vaddr entry [] text = text
patch_calls patched_word text_vaddr entry (e ∷ es) text =
    patch_calls patched_word text_vaddr entry es
      (patch_call patched_word text e.site (text_vaddr + e.site) (entry e.imp))
