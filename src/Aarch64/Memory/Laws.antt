-- ===== src/Aarch64/Memory/Laws.antt =====
-- What a load or store of `mem_op` says to the machine.
use allang.Base.{
  ℕ, ◌/◌, ◌%◌, ◌^◌, ◌<◌, ◌≤◌, ◌≡◌, ◌⊎◌, Bool, true, false, ltb, ◌==◌, ◌&&◌, ℤ, pos, negsuc, Option,
  some, none, if◌then◌else◌,
}
use allang.Aarch64.Machine.{field, AccessKind, store_kind, load_kind, load_signed_kind, access_kind}
use allang.Typesys.Dtype.{base_sign}
use allang.Typesys.Reg.{Reg}

-- What the access is to be: a load of a signed value that is shorter than 8 bytes keeps its sign.
unfoldable pub kind_of : Bool → Reg → ℕ → AccessKind
kind_of false value sz = store_kind
kind_of true value sz =
    if base_sign value.dtype.base && ltb sz 3 then load_signed_kind else load_kind

-- What bits 22 and 23 say of an access of a size.
unfoldable opc_kind : ℕ → ℕ → Option AccessKind
opc_kind k sz =
    if k == 0
    then some store_kind
    else if k == 1
    then some load_kind
    else if (k == 2) && ltb sz 3
    then some load_signed_kind
    else none

module _ (sz k rn rt : ℕ) (hsz : sz < 4) (hk : k < 3) (hrn : rn < 32) (hrt : rt < 32) where
  -- The fields that every form has.
  Common : ℕ → Type 0
  Common w =
      (field w 30 2 ≡ sz)
      × (access_kind w ≡ opc_kind k sz)
      × (field w 5 5 ≡ rn)
      × (field w 0 5 ≡ rt)

-- An offset that one of the forms can say.
abbrev pub InReach : ℕ → ℤ → Type 0
InReach sz (pos n) = ((n % 2 ^ sz ≡ 0) × (n / 2 ^ sz ≤ 0xfff)) ⊎ (n < 256)
InReach sz (negsuc n) = n < 256
