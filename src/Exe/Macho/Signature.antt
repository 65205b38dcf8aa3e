-- ===== src/Exe/Macho/Signature.antt =====
-- The code signature of alc/exe-macho.c.
use allang.Base.{ℕ, ◌+◌, ◌*◌, List, [], ◌∷◌, ◌++◌, u32}
use allang.Str.{Str}
use allang.Exe.Macho.{MachH, put_u32_be, put_u64_be}

abbrev pub cd_hdr_sz : ℕ
cd_hdr_sz = 88

abbrev pub cd_ident : Str
cd_ident = b'a' ∷ b'l' ∷ b'c' ∷ []

-- The identifier with its zero.
abbrev pub ident_len : ℕ
ident_len = 4

abbrev pub cd_hash_off : ℕ
cd_hash_off = cd_hdr_sz + ident_len

-- The digests, one behind the other.
abbrev pub put_hashes : List (List ℕ) → List ℕ
put_hashes [] = []
put_hashes (hash ∷ hashes) = hash ++ put_hashes hashes

-- `hashes` has `n_slots` digests.
unfoldable pub write_signature : MachH → (code_limit text_fp n_slots : ℕ) → List (List ℕ) → List ℕ
write_signature h code_limit text_fp n_slots hashes =
    let cd_len = u32 (cd_hash_off + n_slots * h.sha256_digest_length) in
    let sb_len = u32 (20 + cd_len) in
    put_u32_be 0xfade0cc0
    ++ put_u32_be sb_len
    ++ put_u32_be 1
    ++ put_u32_be 0
    ++ put_u32_be 20
    ++ put_u32_be 0xfade0c02
    ++ put_u32_be cd_len
    ++ put_u32_be 0x00020400
    ++ put_u32_be 0x00000002
    ++ put_u32_be cd_hash_off
    ++ put_u32_be cd_hdr_sz
    ++ put_u32_be 0
    ++ put_u32_be n_slots
    ++ put_u32_be code_limit
    ++ h.sha256_digest_length ∷ 2 ∷ 0 ∷ 12 ∷ []
    ++ put_u32_be 0
    ++ put_u32_be 0
    ++ put_u32_be 0
    ++ put_u32_be 0
    ++ put_u64_be 0
    ++ put_u64_be 0
    ++ put_u64_be text_fp
    ++ put_u64_be 1
    ++ cd_ident
    ++ 0 ∷ []
    ++ put_hashes hashes
