-- ===== src/Exe/Parts.antt =====
-- Parts of a file one behind the other: `cur = align_up(cur, a); off = cur; cur += size`.
pub mod Laws
use allang.Base.{ℕ, ◌+◌, List, [], ◌∷◌, u64}
use allang.Parser.Struct.{align_to}

pub record Part : Type 0 where
  pub align : ℕ
  pub size : ℕ

-- Where the part begins, and `cur` behind it.
abbrev pub part_off : ℕ → Part → ℕ
part_off cur p = align_to cur p.align

abbrev pub part_end : ℕ → Part → ℕ
part_end cur p = u64 (part_off cur p + p.size)

unfoldable pub place_parts : ℕ → List Part → List ℕ
place_parts cur [] = []
place_parts cur (p ∷ ps) = part_off cur p ∷ place_parts (part_end cur p) ps

unfoldable pub parts_end : ℕ → List Part → ℕ
parts_end cur [] = cur
parts_end cur (p ∷ ps) = parts_end (part_end cur p) ps
