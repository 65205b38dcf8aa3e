-- ===== src/Exe/Parts/Laws.antt =====
-- Parts that are placed do not overlap.
use allang.Base.{
  ℕ, ◌+◌, ◌%◌, ◌^◌, ◌≤◌, ◌≡◌, arith, Bool, true, ◌&&◌, ◌||◌, ◌==◌, inl, inr, Bool-cases, List, [],
  ◌∷◌,
}
use allang.Parser.Struct.{align_to}
use allang.Parser.Struct.Align.{is_align, Rounded, align_to_lem, to_page}
use allang.Exe.Parts.{Part, part_off, part_end, place_parts, parts_end}

-- The alignments of the parts of a file: that of an object, or a page.
abbrev pub is_part_align : ℕ → Bool
is_part_align a = is_align a || (a == 4096)

unfoldable pub all_part_aligned : List Part → Bool
all_part_aligned [] = true
all_part_aligned (p ∷ ps) = is_part_align p.align && all_part_aligned ps

-- Bytes that are enough for the parts.
unfoldable pub parts_room : List Part → ℕ
parts_room [] = 0
parts_room (p ∷ ps) = p.align + p.size + parts_room ps

-- Parts at offsets between two places, each aligned and behind the one before.
unfoldable pub Placed : ℕ → List Part → List ℕ → ℕ → Type 0
Placed low [] [] high = low ≤ high
Placed low [] (o ∷ os) high = ⊥
Placed low (p ∷ ps) [] high = ⊥
Placed low (p ∷ ps) (o ∷ os) high = (low ≤ o) × (o % p.align ≡ 0) × Placed (o + p.size) ps os high

rounded : (n a : ℕ) → is_part_align a ≡ true → n + 4096 ≤ 2 ^ 64 → Rounded n a (align_to n a)
rounded n a h room = elim (Bool-cases (is_align a)) [
  | inl e ↦ align_to_lem n a e (omega (arith, room))
  | inr e ↦ let page : a ≡ 4096 = ground (arith, h, e) in rw page (to_page n room)
]

pub place_parts-Placed :
    (cur : ℕ) (ps : List Part)
    → all_part_aligned ps ≡ true
    → cur + parts_room ps + 4096 ≤ 2 ^ 64
    → Placed cur ps (place_parts cur ps) (parts_end cur ps)
      × (parts_end cur ps ≤ cur + parts_room ps)
unfolding place_parts parts_end all_part_aligned parts_room Placed
place_parts-Placed cur [] h room = (omega arith, omega arith)
place_parts-Placed cur (p ∷ ps) h room =
    let this : is_part_align p.align ≡ true = ground (arith, h) in
    let others : all_part_aligned ps ≡ true = ground (arith, h) in
    let (multiple, above, below) = rounded cur p.align this (omega (arith, room)) in
    let whole : part_end cur p ≡ part_off cur p + p.size = omega (arith, below, room) in
    let rest =
      place_parts-Placed (part_off cur p + p.size) ps others (omega (arith, below, room)) in
    rw whole ((above, multiple, rest.0), omega (arith, rest.1, below))
