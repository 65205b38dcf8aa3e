-- ===== src/Parser/Struct/Laws.antt =====
-- The members of a struct lie in it one behind the other.
use mathlib.Core.List.{append_assoc, append-nil}
use allang.Base.{
  ℕ, ◌+◌, ◌%◌, ◌^◌, ◌<◌, ◌≤◌, ◌≡◌, ◌∙◌, refl, ap, sym, arith, Bool, true, false, ◌&&◌, ltb,
  if◌then◌else◌, ◌||◌, ◌==◌, inl, inr, Bool-cases, Option, none, some, List, [], ◌∷◌, ◌++◌, map,
  u64,
}
use allang.Typesys.Agg.{Member}
use allang.Typesys.Dtype.{TypeT, Dtype}
use allang.Parser.Struct.{Layout, no_layout, align_to, place_member, place_members, struct_layout}
use allang.Parser.Struct.Align.{is_align, Rounded, align_to_lem, by_align}

abbrev pub base_size : Option TypeT → ℕ
base_size none = 0
base_size (some t) = t.size

-- 0 where the type is NULL.
abbrev pub base_align : Option TypeT → ℕ
base_align none = 0
base_align (some t) = t.align

-- Types that are known, and aligned as fundamental types are.
unfoldable pub all_aligned : List Dtype → Bool
all_aligned [] = true
all_aligned (d ∷ ds) = is_align (base_align d.base) && all_aligned ds

-- Bytes that are enough for the members.
unfoldable pub room : List Dtype → ℕ
room [] = 0
room (d ∷ ds) = base_align d.base + base_size d.base + room ds

-- Members one behind the other between two places, each at a multiple of its alignment, which is
-- at most that of the struct.
unfoldable pub Packed : ℕ → List Member → ℕ → ℕ → Type 0
Packed low [] align high = low ≤ high
Packed low (m ∷ ms) align high =
    (low ≤ m.offset)
    × (m.offset % base_align m.dtype.base ≡ 0)
    × (base_align m.dtype.base ≤ align)
    × Packed (m.offset + base_size m.dtype.base) ms align high

-- What a member makes of the layout.
abbrev Grown : Layout → Dtype → Option TypeT → Layout → Type 0
Grown l d base m =
    (offset : ℕ) × Rounded l.size (base_align base) offset
    × (m.size ≡ offset + base_size base)
    × (m.members ≡ l.members ++ (record { dtype = d; offset = offset }) ∷ [])
    × (l.align ≤ m.align)
    × (base_align base ≤ m.align)
    × (is_align m.align ≡ true)

-- The layout may have no members yet.
abbrev Started : Layout → Type 0
Started l = (l.align == 0) || is_align l.align ≡ true

align-le : (a : ℕ) → is_align a ≡ true → (1 ≤ a) × (a ≤ 16)
align-le =
    by_align (λ a. (1 ≤ a) × (a ≤ 16)) (omega arith, omega arith) (omega arith, omega arith)
      (omega arith, omega arith) (omega arith, omega arith) (omega arith, omega arith)

larger :
    (was a : ℕ)
    → is_align a ≡ true
    → (was == 0) || is_align was ≡ true
    → let now = if ltb was a then a else was in (was ≤ now) × (a ≤ now) × (is_align now ≡ true)
larger was a h started = elim (Bool-cases (ltb was a)) [
  | inl e ↦ rw e (ground (arith, e), omega arith, h)
  | inr e ↦
      let (least, most) = align-le a h in
      let busy : (was == 0) ≡ false = ground (arith, e, least) in
      rw e (omega arith, ground (arith, e), rw busy at started)
]

place_member_lem :
    (l : Layout) (d : Dtype) (base : Option TypeT)
    → is_align (base_align base) ≡ true
    → Started l
    → l.size + base_align base + base_size base < 2 ^ 63
    → (m : Layout) × (place_member l d base ≡ some m) × Grown l d base m
unfolding place_member
place_member_lem l d none h started fits = absurd (omega (arith, (align-le 0 h).0))
place_member_lem l d (some t) h started fits =
    let rounded = align_to_lem l.size t.align h (omega (arith, fits)) in
    let (multiple, above, below) = rounded in
    let offset = align_to l.size t.align in
    let whole : u64 (offset + t.size) ≡ offset + t.size = omega (arith, below, fits) in
    let (kept, held, good) = larger l.align t.align h started in
    (
      record {
        size = u64 (offset + t.size);
        align = if ltb l.align t.align then t.align else l.align;
        members = l.members ++ (record { dtype = d; offset = offset }) ∷ [];
      },
      refl,
      (offset, rounded, whole, refl, kept, held, good),
    )

-- What members make of the layout.
Extended : Layout → List Dtype → Layout → Type 0
Extended l ds m =
    (added : List Member) × (m.members ≡ l.members ++ added)
    × (map (λ (a : Member). a.dtype) added ≡ ds)
    × Packed l.size added m.align m.size
    × (l.align ≤ m.align)
    × (m.size ≤ l.size + room ds)
    × Started m

extend :
    (l m k : Layout) (d : Dtype) (ds : List Dtype)
    → Grown l d d.base m
    → Extended m ds k
    → Extended l (d ∷ ds) k
unfolding Extended Packed room
extend l m k d ds (offset, (multiple, above, below), size, members, kept, held, good)
      (added, all, types, packed, more, least, started) =
    (
      (record { dtype = d; offset = offset }) ∷ added,
      all
          ∙ (ap (λ ms. ms ++ added) members
              ∙ append_assoc l.members ((record { dtype = d; offset = offset }) ∷ []) added),
      ap (λ ts. d ∷ ts) types,
      (above, multiple, omega (arith, held, more), rw size at packed),
      omega (arith, kept, more),
      omega (arith, least, size, below),
      started,
    )

place_members_lem :
    (ds : List Dtype) (l : Layout)
    → all_aligned ds ≡ true
    → Started l
    → l.size + room ds < 2 ^ 63
    → (m : Layout) × (place_members ds l ≡ some m) × Extended l ds m
unfolding place_members all_aligned Extended Packed room
place_members_lem [] l h started fits = (
  l,
  refl,
  ([], sym (append-nil l.members), refl, omega arith, omega arith, omega arith, started),
)
place_members_lem (d ∷ ds) l h started fits =
    let this : is_align (base_align d.base) ≡ true = ground (arith, h) in
    let others : all_aligned ds ≡ true = ground (arith, h) in
    let (m, placed, grown) = place_member_lem l d d.base this started (omega (arith, fits)) in
    let (offset, (multiple, above, below), size, members, kept, held, good) = grown in
    let begun : Started m = ground (arith, good) in
    let (k, run, extended) =
      place_members_lem ds m others begun (omega (arith, fits, size, below)) in
    rw (placed, run, place_members) (k, refl, extend l m k d ds grown extended)

Packed-to :
    (low high end align : ℕ) (ms : List Member)
    → high ≤ end
    → Packed low ms align high
    → Packed low ms align end
unfolding Packed
Packed-to low high end align [] h p = omega (arith, h, p)
Packed-to low high end align (m ∷ ms) h (a, b, c, rest) =
    (a, b, c, Packed-to (m.offset + base_size m.dtype.base) high end align ms h rest)

not_zero : (a b : ℕ) → 1 ≤ a → a ≤ b → (b == 0) ≡ false
not_zero a b h on = ground arith

-- All the members, one at least, with the alignment that they need.
placed_all :
    (d : Dtype) (ds : List Dtype)
    → all_aligned (d ∷ ds) ≡ true
    → room (d ∷ ds) < 2 ^ 63
    → (l : Layout) × (place_members (d ∷ ds) no_layout ≡ some l)
      × Extended no_layout (d ∷ ds) l
      × (is_align l.align ≡ true)
unfolding Extended place_members all_aligned room
placed_all d ds h fits =
    let this : is_align (base_align d.base) ≡ true = ground (arith, h) in
    let others : all_aligned ds ≡ true = ground (arith, h) in
    let (m, placed, grown) = place_member_lem no_layout d d.base this refl (omega (arith, fits)) in
    let (offset, (multiple, above, below), size, members, kept, held, good) = grown in
    let begun : Started m = ground (arith, good) in
    let (l, run, extended) =
      place_members_lem ds m others begun (omega (arith, fits, size, below)) in
    let (added, all, types, packed, more, least, started) = extended in
    let busy : (l.align == 0) ≡ false = not_zero m.align l.align (align-le m.align good).0 more in
    rw (placed, run, place_members)
      (l, refl, extend no_layout m l d ds grown extended, rw busy at started)

-- A struct of members whose types are known and aligned to at most 16 bytes, and whose sizes are
-- far from the end of the address space, gets a layout: the members are those of the source in
-- their order, each lies behind the one before, counted by the sizes of their base types, at a
-- multiple of its alignment and inside the struct; the alignment of the struct is at least that of
-- each member, and its size is a multiple of it.
pub struct_layout_lem :
    (d : Dtype) (ds : List Dtype)
    → all_aligned (d ∷ ds) ≡ true
    → room (d ∷ ds) < 2 ^ 63
    → (l : Layout) × (struct_layout (d ∷ ds) ≡ some l)
      × (map (λ (m : Member). m.dtype) l.members ≡ d ∷ ds)
      × Packed 0 l.members l.align l.size
      × (is_align l.align ≡ true)
      × (l.size % l.align ≡ 0)
unfolding struct_layout Extended
struct_layout_lem d ds h fits =
    let (l, run, extended, good) = placed_all d ds h fits in
    let (added, all, types, packed, more, least, started) = extended in
    let (multiple, above, below) = align_to_lem l.size l.align good (omega (arith, least, fits)) in
    rw (run, struct_layout)
      (
        record l { size = align_to l.size l.align },
        refl,
        ap (λ ms. map (λ (m : Member). m.dtype) ms) all ∙ types,
        Packed-to 0 l.size (align_to l.size l.align) l.align l.members above
            (rw (sym all) at packed),
        good,
        multiple,
      )
