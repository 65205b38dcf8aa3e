-- ===== src/Parser/Diagram/Laws.antt =====
-- The boxes of a stack diagram cover the stack.
use allang.Base.{
  ℕ, ◌+◌, ◌-◌, ◌+ℤ◌, ◌*◌, ◌^◌, ◌<◌, ◌≤◌, ◌≡◌, ◌∙◌, refl, ap, sym, arith, if◌then◌else◌, Bool, true,
  false, not, ◌&&◌, ltb, inl, inr, Bool-cases, List, [], ◌∷◌, ◌++◌, map, length, length-append, ℤ,
  pos, neg_ℤ, ◌≤ℤ◌, ltb_ℤ, to_signed,
}
use mathlib.Core.List.{append_assoc, append-nil}
use allang.Parser.Slots.{Slot, max_stack_slots}
use allang.Parser.Slots.Laws.{Stacked}
use allang.Parser.Diagram.{
  MemBox, first_lo, slot_box, gap_box, place_key, sort_keys, turn_onto, sort_boxes, push_box,
  push_gap, put_boxes, stack_diagram,
}

-- Boxes behind one another from `p` on, that end before `e`, with or without gaps.
unfoldable Apart : ℤ → List MemBox → ℤ → Type 0
Apart p [] e = p ≤ℤ e
Apart p (box ∷ boxes) e = (p ≤ℤ box.lo) × (box.lo ≤ℤ box.hi) × Apart box.hi boxes e

-- Boxes without a gap or an overlap from `p` to `e`.
unfoldable pub Tiled : ℤ → List MemBox → ℤ → Type 0
Tiled p [] e = p ≡ e
Tiled p (box ∷ boxes) e = (box.lo ≡ p) × (box.lo ≤ℤ box.hi) × Tiled box.hi boxes e

-- The boxes that are no gaps.
unfoldable pub drawn : List MemBox → List MemBox
drawn [] = []
drawn (box ∷ boxes) = if box.pad then drawn boxes else box ∷ drawn boxes

drawn_one : (box : MemBox) → box.pad ≡ false → drawn (box ∷ []) ≡ box ∷ []
unfolding drawn
drawn_one box e = rw e refl

abbrev all_drawn : List MemBox → Bool
all_drawn [] = true
all_drawn (box ∷ boxes) = not box.pad && all_drawn boxes

same_ℤ : (a b : ℤ) → a ≤ℤ b → ltb_ℤ a b ≡ false → a ≡ b
same_ℤ a b le eq = ground (arith, le, eq)

less_ℤ : (a b : ℤ) → ltb_ℤ a b ≡ true → a ≤ℤ b
less_ℤ a b h = ground (arith, h)

Tiled-put :
    (p q : ℤ) (boxes : List MemBox) (box : MemBox)
    → Tiled p boxes q
    → box.lo ≡ q
    → box.lo ≤ℤ box.hi
    → Tiled p (boxes ++ box ∷ []) box.hi
unfolding Tiled
Tiled-put p q [] box t e le = (e ∙ sym t, le, refl)
Tiled-put p q (b ∷ boxes) box (a, l, t) e le = (a, l, Tiled-put b.hi q boxes box t e le)

drawn-append : (xs ys : List MemBox) → drawn (xs ++ ys) ≡ drawn xs ++ drawn ys
unfolding drawn
drawn-append [] ys = refl
drawn-append (x ∷ xs) ys = elim (Bool-cases x.pad) [
  | inl e ↦ simp e (drawn-append xs ys)
  | inr e ↦ simp e (ap (λ bs. x ∷ bs) (drawn-append xs ys))
]

push_box-room :
    (boxes : List MemBox) (box : MemBox)
    → length boxes < max_stack_slots
    → push_box boxes box ≡ boxes ++ box ∷ []
unfolding push_box
push_box-room boxes box room =
    let low : ltb (length boxes) max_stack_slots ≡ true = ground (arith, room) in rw low refl

-- A gap goes on to where the next box begins.
push_gap-Tiled :
    (p q lo : ℤ) (boxes : List MemBox)
    → Tiled p boxes q
    → q ≤ℤ lo
    → length boxes < max_stack_slots
    → Tiled p (push_gap boxes q lo) lo
      × (drawn (push_gap boxes q lo) ≡ drawn boxes)
      × (length (push_gap boxes q lo) ≤ length boxes + 1)
unfolding push_gap drawn
push_gap-Tiled p q lo boxes t le room = elim (Bool-cases (ltb_ℤ q lo)) [
  | inl e ↦
      rw (e, push_box-room boxes (gap_box q lo) room)
        (
          Tiled-put p q boxes (gap_box q lo) t refl le,
          drawn-append boxes (gap_box q lo ∷ []) ∙ append-nil (drawn boxes),
          ground (arith, length-append boxes (gap_box q lo ∷ [])),
        )
  | inr e ↦ rw e (rw (same_ℤ q lo le e) at t, refl, omega arith)
]

-- Boxes that lie apart are all drawn, and the gaps close the rest.
put_boxes-Tiled :
    (p q : ℤ) (boxes items : List MemBox)
    → Tiled p boxes q
    → Apart q items (pos 0)
    → length boxes + 2 * length items < max_stack_slots
    → all_drawn items ≡ true
    → Tiled p (put_boxes boxes q items) (pos 0)
      × (drawn (put_boxes boxes q items) ≡ drawn boxes ++ items)
unfolding put_boxes Apart
put_boxes-Tiled p q boxes [] t le room solid =
    let (tiled, same, count) = push_gap-Tiled p q (pos 0) boxes t le (omega (arith, room)) in
    (tiled, same ∙ sym (append-nil (drawn boxes)))
put_boxes-Tiled p q boxes (box ∷ items) t (le, order, apart) room solid =
    let (tiled, same, count) = push_gap-Tiled p q box.lo boxes t le (omega (arith, room)) in
    let gapped = push_gap boxes q box.lo in
    let pushed = push_box-room gapped box (omega (arith, count, room)) in
    let (all, all_same) =
      put_boxes-Tiled p box.hi (gapped ++ box ∷ []) items
        (Tiled-put p box.lo gapped box tiled refl order) apart
        (omega (arith, count, room, length-append gapped (box ∷ []))) (ground (arith, solid)) in
    rw pushed (
      all,
      all_same
          ∙ ap (λ bs. bs ++ items) (drawn-append gapped (box ∷ []))
          ∙ rw (same, drawn_one box (ground (arith, solid)))
              (append_assoc (drawn boxes) (box ∷ []) items),
    )

-- A key before all the others moves to their front.
abbrev all_behind : ℤ → List MemBox → Bool
all_behind lo [] = true
all_behind lo (box ∷ boxes) = ltb_ℤ lo box.lo && all_behind lo boxes

place_key-behind :
    (key : MemBox) (boxes : List MemBox)
    → all_behind key.lo boxes ≡ true
    → place_key key boxes ≡ boxes ++ key ∷ []
unfolding place_key
place_key-behind key [] h = refl
place_key-behind key (box ∷ boxes) h =
    let behind : ltb_ℤ key.lo box.lo ≡ true = ground (arith, h) in
    rw behind (ap (λ bs. box ∷ bs) (place_key-behind key boxes (ground (arith, h))))

all_behind-put :
    (lo : ℤ) (boxes : List MemBox) (box : MemBox)
    → all_behind box.lo boxes ≡ true
    → ltb_ℤ lo box.lo ≡ true
    → all_behind lo (boxes ++ box ∷ []) ≡ true
all_behind-put lo [] box h low = ground (arith, low)
all_behind-put lo (b ∷ boxes) box h low =
    let rest = all_behind-put lo boxes box (ground (arith, h)) low in
    let first : ltb_ℤ box.lo b.lo ≡ true = ground (arith, h) in ground (arith, rest, first, low)

-- Slots with a size and an offset that a `long` holds.
abbrev pub all_sized : List Slot → Bool
all_sized [] = true
all_sized (s ∷ slots) = ltb 0 s.size && ltb s.offset (2 ^ 31) && all_sized slots

small : (n : ℕ) → n < 2 ^ 31 → ltb n (2 ^ 63) ≡ true
small n h = ground (arith, h)

slot_box-at :
    (low : ℕ) (s : Slot)
    → s.offset < 2 ^ 31
    → low + s.size ≤ s.offset
    → ((slot_box s).lo ≡ neg_ℤ (pos s.offset))
      × ((slot_box s).lo ≤ℤ (slot_box s).hi)
      × ((slot_box s).hi ≤ℤ neg_ℤ (pos low))
slot_box-at low s near fits =
    let offset : to_signed 64 s.offset ≡ pos s.offset = rw (small s.offset near) refl in
    let size : to_signed 64 s.size ≡ pos s.size =
      rw (small s.size (omega (arith, near, fits))) refl in
    (
      ap neg_ℤ offset,
      rw (offset, size) (ground (arith, fits)),
      rw (offset, size) (ground (arith, fits)),
    )

-- Slots one below the other are sorted by turning them round: every key goes before the others.
sort_keys-Stacked :
    (low : ℕ) (sorted : List MemBox) (slots : List Slot) (stack : ℕ)
    → Stacked low slots stack
    → all_sized slots ≡ true
    → ((v : ℕ) → low < v → all_behind (neg_ℤ (pos v)) sorted ≡ true)
    → sort_keys sorted (map slot_box slots) ≡ sorted ++ map slot_box slots
unfolding sort_keys Stacked
sort_keys-Stacked low sorted [] stack stacked sized behind = sym (append-nil sorted)
sort_keys-Stacked low sorted (s ∷ slots) stack (fits, stacked) sized behind =
    let some_bytes : 0 < s.size = ground (arith, sized) in
    let (lo, order, above) = slot_box-at low s (ground (arith, sized)) fits in
    let last : all_behind (slot_box s).lo sorted ≡ true =
      rw lo (behind s.offset (omega (arith, fits, some_bytes))) in
    let step =
      sort_keys-Stacked s.offset (sorted ++ slot_box s ∷ []) slots stack stacked
        (ground (arith, sized))
        (λ v deep.
          all_behind-put (neg_ℤ (pos v)) sorted (slot_box s) last (rw lo (ground (arith, deep)))) in
    ap (λ bs. sort_keys bs (map slot_box slots)) (place_key-behind (slot_box s) sorted last)
    ∙ step
    ∙ append_assoc sorted (slot_box s ∷ []) (map slot_box slots)

-- Where the last of the slots lies.
unfoldable pub deepest : ℕ → List Slot → ℕ
deepest low [] = low
deepest low (s ∷ slots) = deepest s.offset slots

Apart-from : (p q e : ℤ) (boxes : List MemBox) → p ≤ℤ q → Apart q boxes e → Apart p boxes e
unfolding Apart
Apart-from p q e [] le h = omega (arith, le, h)
Apart-from p q e (box ∷ boxes) le (h, order, rest) = (omega (arith, le, h), order, rest)

-- Turned round, the slots go on from the deepest without an overlap.
turn_onto-Apart :
    (low : ℕ) (slots : List Slot) (stack : ℕ) (boxes : List MemBox)
    → Stacked low slots stack
    → all_sized slots ≡ true
    → first_lo boxes ≡ neg_ℤ (pos low)
    → Apart (neg_ℤ (pos low)) boxes (pos 0)
    → all_drawn boxes ≡ true
    → let all = turn_onto (map slot_box slots) boxes in
      let start = neg_ℤ (pos (deepest low slots)) in
      (first_lo all ≡ start)
      × Apart start all (pos 0)
      × (all_drawn all ≡ true)
      × (length all ≡ length slots + length boxes)
unfolding turn_onto Stacked deepest Apart
turn_onto-Apart low [] stack boxes stacked sized first apart solid =
    (first, apart, solid, omega arith)
turn_onto-Apart low (s ∷ slots) stack boxes (fits, stacked) sized first apart solid =
    let (lo, order, above) = slot_box-at low s (ground (arith, sized)) fits in
    let (a, b, c, d) =
      turn_onto-Apart s.offset slots stack (slot_box s ∷ boxes) stacked (ground (arith, sized)) lo
        (
          rw lo (omega arith),
          order,
          Apart-from (slot_box s).hi (neg_ℤ (pos low)) (pos 0) boxes above apart,
        )
        solid in
    (a, b, c, omega (arith, d))

-- The bytes of an object, from its address up, in addresses from the frame pointer.
abbrev pub slot_region : Slot → MemBox
slot_region s = record {
  name = s.name;
  type_name = s.type_name;
  lo = neg_ℤ (pos s.offset);
  hi = neg_ℤ (pos (s.offset - s.size));
  pad = false;
}

-- The objects from the last one, which lies deepest, up to the first one.
unfoldable pub upwards : List Slot → List MemBox
upwards [] = []
upwards (s ∷ slots) = upwards slots ++ slot_region s ∷ []

slot_box-region :
    (low : ℕ) (s : Slot) → s.offset < 2 ^ 31 → low + s.size ≤ s.offset → slot_box s ≡ slot_region s
slot_box-region low s near fits =
    let offset : to_signed 64 s.offset ≡ pos s.offset = rw (small s.offset near) refl in
    let size : to_signed 64 s.size ≡ pos s.size =
      rw (small s.size (omega (arith, near, fits))) refl in
    let hi : neg_ℤ (pos s.offset) +ℤ pos s.size ≡ neg_ℤ (pos (s.offset - s.size)) =
      ground (arith, fits) in
    rw (offset, size, hi) refl

turn_onto-upwards :
    (low : ℕ) (slots : List Slot) (stack : ℕ) (boxes : List MemBox)
    → Stacked low slots stack
    → all_sized slots ≡ true
    → turn_onto (map slot_box slots) boxes ≡ upwards slots ++ boxes
unfolding turn_onto Stacked upwards
turn_onto-upwards low [] stack boxes stacked sized = refl
turn_onto-upwards low (s ∷ slots) stack boxes (fits, stacked) sized =
    turn_onto-upwards s.offset slots stack (slot_box s ∷ boxes) stacked (ground (arith, sized))
    ∙ ap (λ b. upwards slots ++ b ∷ boxes) (slot_box-region low s (ground (arith, sized)) fits)
    ∙ sym (append_assoc (upwards slots) (slot_region s ∷ []) boxes)

-- For slots that lie one below the other, with sizes and with offsets below 2^31, and with room for
-- all boxes, the boxes of the diagram go from the deepest slot to the frame pointer without a gap or
-- an overlap; those that are no padding are the bytes of the objects, with their names, from the
-- deepest up.
pub stack_diagram_lem :
    (slots : List Slot) (stack : ℕ)
    → Stacked 0 slots stack
    → all_sized slots ≡ true
    → 2 * length slots < max_stack_slots
    → Tiled (neg_ℤ (pos (deepest 0 slots))) (stack_diagram slots) (pos 0)
      × (drawn (stack_diagram slots) ≡ upwards slots)
unfolding stack_diagram sort_boxes deepest Tiled drawn turn_onto Apart upwards
stack_diagram_lem [] stack stacked sized room = (refl, refl)
stack_diagram_lem (s ∷ slots) stack stacked sized room =
    let raw = turn_onto (map slot_box (s ∷ slots)) [] in
    let sorted : sort_boxes (map slot_box (s ∷ slots)) ≡ raw =
      ap (λ bs. turn_onto bs [])
        (sort_keys-Stacked 0 [] (s ∷ slots) stack stacked sized (λ v deep. refl)) in
    let (start, apart, solid, count) =
      turn_onto-Apart 0 (s ∷ slots) stack [] stacked sized refl (omega arith) refl in
    let here = neg_ℤ (pos (deepest 0 (s ∷ slots))) in
    let (tiled, all) =
      put_boxes-Tiled here here [] raw refl apart (omega (arith, count, room)) solid in
    let same : stack_diagram (s ∷ slots) ≡ put_boxes [] here raw =
      ap (λ bs. put_boxes [] (first_lo bs) bs) sorted ∙ ap (λ p. put_boxes [] p raw) start in
    let boxes : raw ≡ upwards (s ∷ slots) =
      turn_onto-upwards 0 (s ∷ slots) stack [] stacked sized ∙ append-nil (upwards (s ∷ slots)) in
    rw same (tiled, all ∙ boxes)
