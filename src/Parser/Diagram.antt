-- ===== src/Parser/Diagram.antt =====
-- `stack_diagram` of alc/diagnostics.c, up to the drawing: the boxes of the objects on the stack and
-- of what lies between them, by their addresses from the frame pointer.
pub mod Laws
use allang.Base.{
  ℕ, ◌+◌, Bool, true, false, List, [], ◌∷◌, ◌++◌, map, length, ltb, if◌then◌else◌, ℤ, pos, neg_ℤ,
  ◌+ℤ◌, ltb_ℤ, to_signed,
}
use allang.Str.{Str}
use allang.Parser.Slots.{Slot, max_stack_slots}

-- `mem_box`
pub record MemBox : Type 0 where
  pub name : Str
  pub type_name : Str
  pub lo : ℤ
  pub hi : ℤ
  pub pad : Bool

abbrev pub slot_box : Slot → MemBox
slot_box s = record {
  name = s.name;
  type_name = s.type_name;
  lo = neg_ℤ (to_signed 64 s.offset);
  hi = neg_ℤ (to_signed 64 s.offset) +ℤ to_signed 64 s.size;
  pad = false;
}

abbrev pub gap_box : ℤ → ℤ → MemBox
gap_box lo hi = record { name = []; type_name = []; lo = lo; hi = hi; pad = true }

-- The step of the sort, on what is sorted from the last box on: the boxes that lie behind the key
-- move up.
unfoldable pub place_key : MemBox → List MemBox → List MemBox
place_key key [] = key ∷ []
place_key key (box ∷ boxes) =
    let rest = place_key key boxes in if ltb_ℤ key.lo box.lo then box ∷ rest else key ∷ box ∷ boxes

unfoldable pub sort_keys : List MemBox → List MemBox → List MemBox
unfolding place_key
sort_keys sorted [] = sorted
sort_keys sorted (key ∷ keys) = sort_keys (place_key key sorted) keys

unfoldable pub turn_onto : List MemBox → List MemBox → List MemBox
turn_onto [] boxes = boxes
turn_onto (box ∷ others) boxes = turn_onto others (box ∷ boxes)

-- The boxes from the first address on.
unfoldable pub sort_boxes : List MemBox → List MemBox
unfolding sort_keys turn_onto
sort_boxes raw = turn_onto (sort_keys [] raw) []

-- `boxes[n++]`, while there is room.
unfoldable pub push_box : List MemBox → MemBox → List MemBox
push_box boxes box = if ltb (length boxes) max_stack_slots then boxes ++ box ∷ [] else boxes

unfoldable pub push_gap : List MemBox → ℤ → ℤ → List MemBox
unfolding push_box
push_gap boxes prev_end lo =
    if ltb_ℤ prev_end lo then push_box boxes (gap_box prev_end lo) else boxes

-- The boxes with the gaps before them, and a last gap before the frame pointer.
unfoldable pub put_boxes : List MemBox → ℤ → List MemBox → List MemBox
unfolding push_box push_gap
put_boxes boxes prev_end [] = push_gap boxes prev_end (pos 0)
put_boxes boxes prev_end (box ∷ others) =
    put_boxes (push_box (push_gap boxes prev_end box.lo) box) box.hi others

abbrev pub first_lo : List MemBox → ℤ
first_lo [] = pos 0
first_lo (box ∷ boxes) = box.lo

unfoldable pub stack_diagram : List Slot → List MemBox
unfolding sort_boxes put_boxes
stack_diagram [] = []
stack_diagram (slot ∷ slots) =
    let raw = sort_boxes (map slot_box (slot ∷ slots)) in put_boxes [] (first_lo raw) raw
