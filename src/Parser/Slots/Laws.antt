-- ===== src/Parser/Slots/Laws.antt =====
-- The objects on the stack lie one below the other.
use allang.Base.{
  ℕ, zero, suc, ◌+◌, ◌*◌, ◌≤◌, ◌≡◌, Bool, true, false, ◌==◌, if◌then◌else◌, negsuc, eqb_ℤ, u64,
  get_or, List, [], ◌∷◌, ℤ, pos, to_bits,
}
use allang.Str.{Str}
use allang.Typesys.Dtype.{Dtype, DtypeKind, addr, slice, check, array, dk_none, zero_declarator}
use allang.Typesys.Reg.{Reg}
use allang.Parser.Slots.{Slot, StackUse}

-- Slots one below the other from a place on, up to the bytes in use.
unfoldable pub Stacked : ℕ → List Slot → ℕ → Type 0
Stacked low [] stack = low ≤ stack
Stacked low (slot ∷ slots) stack = (low + slot.size ≤ slot.offset) × Stacked slot.offset slots stack

-- Where a target is: where it was, or below all the bytes in use.
unfoldable pub PlacedAt : Bool → StackUse → ℤ → ℕ → StackUse → ℤ → Type 0
PlacedAt true was at size now offset = (now ≡ was) × (offset ≡ at)
PlacedAt false was at size now offset =
    (was.stack_size + size ≤ now.stack_size) × (offset ≡ pos now.stack_size)

-- How many values an object of a dtype holds: its length, where its outermost declarator is an array
-- of one.
unfoldable count_of : DtypeKind → ℤ → ℕ
count_of array (pos zero) = 1
count_of array (pos (suc n)) = suc n
count_of array (negsuc n) = 0
count_of addr n = 1
count_of slice n = 1
count_of check n = 1
count_of dk_none n = 1

unfoldable pub elements : Dtype → ℕ
unfolding count_of
elements dtype =
    let outer = get_or dtype.decl 0 zero_declarator in
    if dtype.decl_len == 0 then 1 else count_of outer.tag outer.amount

abbrev size_with : ℕ → ℤ → ℕ
size_with size count = if eqb_ℤ count (pos 0) then size else u64 (size * to_bits 64 count)
