-- ===== src/Parser/Slots.antt =====
-- `resolve_stack_store_target` of alc/main.c: the place of an object on the stack. Offsets count
-- bytes below the frame pointer.
pub mod Laws
use allang.Base.{
  ℕ, ◌+◌, ◌-◌, ◌*◌, ◌^◌, Bool, true, false, not, ◌&&◌, Option, none, some, List, [], ◌∷◌, ◌++◌,
  length, ltb, ◌==◌, if◌then◌else◌, ℤ, pos, eqb_ℤ, to_bits, to_signed, u8, u32, u64, bit_and,
}
use allang.Str.{Str}
use allang.Typesys.Dtype.{TypeT, Dtype, dtype_tryget_arr}
use allang.Typesys.Reg.{Reg}
use allang.Parser.Types.{resolve_comptime_default, retyped, next_pow2}

-- `stack_slot_t`
pub record Slot : Type 0 where
  pub name : Str
  pub type_name : Str
  pub offset : ℕ
  pub size : ℕ

-- The fields of `parser_context` for the stack; `stack_size` has the bits of an `int`.
pub record StackUse : Type 0 where
  pub stack_size : ℕ
  pub slots : List Slot

-- `target`, whose register belongs to it.
pub record Target : Type 0 where
  pub reg : Reg
  pub target_assigned : Bool
  pub name : Str

abbrev pub max_stack_slots : ℕ
max_stack_slots = 64

abbrev pub has_base : Option TypeT → Bool
has_base none = false
has_base (some t) = true

unfoldable pub slot_size : TypeT → Dtype → ℕ
slot_size t dtype =
    let size = next_pow2 (u32 t.size) in
    let count = dtype_tryget_arr dtype in
    if eqb_ℤ count (pos 0) then size else u64 (size * to_bits 64 count)

-- The bytes in ctx with an object more; one of more than 8 bytes is aligned.
unfoldable pub stack_after : ℕ → ℕ → ℕ
stack_after stack size =
    let sum = u32 (stack + size) in if ltb 8 size then bit_and (u32 (sum + 7)) (2 ^ 32 - 8) else sum

-- A slot is noted while there is room for it.
unfoldable pub take_slot : StackUse → Str → Str → ℕ → StackUse
take_slot ctx name type_name size =
    let stack = stack_after ctx.stack_size size in
    let slot : Slot = record {
      name = name;
      type_name = type_name;
      offset = to_bits 64 (to_signed 32 stack);
      size = size;
    } in
    record {
      stack_size = stack;
      slots = if ltb (length ctx.slots) max_stack_slots then ctx.slots ++ slot ∷ [] else ctx.slots;
    }

-- The offset of the target, for a value of the type. `none` where an `assert` fails.
unfoldable pub place_target : StackUse → Target → Option TypeT → Dtype → Option (StackUse × ℤ)
place_target ctx target base dtype =
    if target.target_assigned then some (ctx, target.reg.offset) else elim base [
      | none ↦ none
      | some t ↦
          let taken = take_slot ctx target.name t.name (slot_size t dtype) in
          if t.size == 0 then none else some (taken, to_signed 32 taken.stack_size)
    ]

-- What a store leaves: the stack, the target, the source and the offset.
pub record Stored : Type 0 where
  pub stack : StackUse
  pub target : Target
  pub src : Reg
  pub out_offset : ℤ

-- The target's register takes the size of the source, and its type where it has none.
abbrev pub target_after : Target → Reg → ℤ → Target
target_after target src offset = record target {
  reg = record (target.reg) {
    rsize = src.rsize;
    dtype = if has_base target.reg.dtype.base then target.reg.dtype else src.dtype;
    offset = offset;
  };
  target_assigned = true;
}

module _ (type_comptime_int type_i32 : TypeT) where
  -- A value without a type is an `i32`.
  unfoldable pub resolve_src : Reg → Reg
  resolve_src src =
      let resolved = resolve_comptime_default type_comptime_int type_i32 src in
      if not resolved.1 && not (has_base resolved.0.dtype.base)
      then retyped resolved.0 (some type_i32) (u8 type_i32.size)
      else resolved.0

  unfoldable pub resolve_stack_store_target : StackUse → Target → Reg → Option Stored
  resolve_stack_store_target ctx target src =
      let r = resolve_src src in
      elim (place_target ctx target r.dtype.base r.dtype) [
        | none ↦ none
        | some placed ↦
            if r.rsize == 0
            then none
            else some (record {
              stack = placed.0;
              target = target_after target r placed.1;
              src = r;
              out_offset = placed.1;
            })
      ]
