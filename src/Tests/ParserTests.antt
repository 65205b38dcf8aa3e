-- ===== src/Tests/ParserTests.antt =====
-- Concrete runs of the tokenizer and of the type helpers of alc/main.c, as witnesses of the
-- theorems about them.
use allang.Base.{
  List, neg_ℤ, Option, none, some, map, ◌%◌, ℕ, ◌*◌, ◌^◌, ◌<◌, ◌≤◌, ◌≡◌, refl, ◌&&◌, arith, Bool,
  true, false, [], ◌∷◌, pos, negsuc, Run, ok, ◌==◌,
}
use allang.Parser.Source.{eob_none, Lexer}
use allang.Parser.Tok.{tok}
use allang.Parser.Consume.{dot_iter}
use allang.Parser.Cond.{cond_flip, cond_eval}
use allang.Parser.Cond.Laws.{cond_flip_lem, negated, codes_negate}
use allang.Typesys.Agg.{Member}
use allang.Typesys.Dtype.{TypeT, Dtype, fund, none_kind}
use allang.Parser.Struct.{Layout, struct_layout, place_members, place_member, align_to}
use allang.Parser.Struct.Align.{is_align}
use allang.Parser.Struct.Laws.{Packed, all_aligned, room, struct_layout_lem}
use allang.Parser.Slots.{Slot, StackUse, Target}
use allang.Parser.Diagram.{stack_diagram}
use allang.Parser.Diagram.Laws.{Tiled, drawn, deepest, upwards, stack_diagram_lem}
use allang.Parser.Slots.Laws.{Stacked}
use allang.Parser.Types.{next_pow2}
use allang.Parser.Types.Laws.{next_pow2_lem}
use allang.Typesys.Reg.{Reg, plain_reg, no_dtype, scratch, stack, lo}

abbrev size_after : Option Layout → ℕ
size_after none = 0
size_after (some l) = l.size

-- `a [b` with a comment, and an indented `c`.
abbrev two_lines : Lexer
two_lines = record {
  text =
      b'a' ∷ b' ' ∷ b'[' ∷ b'b' ∷ 10 ∷ b'/' ∷ b'/' ∷ b'!' ∷ 10 ∷ b' ' ∷ b' ' ∷ b' ' ∷ b' ' ∷ b'c'
      ∷ 10 ∷ [];
  cur = 0;
  lineno = 1;
  indent = 0;
  eof = false;
  start_of_line = true;
  end_of_line = false;
  ended = false;
  ctx_indent = 0;
  token = record { data_at = 0; end_at = 0; lineno = 1; indent = 0; eob = eob_none };
  reports = 0;
}

abbrev last_token : Lexer
last_token = record two_lines { cur = 13; lineno = 3; indent = 4 }

next_pow2_lem_example : (k : ℕ) × (k < 32) × (next_pow2 5 ≡ 2 ^ k) × (5 ≤ 2 ^ k) × (2 ^ k < 2 * 5)
next_pow2_lem_example = next_pow2_lem 5 (omega arith) (omega arith)

-- Minus one is not below one without a sign.
cond_flip_lem_example :
    (cond_eval (cond_flip lo) (negsuc 0) (pos 1) ≡ negated (cond_eval lo (negsuc 0) (pos 1)))
    × (codes_negate lo ≡ true)
    × (cond_flip (cond_flip lo) ≡ lo)
cond_flip_lem_example = cond_flip_lem lo (negsuc 0) (pos 1)

-- The places of the tokens of the source, with the state of the last.
abbrev is_token : ℕ → ℕ → Run (Lexer × Bool) → Bool
is_token a b (ok (l, true)) = (l.token.data_at == a) && (l.token.end_at == b)
is_token a b _ = false

first_word : is_token 0 1 (tok two_lines) ≡ true
unfolding tok
first_word = refl

after_bracket : is_token 2 3 (tok (record two_lines { cur = 2 })) ≡ true
unfolding tok
after_bracket = refl

after_comment : is_token 13 14 (tok last_token) ≡ true
unfolding tok
after_comment = refl

-- `a.b`, and `.b` behind it.
first_part : dot_iter (b'a' ∷ b'.' ∷ b'b' ∷ []) b'.' ≡ (b'a' ∷ [], b'.' ∷ b'b' ∷ [])
unfolding dot_iter
first_part = refl

second_part : dot_iter (b'.' ∷ b'b' ∷ []) b'.' ≡ (b'b' ∷ [], [])
unfolding dot_iter
second_part = refl

abbrev u8_type : TypeT
u8_type = record {
  addr = 1;
  size = 1;
  align = 1;
  tag = fund;
  sign = false;
  name = b'u' ∷ b'8' ∷ [];
}

abbrev i32_type : TypeT
i32_type = record {
  addr = 2;
  size = 4;
  align = 4;
  tag = fund;
  sign = true;
  name = b'i' ∷ b'3' ∷ b'2' ∷ [];
}

abbrev comptime_int : TypeT
comptime_int = record { addr = 3; size = 0; align = 0; tag = none_kind; sign = true; name = [] }

abbrev of_u8 : Dtype
of_u8 = record no_dtype { base = some u8_type }

abbrev of_i32 : Dtype
of_i32 = record no_dtype { base = some i32_type }

struct_layout_lem_example :
    (l : Layout) × (struct_layout (of_u8 ∷ of_i32 ∷ of_u8 ∷ []) ≡ some l)
    × (map (λ (m : Member). m.dtype) l.members ≡ of_u8 ∷ of_i32 ∷ of_u8 ∷ [])
    × Packed 0 l.members l.align l.size
    × (is_align l.align ≡ true)
    × (l.size % l.align ≡ 0)
struct_layout_lem_example =
    struct_layout_lem of_u8 (of_i32 ∷ of_u8 ∷ []) (unfold all_aligned in refl)
      (unfold room in omega arith)

-- A byte, four and a byte, with the gaps.
twelve_bytes : size_after (struct_layout (of_u8 ∷ of_i32 ∷ of_u8 ∷ [])) ≡ 12
unfolding struct_layout place_members place_member align_to
twelve_bytes = refl

-- A byte in use, and a target that is stored a number to.
abbrev one_byte : StackUse
one_byte = record {
  stack_size = 1;
  slots = (record { name = []; type_name = b'u' ∷ b'8' ∷ []; offset = 1; size = 1 }) ∷ [];
}

abbrev new_target : Target
new_target = record { reg = plain_reg stack 0 0; target_assigned = false; name = b'X' ∷ [] }

abbrev number : Reg
number = record (plain_reg scratch 0 0) { dtype = record no_dtype { base = some comptime_int } }

-- A gap lies between the two objects.
abbrev two_slots : List Slot
two_slots =
    (record { name = b'a' ∷ []; type_name = b'i' ∷ []; offset = 4; size = 4 })
    ∷ (record { name = b'b' ∷ []; type_name = b'l' ∷ []; offset = 16; size = 8 })
    ∷ []

stack_diagram_lem_example :
    Tiled (neg_ℤ (pos 16)) (stack_diagram two_slots) (pos 0)
    × (drawn (stack_diagram two_slots) ≡ upwards two_slots)
unfolding deepest
stack_diagram_lem_example =
    stack_diagram_lem two_slots 16 (unfold Stacked in (omega arith, (omega arith, omega arith)))
      refl (omega arith)
