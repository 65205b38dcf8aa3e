-- ===== src/Aarch64/Machine.antt =====
-- What AArch64 does with the instruction words, as the Arm manual describes them. A register is
-- read as four lanes of 16 bits, the lowest first; registers 0 to 30 are written.
use allang.Base.{
  ℕ, Option, none, some, ◌-◌, ◌*◌, ◌/◌, ◌%◌, ◌^◌, Bool, true, not, ◌&&◌, ◌||◌, List, [], ◌∷◌, ◌==◌,
  ltb, if◌then◌else◌, ℤ, pos, negsuc, sub_ℕ, ◌+ℤ◌,
}

-- Lane `j` of register `r`.
abbrev pub Regs : Type 0
Regs = ℕ → ℕ → ℕ

-- `width` bits of a word from bit `low`.
abbrev pub field : ℕ → ℕ → ℕ → ℕ
field w low width = w / 2 ^ low % 2 ^ width

-- Move wide immediate: sf opc:2 100101 hw:2 imm16 rd:5. Of opc, 0 is MOVN, 2 is MOVZ and 3 is MOVK.
-- The other lanes are kept by MOVK alone; a write of 32 bits clears the two upper lanes.
abbrev pub wide_lane : ℕ → ℕ → ℕ
wide_lane opc old = if opc == 3 then old else if opc == 0 then 0xffff else 0

unfoldable pub move_wide : ℕ → Regs → Regs
move_wide w regs r j =
    if r == field w 0 5
    then (if field w 31 1 == 0 && ltb 1 j
        then 0
        else if j == field w 21 2
        then (if field w 29 2 == 0 then 0xffff - field w 5 16 else field w 5 16)
        else wide_lane (field w 29 2) (regs r j))
    else regs r j

-- Is the word a move of a wide immediate? Opcode 1, and the upper lanes at 32 bits, are unallocated.
unfoldable pub is_move_wide : ℕ → Bool
is_move_wide w =
    (field w 23 6 == 37) && not (field w 29 2 == 1) && ((field w 31 1 == 1) || ltb (field w 21 2) 2)

unfoldable pub all_move_wide : List ℕ → Bool
unfolding is_move_wide
all_move_wide [] = true
all_move_wide (w ∷ ws) = is_move_wide w && all_move_wide ws

-- The moves, in order.
unfoldable pub run_moves : List ℕ → Regs → Regs
unfolding move_wide
run_moves [] regs = regs
run_moves (w ∷ ws) regs = run_moves ws (move_wide w regs)

-- `width` bits in two's complement.
abbrev pub signed : ℕ → ℕ → ℤ
signed width bits = if ltb bits (2 ^ (width - 1)) then pos bits else sub_ℕ bits (2 ^ width)

-- Where B.cond on the condition `c`, and B or BL (bit 31), at a site lead, counted in words. Another
-- word gives the place -1.
unfoldable pub cond_target : ℕ → ℕ → ℕ → ℤ
cond_target c site w =
    if (field w 24 8 == 0x54) && (field w 4 1 == 0) && (field w 0 4 == c)
    then pos site +ℤ signed 19 (field w 5 19)
    else negsuc 0

unfoldable pub branch_target : Bool → ℕ → ℕ → ℤ
branch_target link site w =
    if (field w 26 5 == 5) && (field w 31 1 == (if link then 1 else 0))
    then pos site +ℤ signed 26 (field w 0 26)
    else negsuc 0

-- The byte offset of a load or store of a register of `2 ^ size` bytes: twelve bits that count
-- accesses, or nine signed ones that count bytes. The word is one that `access_kind` knows.
unfoldable pub access_offset : ℕ → ℤ
access_offset w =
    if field w 24 1 == 1 then pos (field w 10 12 * 2 ^ field w 30 2) else signed 9 (field w 12 9)

-- What a load or store is: of a register that is not SIMD, with an unsigned offset that is scaled, or
-- an unscaled one. Of opc (bits 22 and 23), 0 stores, 1 loads and clears the upper bits, 2 loads with
-- the sign to 64 bits, for sizes below 8 bytes; all other words are not such an access.
pub data AccessKind : Type 0 where
  store_kind load_kind load_signed_kind : AccessKind

unfoldable pub access_kind : ℕ → Option AccessKind
access_kind w =
    if (field w 27 3 == 7)
      && (field w 26 1 == 0)
      && ((field w 24 2 == 1)
          || ((field w 24 2 == 0) && (field w 21 1 == 0) && (field w 10 2 == 0)))
    then (if field w 22 2 == 0
        then some store_kind
        else if field w 22 2 == 1
        then some load_kind
        else if (field w 22 2 == 2) && ltb (field w 30 2) 3
        then some load_signed_kind
        else none)
    else none
