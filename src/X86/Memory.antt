-- ===== src/X86/Memory.antt =====
-- The loads and stores of alc/bin-x86_64.c, and the functions that store several values, as the
-- bytes that they put. Offsets are those that an `int` holds, so that its casts change nothing.
pub mod Laws
use allang.Base.{
  ℕ, zero, suc, ◌+◌, ◌-◌, ◌*◌, ◌/◌, ◌%◌, ◌^◌, Bool, true, false, not, ◌&&◌, Option, none, some,
  List, [], ◌∷◌, ◌++◌, leb, ltb, ◌==◌, if◌then◌else◌, ℤ, pos, ◌+ℤ◌, to_bits, to_signed, i32,
  bit_and, ◌|||◌, shl, u8,
}
use allang.Typesys.Dtype.{Dtype, dtype_size}
use allang.Typesys.Reg.{Reg, scratch, no_dtype, plain_reg}
use allang.X86.Encode.{
  RegTables, reg_no, rsz, put32, rex_bit, prefix_16, put_rex, opcode_of, choose_mod, put_disp,
  encode_rr, encode_mem, shift_ri,
}
use allang.X86.Alu.{fits_i32}

-- Zero in a register, by XOR.
unfoldable pub clear_reg : ℕ → ℕ → List ℕ
unfolding encode_rr
clear_reg sz r = encode_rr 0x31 sz r r

abbrev pub chunk_size : ℕ → ℕ
chunk_size nbytes =
    if leb 8 nbytes then 8 else if leb 4 nbytes then 4 else if leb 2 nbytes then 2 else 1

-- The stores of the loops of `emit_zerofill`, as offsets and sizes: `rsize` goes on with what the
-- size has left, and halves where it no longer fits.
unfoldable pub fill_stores : ℕ → ℕ → ℤ → ℕ → List (ℤ × ℕ)
fill_stores zero rsize offset size = []
fill_stores (suc left) rsize offset size =
    let more = fill_stores left rsize (offset +ℤ pos rsize) (size - rsize) in
    let narrower = fill_stores left (rsize / 2) offset size in
    if size == 0
    then []
    else if leb rsize size
    then (offset, rsize) ∷ more
    else if rsize == 1
    then []
    else narrower

module _ (t : RegTables) where
  unfoldable pub emit_str_reg : Reg → Reg → ℤ → List ℕ
  unfolding encode_mem
  emit_str_reg dst src offset =
      encode_mem 0x89 (rsz src) (reg_no t src) (reg_no t dst) false 0 1 offset

  unfoldable pub emit_ldr : Reg → Reg → ℤ → List ℕ
  unfolding encode_mem
  emit_ldr dst src offset = encode_mem 0x8b (rsz dst) (reg_no t dst) (reg_no t src) false 0 1 offset

  -- MOV of an immediate value, of four bytes at most, to memory.
  unfoldable pub emit_mem_imm : ℕ → Reg → ℤ → ℤ → List ℕ
  unfolding choose_mod put_disp
  emit_mem_imm sz dst offset value =
      let base = reg_no t dst in
      let base_low3 = bit_and base 7 in
      let mode = choose_mod offset base_low3 in
      prefix_16 sz
      ++ (put_rex (rex_bit (sz == 8) 8 ||| rex_bit (leb 8 base) 1) false
          ++ opcode_of 0xc7 sz
            ∷ ((if base_low3 == 4
                  then (shl mode 6 ||| 4) ∷ (shl 4 3 ||| base_low3) ∷ []
                  else (shl mode 6 ||| base_low3) ∷ [])
                ++ (put_disp offset mode
                    ++ (if sz == 1
                        then to_bits 8 value ∷ []
                        else if sz == 2
                        then to_bits 8 value ∷ to_bits 64 value / 2 ^ 8 % 2 ^ 8 ∷ []
                        else put32 (to_bits 32 value)))))

  -- A value that 32 bits do not hold goes in halves. `none` where a type is read through NULL.
  unfoldable pub emit_str_imm : Reg → ℤ → ℤ → Option (List ℕ)
  unfolding emit_mem_imm
  emit_str_imm dst value offset = elim dst.dtype.base [
    | none ↦ none
    | some type ↦
        let sz = u8 type.size in
        some (
          if leb 8 sz && not (fits_i32 value)
          then emit_mem_imm 4 dst offset (i32 value)
            ++ emit_mem_imm 4 dst (offset +ℤ pos 4) (to_signed 32 (to_bits 64 value / 2 ^ 32))
          else emit_mem_imm sz dst offset value)
  ]

  -- The address in the first scratch register, or the second where the value is in `rax`.
  unfoldable pub emit_str_regoff : Reg → Reg → Reg → List ℕ
  unfolding encode_mem emit_str_reg
  emit_str_regoff dst src offset =
      let address = plain_reg scratch (if reg_no t src == 0 then 1 else 0) 8 in
      encode_mem 0x8d 8 (reg_no t address) (reg_no t dst) true (reg_no t offset) 1 (pos 0)
      ++ emit_str_reg address src (pos 0)

  unfoldable pub emit_str_imm_regoff : Reg → ℤ → Reg → Option (List ℕ)
  unfolding encode_mem emit_str_imm
  emit_str_imm_regoff dst value offset =
      let address : Reg = record (plain_reg scratch 0 8) {
        dtype = record no_dtype { base = dst.dtype.base };
      } in
      elim (emit_str_imm address value (pos 0)) [
        | none ↦ none
        | some bytes ↦
            some (encode_mem 0x8d 8 0 (reg_no t dst) true (reg_no t offset) 1 (pos 0) ++ bytes)
      ]

  unfoldable pub emit_ldr_reg : Reg → Reg → Reg → List ℕ
  unfolding encode_mem emit_ldr
  emit_ldr_reg dst src offset =
      encode_mem 0x8d 8 (reg_no t dst) (reg_no t src) true (reg_no t offset) 1 (pos 0)
      ++ emit_ldr dst dst (pos 0)

  unfoldable pub emit_store_eightbytes : Reg → ℤ → Reg → Bool → Reg → Bool → Bool → List ℕ
  unfolding clear_reg emit_str_reg
  emit_store_eightbytes base offset lo lo_written hi hi_written has_hi =
      let low = if has_hi then record lo { rsize = 8 } else lo in
      let high = record hi { rsize = 8 } in
      (if lo_written then [] else clear_reg (rsz low) (reg_no t low))
      ++ (emit_str_reg base low offset
          ++ (if has_hi
              then (if hi_written then [] else clear_reg (rsz high) (reg_no t high))
                ++ emit_str_reg base high (offset +ℤ pos 8)
              else []))

  -- The loop of `emit_store_packed`; each round stores a byte at least, so `nbytes` rounds are
  -- enough.
  unfoldable pub store_packed_from : ℕ → Reg → ℤ → Reg → ℕ → ℕ → List ℕ
  unfolding emit_str_reg shift_ri
  store_packed_from zero base offset src nbytes place = []
  store_packed_from (suc left) base offset src nbytes place =
      let chunk = chunk_size nbytes in
      let stored = emit_str_reg base (record src { rsize = chunk }) (offset +ℤ pos place) in
      let shifted =
        if ltb chunk nbytes
        then shift_ri t 5 (record src { rsize = 8 }) (pos (chunk * 8))
        else [] in
      let rest = store_packed_from left base offset src (nbytes - chunk) (place + chunk) in
      if nbytes == 0 then [] else stored ++ (shifted ++ rest)

  unfoldable pub emit_store_packed : Reg → ℤ → Reg → ℕ → List ℕ
  unfolding store_packed_from
  emit_store_packed base offset src nbytes = store_packed_from nbytes base offset src nbytes 0

  unfoldable pub store_zeros : Reg → List (ℤ × ℕ) → List ℕ
  unfolding emit_str_reg
  store_zeros base [] = []
  store_zeros base ((offset, size) ∷ rest) =
      emit_str_reg base (plain_reg scratch 1 size) offset ++ store_zeros base rest

  -- `none` where the size is read through NULL. A round stores a byte at least or halves `rsize`.
  unfoldable pub emit_zerofill : Reg → ℤ → Dtype → Option (List ℕ)
  unfolding clear_reg store_zeros fill_stores
  emit_zerofill base offset type = elim (dtype_size type) [
    | none ↦ none
    | some size ↦ some (
        clear_reg 4 (reg_no t (plain_reg scratch 1 8))
        ++ store_zeros base (fill_stores (size + 4) 8 offset size))
  ]
