-- ===== src/Containers/Buffer.antt =====
-- alc/buffer.h: a growing buffer of bytes. `bytes` are those from `start` to `cur`, and `cap` is
-- the room from `start` to `end`. Allocations succeed, and no size reaches 2 ^ 64.
use allang.Base.{
  ℕ, zero, suc, ◌+◌, ◌*◌, ◌<◌, ◌≤◌, ◌≡◌, refl, ap, List, [], ◌∷◌, ◌++◌, arith, leb, if◌then◌else◌,
  length, Bool-cases, inl, inr, Run, ok, running, Returns, ◌>>=◌,
}
use allang.Str.{Str, str_len}

pub record Buf : Type 0 where
  pub bytes : List ℕ
  pub cap : ℕ

-- A buffer with no allocation yet.
unfoldable pub buf_init : ℕ → Buf
buf_init size = record { bytes = []; cap = size }

unfoldable pub buf_len : Buf → ℕ
buf_len buffer = length buffer.bytes

-- The loop, with the rounds that it may make.
unfoldable pub buf_grow : ℕ → Buf → ℕ → Run Buf
buf_grow zero buffer adding_size = running
buf_grow (suc fuel) buffer adding_size =
    let grown = buf_grow fuel (record buffer { cap = buffer.cap * 2 }) adding_size in
    if leb buffer.cap (length buffer.bytes + adding_size) then grown else ok buffer

-- `memcpy` to `cur`.
unfoldable pub append : Buf → Str → Buf
append buffer s = record buffer { bytes = buffer.bytes ++ s }

unfoldable pub buf_puts : ℕ → Buf → Str → Run Buf
unfolding buf_grow append
buf_puts fuel buffer s = do grown ← buf_grow fuel buffer (str_len s); ok (append grown s)

unfoldable pub buf_putc : ℕ → Buf → ℕ → Run Buf
unfolding buf_grow append
buf_putc fuel buffer c = do grown ← buf_grow fuel buffer 1; ok (append grown (c ∷ []))

unfoldable pub buf_putbuf : ℕ → Buf → Buf → Run Buf
unfolding buf_grow append
buf_putbuf fuel dst src = do
  grown ← buf_grow fuel dst (length src.bytes)
  ok (append grown src.bytes)

-- Enough rounds: the room is doubled in each.
grow_total :
    (fuel : ℕ) (b : Buf) (n : ℕ)
    → 0 < b.cap
    → length b.bytes + n + 1 < b.cap + fuel
    → 0 < fuel
    → Returns
        (buf_grow fuel b n)
        λ b'. (b'.bytes ≡ b.bytes) × (length b.bytes + n < b'.cap) × (b.cap ≤ b'.cap)
unfolding buf_grow
grow_total zero b n some_room enough h = absurd (omega arith)
grow_total (suc fuel) b n some_room enough h = elim (Bool-cases (leb b.cap (length b.bytes + n))) [
  | inl small ↦
      let (b', run, (same, room, more)) =
        grow_total fuel (record b { cap = b.cap * 2 }) n (omega arith) (omega arith)
          (ground arith) in
      (b', rw small run, (same, room, omega arith))
  | inr large ↦ (b, rw large refl, (refl, ground arith, omega arith))
]

-- In a buffer with some room `buf_puts` returns, within as many rounds as there are bytes after it
-- and one more; the bytes are put after those that were there, and the room is larger than all.
pub buf_puts_lem :
    (b : Buf) (s : Str)
    → 0 < b.cap
    → Returns
        (buf_puts (length b.bytes + str_len s + 1) b s)
        λ b'. (b'.bytes ≡ b.bytes ++ s) × (length b.bytes + str_len s < b'.cap)
unfolding buf_puts append
buf_puts_lem b s some_room =
    let (b', run, (same, room, more)) =
      grow_total (length b.bytes + str_len s + 1) b (str_len s) some_room (omega arith)
        (omega arith) in
    (append b' s, rw run refl, (ap (λ t. t ++ s) same, room))
