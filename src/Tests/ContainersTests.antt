-- ===== src/Tests/ContainersTests.antt =====
-- The containers with a few numbers.
use allang.Base.{ℕ, ◌<◌, ◌≡◌, none, [], ◌∷◌, arith, Returns, replicate}
use allang.Containers.Dyn.{no_items, push_all, push_all_lem}
use allang.Containers.Buffer.{Buf, buf_puts, buf_puts_lem}
use allang.Containers.Allocator.{
  Allocator, two_allocations, GivenBoth, allocator_alloc_undefined_lem,
}

-- The ninth value goes past the end.
push_all_lem_example : push_all {V = ℕ} no_items (1 ∷ replicate 8 2) ≡ none
push_all_lem_example = push_all_lem 1 (replicate 8 2)

abbrev small_buf : Buf
small_buf = record { bytes = b'a' ∷ []; cap = 2 }

buf_puts_lem_example :
    Returns
      (buf_puts 5 small_buf (b'b' ∷ b'c' ∷ b'd' ∷ []))
      λ b'. (b'.bytes ≡ b'a' ∷ b'b' ∷ b'c' ∷ b'd' ∷ []) × (4 < b'.cap)
buf_puts_lem_example = buf_puts_lem small_buf (b'b' ∷ b'c' ∷ b'd' ∷ []) (omega arith)

abbrev block : Allocator
block = record { size = 64; used = 8 }

allocator_alloc_undefined_lem_example : GivenBoth block 16 24 (two_allocations block 16 24)
allocator_alloc_undefined_lem_example = allocator_alloc_undefined_lem block 16 24
