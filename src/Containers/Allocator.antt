-- ===== src/Containers/Allocator.antt =====
-- alc/allocator.h: memory handed out from one block, and the lists of a fixed room in it. `used` is
-- the distance from `data` to `end`; pointers are offsets from `data`.
use allang.Base.{
  ℕ, ◌+◌, ◌*◌, ◌<◌, ◌≤◌, ◌≡◌, refl, List, [], ◌∷◌, ◌++◌, arith, leb, ◌==◌, if◌then◌else◌, length,
  Run, ok, abort, running, ◌>>=◌, inl, inr, Bool-cases,
}

pub record Allocator : Type 0 where
  pub size : ℕ
  pub used : ℕ

unfoldable pub allocator_init : ℕ → Allocator
allocator_init size = record { size = size; used = 0 }

unfoldable pub allocator_alloc_undefined : Allocator → ℕ → Run (Allocator × ℕ)
allocator_alloc_undefined self size =
    if leb self.size (self.used + size)
    then abort
    else ok (record self { used = self.used + size }, self.used)

pub record BoundedList {ℓ} (V : Type ℓ) : Type ℓ where
  pub begin : ℕ
  pub items : List V
  pub room : ℕ

module _ {ℓ} {V : Type ℓ} where
  -- `elem_size` is `sizeof (T)`.
  unfoldable pub list_init : ℕ → Allocator → ℕ → Run (Allocator × BoundedList V)
  list_init elem_size alloc len = do
    (left, begin) ← allocator_alloc_undefined alloc (elem_size * len)
    ok (left, record { begin = begin; items = []; room = len })

  unfoldable pub list_push : BoundedList V → V → Run (BoundedList V)
  list_push self elem =
      if length self.items == self.room
      then abort
      else ok (record self { items = self.items ++ elem ∷ [] })

-- Two allocations in a row.
unfoldable pub two_allocations : Allocator → ℕ → ℕ → Run (Allocator × ℕ × ℕ)
unfolding allocator_alloc_undefined
two_allocations a m n = allocator_alloc_undefined a m >>= λ r.
    allocator_alloc_undefined r.0 n >>= λ q. ok (q.0, r.1, q.1)

-- What they give: memory inside the block that does not overlap, where it has room for both.
unfoldable pub GivenBoth : Allocator → ℕ → ℕ → Run (Allocator × ℕ × ℕ) → Type 0
GivenBoth a m n (ok (left, first, second)) =
    (a.used ≤ first) × (first + m ≤ second) × (second + n < a.size) × (left.used ≡ a.used + m + n)
GivenBoth a m n abort = a.size ≤ a.used + m + n
GivenBoth a m n running = ⊥

-- Two allocations in a row return or stop the run. Where they return, the memory that they hand out
-- is inside the block, with a byte to spare, does not overlap, and lies behind what was in use; they
-- stop the run only where the block has no room for both.
pub allocator_alloc_undefined_lem :
    (a : Allocator) (m n : ℕ) → GivenBoth a m n (two_allocations a m n)
unfolding two_allocations allocator_alloc_undefined GivenBoth
allocator_alloc_undefined_lem a m n = elim (Bool-cases (leb a.size (a.used + m))) [
  | inl e ↦ rw e (ground (arith, e))
  | inr e ↦ rw e (elim (Bool-cases (leb a.size (a.used + m + n))) [
    | inl f ↦ rw f (ground (arith, f))
    | inr f ↦ rw f (omega arith, omega arith, ground (arith, f), refl)
  ])
]
