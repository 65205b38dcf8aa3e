-- ===== src/Exe/Blocks.antt =====
-- The loops of the writers that put blocks of one size, a block for each import.
use allang.Base.{
  ℕ, zero, suc, ◌+◌, ◌*◌, ◌<◌, ◌≡◌, refl, ◌∙◌, arith, List, [], ◌++◌, length, drop, drop-append,
}

-- From the block `i` on, `n` of them.
unfoldable pub build_blocks : (ℕ → List ℕ) → (i n : ℕ) → List ℕ
build_blocks block i zero = []
build_blocks block i (suc n) = block i ++ build_blocks block (i + 1) n

suc_blocks : (j size : ℕ) → suc j * size ≡ size + j * size
suc_blocks j size = ground arith

-- The block `k`, among `n` of them from `i` on.
pub build_blocks-drop :
    (block : ℕ → List ℕ) (size : ℕ)
    → ((i : ℕ) → length (block i) ≡ size)
    → (i n j k : ℕ) → k ≡ i + j
    → j < n
    → (rest : List ℕ) × (drop (j * size) (build_blocks block i n) ≡ block k ++ rest)
unfolding build_blocks
build_blocks-drop block size same_size i zero j k e low = absurd (omega arith)
build_blocks-drop block size same_size i (suc n) zero k e low =
    let none_before : 0 * size ≡ 0 = omega arith in
    let same : k ≡ i = omega (arith, e) in
    rw (none_before, same) (build_blocks block (i + 1) n, refl)
build_blocks-drop block size same_size i (suc n) (suc j) k e low =
    let (rest, found) =
      build_blocks-drop block size same_size (i + 1) n j k (omega (arith, e))
        (omega (arith, low)) in
    let past = drop-append (block i) (build_blocks block (i + 1) n) (j * size) in
    (rest, rw (suc_blocks j size) (rw (same_size i) at past ∙ found))
