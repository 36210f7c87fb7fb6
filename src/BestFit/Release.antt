-- ===== src/BestFit/Release.antt =====
-- The two merges in `free` of Labs/CP/src/list_of_free_blocks.cpp: the blocks in memory after them.
use mai_os_labs.Prelude.{ℕ, ◌+◌, ◌≤◌, ◌<◌, ◌≡◌, ◌≢◌, ◌⊎◌, refl, true, List, ◌∷◌, ◌++◌, arith, word}
use mai_os_labs.BestFit.{BlockHeader, Memory, set_free, merge_next, merge_prev}
use mai_os_labs.BestFit.Segments.{
  Block, Seg, next_of, end_of, last_of, header, Seg-split, Seg-join, Seg-frame, Seg-reprev,
  next_of-ahead, next_of-apart,
}
use mai_os_labs.BestFit.Writes.{
  marked_block, marked_other, merge_next_block, merge_next_after, merge_next_other,
  merge_prev_before, merge_prev_after, merge_prev_other,
}
use mai_os_labs.BestFit.Blocks.{used, unused}

module _ (m : Memory) (a n : ℕ) (xs ys : List Block) (above : a ≤ end_of a xs) (pos : 0 < a) where
  -- `block->is_free = true`
  pub mark-Seg :
      Seg m 0 a (xs ++ used n ∷ ys) 0
      → Seg (set_free (end_of a xs) true m) 0 a (xs ++ unused n ∷ ys) 0
  mark-Seg s =
      let g = set_free (end_of a xs) true m in
      let (l, r) = Seg-split m 0 a xs (used n ∷ ys) 0 s in
      let same = marked_other m (end_of a xs) _ r.1 in
      Seg-join g 0 a xs (unused n ∷ ys) 0
        (Seg-frame m g 0 a xs (end_of a xs) (λ q lo hi. same q (omega arith)) l)
        (
          r.0,
          marked_block m (end_of a xs) _ r.1,
          Seg-frame m g (end_of a xs) (end_of a xs + n) ys 0
              (λ q lo hi. same q (omega (arith, r.0.0))) r.2,
        )

-- The block takes over a free successor of `k` bytes.
module _ (m : Memory) (a n k : ℕ) (xs ys : List Block) (above : a ≤ end_of a xs) (pos : 0 < a)
    (s : Seg m 0 a (xs ++ unused n ∷ unused k ∷ ys) 0) (inside : n + k < word) where
  g : Memory
  g = merge_next (end_of a xs) m

  parts :
      Seg m 0 a xs (end_of a xs) × Seg m (last_of 0 a xs) (end_of a xs) (unused n ∷ unused k ∷ ys) 0
  parts = Seg-split m 0 a xs (unused n ∷ unused k ∷ ys) 0 s

  h : BlockHeader
  h = header (unused n) (end_of a xs + n) (last_of 0 a xs)

  next : BlockHeader
  next = header (unused k) (next_of (end_of a xs + n + k) ys 0) (end_of a xs)

  further :
      (next_of (end_of a xs + n + k) ys 0 ≡ 0)
      ⊎ (end_of a xs + n < next_of (end_of a xs + n + k) ys 0)
  further = next_of-ahead (end_of a xs + n) (end_of a xs + n + k) ys (omega (arith, parts.1.2.0.0))

  same : (q : ℕ) → q ≢ end_of a xs → q ≢ end_of a xs + n + k → g q ≡ m q
  unfolding g h next
  same q p p' =
      merge_next_other m (end_of a xs) h parts.1.1 next parts.1.2.1 refl (omega arith)
        (omega (arith, parts.1.0.0)) further inside q p
        (next_of-apart q (end_of a xs + n + k) ys p')

  tail : (b : ℕ) → b ≡ end_of a xs + n + k → Seg g (end_of a xs) b ys 0
  unfolding g h next
  tail b e = rw e (
      Seg-reprev m g (end_of a xs + n) (end_of a xs) (end_of a xs + n + k) ys
        (merge_next_after m (end_of a xs) h parts.1.1 next parts.1.2.1 refl (omega arith)
          (omega (arith, parts.1.0.0)) further inside)
        (λ q lt. same q (omega arith) (omega arith)) (omega arith) parts.1.2.2)

  pub merge_next-Seg : Seg (merge_next (end_of a xs) m) 0 a (xs ++ unused (n + k) ∷ ys) 0
  unfolding g h next
  merge_next-Seg =
      let end : end_of a xs + (n + k) ≡ end_of a xs + n + k = omega arith in
      Seg-join g 0 a xs (unused (n + k) ∷ ys) 0
        (Seg-frame m g 0 a xs (end_of a xs) (λ q lo hi. same q (omega arith) (omega arith)) parts.0)
        (
          (omega (arith, parts.1.0.0), omega (arith, parts.1.0.1, parts.1.2.0.1)),
          rw end (
              merge_next_block m (end_of a xs) h parts.1.1 next parts.1.2.1 refl (omega arith)
                (omega (arith, parts.1.0.0)) further inside),
          tail _ end,
        )

-- A free predecessor of `k` bytes takes over the block.
module _ (m : Memory) (a n k : ℕ) (xs ys : List Block) (above : a ≤ end_of a xs) (pos : 0 < a)
    (s : Seg m 0 a (xs ++ unused k ∷ unused n ∷ ys) 0) (inside : k + n < word) where
  g' : Memory
  g' = merge_prev (end_of a xs + k) m

  parts' :
      Seg m 0 a xs (end_of a xs) × Seg m (last_of 0 a xs) (end_of a xs) (unused k ∷ unused n ∷ ys) 0
  parts' = Seg-split m 0 a xs (unused k ∷ unused n ∷ ys) 0 s

  before : BlockHeader
  before = header (unused k) (end_of a xs + k) (last_of 0 a xs)

  h' : BlockHeader
  h' = header (unused n) (next_of (end_of a xs + k + n) ys 0) (end_of a xs)

  ahead' :
      (next_of (end_of a xs + k + n) ys 0 ≡ 0)
      ⊎ (end_of a xs + k < next_of (end_of a xs + k + n) ys 0)
  ahead' = next_of-ahead (end_of a xs + k) (end_of a xs + k + n) ys (omega (arith, parts'.1.2.0.0))

  same' : (q : ℕ) → q ≢ end_of a xs → q ≢ end_of a xs + k + n → g' q ≡ m q
  unfolding g' h' before
  same' q p p' =
      merge_prev_other m (end_of a xs + k) h' parts'.1.2.1 before parts'.1.1 refl (omega arith)
        (omega (arith, parts'.1.0.0)) ahead' inside q p
        (next_of-apart q (end_of a xs + k + n) ys p')

  tail' : (b : ℕ) → b ≡ end_of a xs + k + n → Seg g' (end_of a xs) b ys 0
  unfolding g' h' before
  tail' b e = rw e (
      Seg-reprev m g' (end_of a xs + k) (end_of a xs) (end_of a xs + k + n) ys
        (merge_prev_after m (end_of a xs + k) h' parts'.1.2.1 before parts'.1.1 refl (omega arith)
          (omega (arith, parts'.1.0.0)) ahead' inside)
        (λ q lt. same' q (omega arith) (omega arith)) (omega arith) parts'.1.2.2)

  pub merge_prev-Seg : Seg (merge_prev (end_of a xs + k) m) 0 a (xs ++ unused (k + n) ∷ ys) 0
  unfolding g' h' before
  merge_prev-Seg =
      let end : end_of a xs + (k + n) ≡ end_of a xs + k + n = omega arith in
      Seg-join g' 0 a xs (unused (k + n) ∷ ys) 0
        (Seg-frame m g' 0 a xs (end_of a xs) (λ q lo hi. same' q (omega arith) (omega arith))
          parts'.0)
        (
          (omega (arith, parts'.1.0.0), omega (arith, parts'.1.0.1, parts'.1.2.0.1)),
          rw end (
              merge_prev_before m (end_of a xs + k) h' parts'.1.2.1 before parts'.1.1 refl
                (omega arith) (omega (arith, parts'.1.0.0)) ahead' inside),
          tail' _ end,
        )
