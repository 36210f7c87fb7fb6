-- ===== src/BestFit/Take.antt =====
-- The split in `alloc` of Labs/CP/src/list_of_free_blocks.cpp: the blocks in memory after it.
use mai_os_labs.Prelude.{
  ℕ, ◌+◌, ◌-◌, ◌≤◌, ◌<◌, ◌≡◌, ◌≢◌, ◌⊎◌, inl, inr, List, ◌∷◌, ◌++◌, arith, word, leb, Bool-cases,
}
use mai_os_labs.BestFit.{BlockHeader, Memory, take_block, minimum_block_size}
use mai_os_labs.BestFit.Segments.{
  Block, Seg, IsBlockSize, next_of, end_of, last_of, header, Seg-split, Seg-join, Seg-frame,
  Seg-reprev, next_of-ahead, next_of-apart,
}
use mai_os_labs.BestFit.Writes.{
  split_best, split_new, split_after, split_other, whole_best, whole_other,
}
use mai_os_labs.BestFit.Blocks.{used, unused, given, remainder}

module _ (m : Memory) (a wanted n : ℕ) (xs ys : List Block) (s : Seg m 0 a (xs ++ unused n ∷ ys) 0)
    (high : minimum_block_size ≤ a) (wanted_ok : IsBlockSize wanted) (fits : wanted ≤ n)
    (above : a ≤ end_of a xs) (inside : end_of a xs + n < word) where
  g : Memory
  g = take_block (end_of a xs) wanted m

  parts : Seg m 0 a xs (end_of a xs) × Seg m (last_of 0 a xs) (end_of a xs) (unused n ∷ ys) 0
  parts = Seg-split m 0 a xs (unused n ∷ ys) 0 s

  h : BlockHeader
  h = header (unused n) (next_of (end_of a xs + n) ys 0) (last_of 0 a xs)

  pos : 0 < wanted
  pos = omega (arith, wanted_ok.0)

  module _ (large : wanted + minimum_block_size ≤ n) where
    ahead :
        (next_of (end_of a xs + n) ys 0 ≡ 0)
        ⊎ (end_of a xs + wanted < next_of (end_of a xs + n) ys 0)
    ahead = next_of-ahead (end_of a xs + wanted) (end_of a xs + n) ys (omega arith)

    same : (q : ℕ) → q ≢ end_of a xs → q ≢ end_of a xs + wanted → q ≢ end_of a xs + n → g q ≡ m q
    unfolding g h
    same q p p' p'' =
        split_other m (end_of a xs) wanted h parts.1.1 pos inside large ahead q p p'
          (next_of-apart q (end_of a xs + n) ys p'')

    tail : (b : ℕ) → b ≡ end_of a xs + n → Seg g (end_of a xs + wanted) b ys 0
    unfolding g h
    tail b e = rw e (
        Seg-reprev m g (end_of a xs) (end_of a xs + wanted) (end_of a xs + n) ys
          (split_after m (end_of a xs) wanted h parts.1.1 pos inside large ahead)
          (λ q lt. same q (omega arith) (omega arith) (omega arith)) (omega arith) parts.1.2)

    split_blocks : Seg g 0 a (xs ++ used wanted ∷ unused (n - wanted) ∷ ys) 0
    unfolding g h
    split_blocks =
        let known = parts.1.1 in
        let end : end_of a xs + wanted + (n - wanted) ≡ end_of a xs + n = omega arith in
        Seg-join g 0 a xs (used wanted ∷ unused (n - wanted) ∷ ys) 0
          (Seg-frame m g 0 a xs (end_of a xs)
            (λ q lo hi. same q (omega arith) (omega arith) (omega arith)) parts.0)
          (
            wanted_ok,
            split_best m (end_of a xs) wanted h known pos inside large ahead,
            (
              (omega arith, omega (arith, wanted_ok.1, parts.1.0.1)),
              rw end (split_new m (end_of a xs) wanted h known pos inside large ahead),
              tail _ end,
            ),
          )

  module _ (small : n < wanted + minimum_block_size) where
    whole_blocks : Seg g 0 a (xs ++ used n ∷ ys) 0
    unfolding g h
    whole_blocks =
        let known = parts.1.1 in
        let same = whole_other m (end_of a xs) wanted h known pos inside small fits (omega arith) in
        Seg-join g 0 a xs (used n ∷ ys) 0
          (Seg-frame m g 0 a xs (end_of a xs) (λ q lo hi. same q (omega arith)) parts.0)
          (
            parts.1.0,
            whole_best m (end_of a xs) wanted h known pos inside small fits (omega arith),
            Seg-frame m g (end_of a xs) (end_of a xs + n) ys 0 (λ q lo hi. same q (omega arith))
                parts.1.2,
          )

  -- The chosen block is in use, and what it did not give is a free block behind it.
  pub take_block-Seg :
      Seg
        (take_block (end_of a xs) wanted m)
        0
        a
        (xs ++ used (given wanted n) ∷ (remainder wanted n ++ ys))
        0
  unfolding g given remainder
  take_block-Seg = elim (Bool-cases (leb (wanted + minimum_block_size) n)) [
    | inl large ↦ rw large (split_blocks (ground arith))
    | inr small ↦ rw small (whole_blocks (ground arith))
  ]
