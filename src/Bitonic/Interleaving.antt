-- ===== src/Bitonic/Interleaving.antt =====
-- The threads of Labs/Lab2/src/main.cpp: what the calls of `compareAndSwap` can be, in their order
-- in time, where the threads that run at once take turns in any way. Which comparisons a thread
-- makes does not hang on the vector, so a run is a list of comparisons.
pub mod Disjoint
pub mod Confluence
use mai_os_labs.Prelude.{ℕ, zero, suc, ◌+◌, ◌/◌, ◌≤◌, ◌<◌, List, [], ◌∷◌, ◌++◌}
use mai_os_labs.Bitonic.{compare_and_swap}

-- The arguments of a call of `compareAndSwap`.
pub record Comparison : Type 0 where
  pub i : ℕ
  pub j : ℕ
  pub dir : ℕ

unfoldable pub run : List Comparison → List ℕ → List ℕ
run [] arr = arr
run (c ∷ cs) arr = run cs (compare_and_swap arr c.i c.j c.dir)

-- The comparisons of the loop of `bitonicMerge`, for the `n` indices from `i` on.
unfoldable pub loop : ℕ → ℕ → ℕ → ℕ → List Comparison
loop zero i k dir = []
loop (suc n) i k dir = record { i = i; j = i + k; dir = dir } ∷ loop n (i + 1) k dir

-- Two threads that run at once.
pub data Interleaved : List Comparison → List Comparison → List Comparison → Type 0 where
  both_done : Interleaved [] [] []
  first_moves :
      {xs ys zs : List Comparison} (c : Comparison)
      → Interleaved xs ys zs
      → Interleaved (c ∷ xs) ys (c ∷ zs)
  second_moves :
      {xs ys zs : List Comparison} (c : Comparison)
      → Interleaved xs ys zs
      → Interleaved xs (c ∷ ys) (c ∷ zs)

-- The runs of `bitonicMerge`: the loop, and then both halves at once or one after the other.
pub data MergeRun : ℕ → ℕ → ℕ → List Comparison → Type 0 where
  merge_one : (low cnt dir : ℕ) → cnt ≤ 1 → MergeRun low cnt dir []
  merge_halves :
      (low cnt dir : ℕ) (xs ys zs : List Comparison)
      → 1 < cnt
      → MergeRun low (cnt / 2) dir xs
      → MergeRun (low + cnt / 2) (cnt / 2) dir ys
      → Interleaved xs ys zs
      → MergeRun low cnt dir (loop (cnt / 2) low (cnt / 2) dir ++ zs)

-- The runs of `bitonicSort`: both halves, and then the merge.
pub data SortRun : ℕ → ℕ → ℕ → List Comparison → Type 0 where
  sort_one : (low cnt dir : ℕ) → cnt ≤ 1 → SortRun low cnt dir []
  sort_halves :
      (low cnt dir : ℕ) (xs ys zs ms : List Comparison)
      → 1 < cnt
      → SortRun low (cnt / 2) 1 xs
      → SortRun (low + cnt / 2) (cnt / 2) 0 ys
      → Interleaved xs ys zs
      → MergeRun low cnt dir ms
      → SortRun low cnt dir (zs ++ ms)
