-- ===== src/BestFit/Overflow.antt =====
-- `alloc` of Labs/CP/src/list_of_free_blocks.cpp, on requests next to 2^64.
use mai_os_labs.Prelude.{
  ℕ, ◌+◌, ◌≤◌, ◌<◌, ◌≡◌, ◌≢◌, refl, List, [], ◌∷◌, ◌++◌, some, arith, word, add64,
}
use mai_os_labs.BestFit.{BestFitAllocator, alloc, aligned_size, header_size}
use mai_os_labs.BestFit.Segments.{Block, end_of-eq, total-append, Seg-split}
use mai_os_labs.BestFit.Blocks.{unused}
use mai_os_labs.BestFit.Search.{AtLeast, Found, kept, found}
use mai_os_labs.BestFit.State.{IsValid}
use mai_os_labs.BestFit.Alloc.{search-Found, search_result, alloc_placed, block_bounds, block_room}

-- The size to search for is that of a header at most.
aligned_size_wraps : (size : ℕ) → word ≤ size + 39 → size < word → aligned_size size ≤ header_size
unfolding aligned_size
aligned_size_wraps size h lt = omega arith

not_all_larger :
    (wanted least : ℕ) (xs : List Block) (n : ℕ) (ys : List Block)
    → wanted ≤ n
    → n < least
    → ¬ AtLeast wanted least (xs ++ unused n ∷ ys)
not_all_larger wanted least [] n ys fits lt all = omega (arith, all.0 refl fits)
not_all_larger wanted least (x ∷ xs) n ys fits lt all =
    not_all_larger wanted least xs n ys fits lt all.1

-- A request of at least 2^64 - 39 bytes on a valid allocator that has a free block is granted: the
-- answer is a pointer and not `nullptr`.
pub alloc_huge :
    (s : BestFitAllocator) (xs : List Block) (n : ℕ) (ys : List Block) (size : ℕ)
    → IsValid s (xs ++ unused n ∷ ys)
    → word ≤ size + 39
    → size < word
    → (ptr : ℕ) × (s' : BestFitAllocator) × (alloc s size ≡ some (ptr, s')) × (ptr ≢ 0)
alloc_huge s xs n ys size v huge lt = go (search-Found s (xs ++ unused n ∷ ys) v wanted)
  where
    wanted : ℕ
    wanted = aligned_size size

    room : header_size ≤ n
    room = (Seg-split s.memory 0 s.head xs (unused n ∷ ys) 0 v.chain).1.0.0

    go :
        (r : ℕ) × (search_result s wanted ≡ some r)
          × Found wanted (add64 s.total_size 1) s.head (xs ++ unused n ∷ ys) 0 r
        → (ptr : ℕ) × (s' : BestFitAllocator) × (alloc s size ≡ some (ptr, s')) × (ptr ≢ 0)
    go (r, e, kept e' all) = absurd (
        not_all_larger wanted (add64 s.total_size 1) xs n ys
          (omega (arith, aligned_size_wraps size huge lt, room))
          (omega (arith, v.whole, v.inside, v.base, total-append xs (unused n ∷ ys))) all)
    go (r, e, found xs' b ys' eq at le best) = (
      add64 r header_size,
      _,
      alloc_placed s size r (omega arith) (omega (arith, v.base, end_of-eq s.head xs')) e,
      ground (arith, block_bounds s _ v xs' b ys' eq, block_room s _ v xs' b ys' eq, v.inside),
    )
