-- ===== src/BestFit/Alloc.antt =====
-- `alloc` of Labs/CP/src/list_of_free_blocks.cpp, on a valid allocator.
use mai_os_labs.Prelude.{
  ℕ, suc, ◌+◌, ◌%◌, ◌≤◌, ◌<◌, ◌≡◌, ◌≢◌, refl, ap, subst, ◌∙◌, true, false, List, [], ◌∷◌, ◌++◌,
  Option, some, arith, word, add64,
}
use mai_os_labs.BestFit.{BestFitAllocator, alloc, aligned_size, find_best, take_block, header_size}
use mai_os_labs.BestFit.Segments.{
  Block, Seg, next_of, total, end_of, end_of-eq, total-append, Seg-split, IsBlockSize,
}
use mai_os_labs.BestFit.Blocks.{used, unused, given, remainder, given-total, given-Settled, Settled}
use mai_os_labs.BestFit.Search.{AtLeast, IsBestFit, Found, kept, found, find_best_lem}
use mai_os_labs.BestFit.State.{IsValid, length-le-total}
use mai_os_labs.BestFit.Take.{take_block-Seg}

-- No free block has `wanted` bytes.
abbrev pub NoneFits : ℕ → List Block → Type 0
NoneFits wanted [] = Unit {0}
NoneFits wanted (b ∷ bs) = (b.is_free ≡ true → b.size < wanted) × NoneFits wanted bs

-- A refusal leaves the allocator alone; an answer comes from a best fit `unused n`.
pub data Allocated (s : BestFitAllocator) (bs : List Block) (wanted : ℕ)
    (r : Option (ℕ × BestFitAllocator)) : Type 0 where
  refused : r ≡ some (0, s) → NoneFits wanted bs → Allocated s bs wanted r
  placed :
      (xs : List Block) (n : ℕ) (ys : List Block) (s' : BestFitAllocator)
      → bs ≡ xs ++ unused n ∷ ys
      → IsBestFit wanted xs (unused n) ys
      → r ≡ some (end_of s.head xs + header_size, s')
      → s'.head ≡ s.head
      → IsValid s' (xs ++ used (given wanted n) ∷ (remainder wanted n ++ ys))
      → Allocated s bs wanted r

none_fits :
    (wanted bound : ℕ) (bs : List Block)
    → total bs < bound
    → AtLeast wanted bound bs
    → NoneFits wanted bs
none_fits wanted bound [] h a = tt
none_fits wanted bound (b ∷ bs) h a =
    ((λ fr. grind (arith, a.0)), none_fits wanted bound bs (omega arith) a.1)

-- A request within range is rounded to a block size that holds the header and the request.
pub aligned_size_bounds :
    (size : ℕ)
    → size + 39 < word
    → (size + header_size ≤ aligned_size size)
      × (aligned_size size < size + 40)
      × (aligned_size size % 8 ≡ 0)
unfolding aligned_size
aligned_size_bounds size h = (omega arith, omega arith, omega arith)

next_of-head : (a : ℕ) (bs : List Block) → 0 < total bs → next_of a bs 0 ≡ a
next_of-head a [] h = absurd (omega arith)
next_of-head a (b ∷ bs) h = refl

-- The search as `alloc` calls it.
pub search_result : BestFitAllocator → ℕ → Option ℕ
search_result s wanted =
    find_best (suc s.total_size) s.memory wanted s.head 0 (add64 s.total_size 1)

pub alloc_refused :
    (s : BestFitAllocator) (size : ℕ)
    → 0 < size
    → search_result s (aligned_size size) ≡ some 0
    → alloc s size ≡ some (0, s)
unfolding alloc search_result
alloc_refused s size pos e = ground arith

pub alloc_placed :
    (s : BestFitAllocator) (size best : ℕ)
    → 0 < size
    → best ≢ 0
    → search_result s (aligned_size size) ≡ some best
    → alloc s size
      ≡ some (
        add64 best header_size,
        record s { memory = take_block best (aligned_size size) s.memory },
      )
unfolding alloc search_result
alloc_placed s size best pos ne e = ground arith

-- A request for no bytes is refused.
pub alloc-zero : (s : BestFitAllocator) → alloc s 0 ≡ some (0, s)
unfolding alloc
alloc-zero s = refl

module _ (s : BestFitAllocator) (bs : List Block) (v : IsValid s bs) where
  -- On a valid allocator the search ends, whatever is wanted.
  pub search-Found :
      (wanted : ℕ)
      → (r : ℕ) × (search_result s wanted ≡ some r)
        × Found wanted (add64 s.total_size 1) s.head bs 0 r
  unfolding search_result
  search-Found wanted = rw (next_of-head s.head bs (omega (arith, v.whole, v.some_size))) at (
      find_best_lem (suc s.total_size) s.memory wanted 0 s.head bs 0 (add64 s.total_size 1) v.chain
        (omega (arith, v.base))
        (omega (arith, v.whole, length-le-total s.memory 0 s.head bs 0 v.chain)))

  module _ (xs : List Block) (b : Block) (ys : List Block) (e : bs ≡ xs ++ b ∷ ys) where
    pub block_room : header_size ≤ b.size
    block_room =
        (Seg-split s.memory 0 s.head xs (b ∷ ys) 0
          (subst (λ l. Seg s.memory 0 s.head l 0) e v.chain)).1.0.0

    -- Where a block of a valid allocator lies.
    pub block_bounds :
        (s.head ≤ end_of s.head xs) × (end_of s.head xs + b.size ≤ s.head + s.total_size)
    block_bounds =
        let t = ap total e ∙ total-append xs (b ∷ ys) in
        (omega (arith, end_of-eq s.head xs), omega (arith, end_of-eq s.head xs, t, v.whole))

  -- Taking a large enough free block keeps the allocator valid.
  pub take_block-IsValid :
      (xs : List Block) (n : ℕ) (ys : List Block) (wanted : ℕ)
      → bs ≡ xs ++ unused n ∷ ys
      → IsBlockSize wanted
      → wanted ≤ n
      → IsValid
          (record s { memory = take_block (end_of s.head xs) wanted s.memory })
          (xs ++ used (given wanted n) ∷ (remainder wanted n ++ ys))
  take_block-IsValid xs n ys wanted e ok fits =
      let (lo, hi) = block_bounds xs (unused n) ys e in
      record {
        base = v.base;
        chain =
            take_block-Seg s.memory s.head wanted n xs ys
              (subst (λ l. Seg s.memory 0 s.head l 0) e v.chain) (omega (arith, v.base)) ok fits lo
              (omega (arith, v.inside));
        whole = omega (
          arith,
          v.whole,
          ap total e,
          total-append xs (unused n ∷ ys),
          total-append xs (used (given wanted n) ∷ (remainder wanted n ++ ys)),
          total-append (remainder wanted n) ys,
          given-total wanted n fits,
        );
        some_size = v.some_size;
        inside = v.inside;
        settled = given-Settled false xs ys wanted n (subst (Settled false) e v.settled);
      }

-- On a valid allocator a request of at least one byte, whose rounded size does not wrap around, is
-- answered: by `nullptr` and no change where no free block is large enough, and otherwise with the
-- first of the smallest free blocks that are. The allocator stays valid, and only the chosen block
-- changes.
pub alloc-Allocated :
    (s : BestFitAllocator) (bs : List Block) (size : ℕ)
    → IsValid s bs
    → 0 < size
    → size + 39 < word
    → Allocated s bs (aligned_size size) (alloc s size)
alloc-Allocated s bs size v pos small = go (search-Found s bs v (aligned_size size))
  where
    bounds :
        (size + header_size ≤ aligned_size size)
        × (aligned_size size < size + 40)
        × (aligned_size size % 8 ≡ 0)
    bounds = aligned_size_bounds size small

    answer :
        (r : ℕ)
        → search_result s (aligned_size size) ≡ some r
        → Found (aligned_size size) (add64 s.total_size 1) s.head bs 0 r
        → Allocated s bs (aligned_size size) (alloc s size)
    answer r e (kept e' all) = refused (alloc_refused s size pos (e ∙ ap some e')) (
        none_fits (aligned_size size) (add64 s.total_size 1) bs
          (omega (arith, v.whole, v.inside, v.base)) all)
    answer r e (found xs b ys eq at lt best) =
        let eb : b ≡ unused b.size = ground arith in
        let eq' = eq ∙ ap (λ c. xs ++ c ∷ ys) eb in
        let (lo, hi) = block_bounds s bs v xs b ys eq in
        let at' : add64 r header_size ≡ end_of s.head xs + header_size = omega (arith, bounds) in
        placed xs b.size ys _ eq'
          (record { unused = refl; large = best.large; earlier = best.earlier; later = best.later })
          (alloc_placed s size r pos (omega (arith, v.base)) e ∙ cc) refl
          (take_block-IsValid s bs v xs b.size ys (aligned_size size) eq'
            (omega (arith, bounds), bounds.2) best.large)

    go :
        (r : ℕ) × (search_result s (aligned_size size) ≡ some r)
          × Found (aligned_size size) (add64 s.total_size 1) s.head bs 0 r
        → Allocated s bs (aligned_size size) (alloc s size)
    go (r, e, f) = answer r e f
