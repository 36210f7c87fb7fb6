-- ===== src/McKusick/Buckets.antt =====
-- `get_bucket_index`, `get_required_pages` and `find_page_info` of Labs/CP/src/Mckusey-Carels.cpp.
use mai_os_labs.Prelude.{
  ℕ, zero, suc, ◌+◌, ◌-◌, ◌*◌, ◌/◌, ◌%◌, ◌^◌, ◌≤◌, ◌<◌, ◌≡◌, ◌⊎◌, inl, inr, refl, subst, Bool,
  sub64, true, false, ◌&&◌, ◌||◌, Option, none, some, arith, ltb, leb, ◌==◌, word, Bool-cases,
}
use mai_os_labs.McKusick.{
  McKusickAllocator, get_bucket_index, get_required_pages, find_page_info, find_consecutive_pages,
  alloc, alloc_small, alloc_large, min_block_size, max_block_size, page_size, bucket_count,
}

-- Whether a bucket is the smallest whose blocks hold `size` bytes.
is_smallest : ℕ → Option ℕ → Bool
is_smallest size none = false
is_smallest size (some b) =
    ltb b bucket_count
    && leb size (min_block_size * 2 ^ b)
    && (b == 0 || ltb (min_block_size * 2 ^ (b - 1)) size)

all_sizes : ℕ → Bool
all_sizes zero = true
all_sizes (suc n) = is_smallest (n + 2) (get_bucket_index (n + 2)) && all_sizes n

-- Every size is checked by evaluation.
all_sizes_ok : all_sizes 4095 ≡ true
unfolding all_sizes is_smallest get_bucket_index
all_sizes_ok = refl

all_sizes_sound :
    (n size : ℕ)
    → all_sizes n ≡ true
    → 2 ≤ size
    → size < n + 2
    → is_smallest size (get_bucket_index size) ≡ true
unfolding all_sizes
all_sizes_sound zero size h lo hi = absurd (omega arith)
all_sizes_sound (suc n) size h lo hi = elim (Bool-cases (size == n + 2)) [
  | inl e ↦
      let same : n + 2 ≡ size = ground arith in
      subst (λ k. is_smallest k (get_bucket_index k) ≡ true) same (ground arith)
  | inr ne ↦ all_sizes_sound n size (ground arith) lo (ground arith)
]

smallest_bucket :
    (size : ℕ) (r : Option ℕ)
    → is_smallest size r ≡ true
    → (b : ℕ) × (r ≡ some b)
      × (b < bucket_count)
      × (size ≤ min_block_size * 2 ^ b)
      × ((b ≡ 0) ⊎ (min_block_size * 2 ^ (b - 1) < size))
unfolding is_smallest
smallest_bucket size none h = cc
smallest_bucket size (some b) h = (b, refl, ground arith, ground arith, ground arith)

-- For 2 to 4096 bytes there is a bucket, one of the eight, and it is the one whose blocks are the smallest that hold the
-- request.
pub get_bucket_index-smallest :
    (size : ℕ)
    → 2 ≤ size
    → size ≤ max_block_size
    → (b : ℕ) × (get_bucket_index size ≡ some b)
      × (b < bucket_count)
      × (size ≤ min_block_size * 2 ^ b)
      × ((b ≡ 0) ⊎ (min_block_size * 2 ^ (b - 1) < size))
get_bucket_index-smallest size lo hi =
    smallest_bucket size (get_bucket_index size)
      (all_sizes_sound 4095 size all_sizes_ok lo (omega arith))

one_undefined : get_bucket_index 1 ≡ none
unfolding get_bucket_index
one_undefined = refl

-- A request for one byte counts the leading zeros of 0, which is undefined.
pub alloc-one_undefined : (s : McKusickAllocator) → alloc 1 s ≡ none
unfolding alloc alloc_small
alloc-one_undefined s = rw (alloc_small, one_undefined)

-- For a size above 0 whose sum with a page does not wrap around, the pages asked for are the least
-- number that holds the request.
pub get_required_pages_bounds :
    (size : ℕ)
    → 0 < size
    → size + page_size ≤ word
    → (size ≤ get_required_pages size * page_size)
      × (get_required_pages size * page_size < size + page_size)
unfolding get_required_pages
get_required_pages_bounds size lo hi = (omega arith, omega arith)

no_pages : (size : ℕ) → word < size + page_size → size < word → get_required_pages size ≡ 0
unfolding get_required_pages
no_pages size lo hi = omega arith

large_refused :
    (size : ℕ) (s : McKusickAllocator) → get_required_pages size ≡ 0 → alloc_large size s ≡ (0, s)
unfolding alloc_large find_consecutive_pages
large_refused size s e = rw (alloc_large, e)

-- Where the sum of `get_required_pages` wraps around, no page is asked for, and the request is
-- refused with no change.
pub alloc-wraps_refused :
    (size : ℕ) (s : McKusickAllocator)
    → word < size + page_size
    → size < word
    → alloc size s ≡ some (0, s)
unfolding alloc
alloc-wraps_refused size s lo hi = ground (arith, large_refused size s (no_pages size lo hi))

module _ (s : McKusickAllocator) (n : ℕ) where
  -- A pointer to any byte of the `i`-th page, where the pages are aligned and fit into the address
  -- space, has the `i`-th page info.
  pub find_page_info_inside :
      (i offset : ℕ)
      → s.total_pages - s.total_meta_pages ≡ n
      → s.initial_memory % page_size ≡ 0
      → s.initial_memory + n * page_size ≤ word
      → i < n
      → offset < page_size
      → find_page_info (s.initial_memory + i * page_size + offset) s ≡ some i
  unfolding find_page_info
  find_page_info_inside i offset e aligned inside lt small =
      let index : sub64 ((s.initial_memory + i * page_size + offset) / page_size * page_size)
              s.initial_memory
            / page_size
          ≡ i =
        omega arith in
      let room : leb (s.total_pages - s.total_meta_pages) i ≡ false = ground arith in
      rw (find_page_info, index, room)

  -- A pointer below or behind the pages, where these are aligned and fit into the address space,
  -- has no page info: the difference of addresses that wraps around is out of range too.
  pub find_page_info_outside :
      (ptr : ℕ)
      → s.total_pages - s.total_meta_pages ≡ n
      → s.initial_memory % page_size ≡ 0
      → s.initial_memory + n * page_size ≤ word
      → ptr < word
      → (ptr < s.initial_memory) ⊎ (s.initial_memory + n * page_size ≤ ptr)
      → find_page_info ptr s ≡ none
  unfolding find_page_info
  find_page_info_outside ptr e aligned inside small out =
      let index : n ≤ sub64 (ptr / page_size * page_size) s.initial_memory / page_size =
        omega arith in
      ground (arith, index)
