-- ===== src/McKusick/Blocks.antt =====
-- `alloc` and `free` of Labs/CP/src/Mckusey-Carels.cpp on blocks up to a page.
use mai_os_labs.Prelude.{
  ℕ, zero, suc, ◌≤◌, ◌<◌, ◌≡◌, ◌≢◌, refl, ap, List, [], ◌∷◌, some, arith, length, get_or, set,
}
use mai_os_labs.McKusick.Ownership.{get_or-set_self}
use mai_os_labs.McKusick.{
  McKusickAllocator, alloc, alloc_small, free, free_block, find_page_info, get_bucket_index,
  max_block_size,
}

set-set-get_or :
    (arr : List (List ℕ)) (b : ℕ) (v : List ℕ) → set (set arr b v) b (get_or arr b []) ≡ arr
set-set-get_or [] b v = refl
set-set-get_or (x ∷ arr) zero v = refl
set-set-get_or (x ∷ arr) (suc b) v = ap (◌∷◌ x) (set-set-get_or arr b v)

-- The state after `ptr` went into the bucket `b`.
abbrev pub pushed : ℕ → ℕ → McKusickAllocator → McKusickAllocator
pushed ptr b s = record s { freelistarr = set s.freelistarr b (ptr ∷ get_or s.freelistarr b []) }

module _ (s : McKusickAllocator) (ptr page b : ℕ) where
  pub free_small :
      ptr ≢ 0
      → find_page_info ptr s ≡ some page
      → (s.page_infos page).size ≤ max_block_size
      → get_bucket_index (s.page_infos page).size ≡ some b
      → free ptr s ≡ some (pushed ptr b s)
  unfolding free free_block
  free_small ne found small bucket = ground arith

  alloc_pushed :
      (size : ℕ)
      → 0 < size
      → size ≤ max_block_size
      → get_bucket_index size ≡ some b
      → b < length s.freelistarr
      → alloc size (pushed ptr b s) ≡ some (ptr, s)
  unfolding alloc alloc_small
  alloc_pushed size pos small bucket room = ground (
    arith,
    get_or-set_self s.freelistarr b (ptr ∷ get_or s.freelistarr b []) room,
    set-set-get_or s.freelistarr b (ptr ∷ get_or s.freelistarr b []),
  )

  -- A pointer whose page is split into small blocks of the bucket `b` is given back, and the next
  -- request of a size that belongs to `b` is answered with it and leaves the allocator as it was
  -- before it was given back.
  pub alloc-free :
      (size : ℕ)
      → ptr ≢ 0
      → find_page_info ptr s ≡ some page
      → (s.page_infos page).size ≤ max_block_size
      → get_bucket_index (s.page_infos page).size ≡ some b
      → 0 < size
      → size ≤ max_block_size
      → get_bucket_index size ≡ some b
      → b < length s.freelistarr
      → (t : McKusickAllocator) × (free ptr s ≡ some t) × (alloc size t ≡ some (ptr, s))
  alloc-free size ne found page_small page_bucket pos small bucket room = (
    pushed ptr b s,
    free_small ne found page_small page_bucket,
    alloc_pushed size pos small bucket room,
  )
