-- ===== src/Examples/PageRuns.antt =====
-- Concrete runs of Labs/CP/src/Mckusey-Carels.cpp: four pages from the address 65536 on.
use mai_os_labs.Prelude.{ℕ, ◌+◌, ◌*◌, ◌≡◌, ◌≢◌, ◌⊎◌, refl, false, [], ◌∷◌, some, arith}
use mai_os_labs.McKusick
use mai_os_labs.McKusick.{
  McKusickAllocator, PageInfo, PageInfos, get_bucket_index, get_required_pages, find_page_info,
  find_range, insert_sorted, bucket_count, min_block_size, page_size,
}
use mai_os_labs.McKusick.Pages.{Range, range}
use mai_os_labs.McKusick.Layout.{IsLaid}
use mai_os_labs.McKusick.RoundTrip.{free-alloc_large}

-- The page 0 is split into blocks of 64 bytes.
abbrev page_table : PageInfos
page_table i = record { page_addr = 65536 + i * 4096; size = 64; is_start_of_buffer = false }

abbrev four_pages : McKusickAllocator
four_pages = record {
  freelistarr = [] ∷ (65600 ∷ []) ∷ [] ∷ [] ∷ [] ∷ [] ∷ [] ∷ [] ∷ [];
  free_page_info = 1 ∷ 2 ∷ 3 ∷ [];
  page_infos = page_table;
  initial_memory = 65536;
  total_pages = 5;
  total_meta_pages = 1;
}

bucket_of_64 : get_bucket_index 64 ≡ some 1
unfolding get_bucket_index McKusick.clzl McKusick.bit_length McKusick.ctz
bucket_of_64 = refl

two_pages : find_range page_table 2 (0 ∷ 2 ∷ 3 ∷ []) ≡ some (2, 0 ∷ [])
unfolding find_range McKusick.walk_pages
two_pages = refl

two_pages-Range : Range page_table 2 (0 ∷ 2 ∷ 3 ∷ []) 2 (0 ∷ [])
two_pages-Range = range (0 ∷ []) (3 ∷ []) [] refl refl refl (refl, tt)

page_of_65536 : find_page_info 65536 four_pages ≡ some 0
unfolding find_page_info
page_of_65536 = refl

abbrev blank_pages : McKusickAllocator
blank_pages = record four_pages {
  freelistarr = [] ∷ [] ∷ [] ∷ [] ∷ [] ∷ [] ∷ [] ∷ [] ∷ [];
  free_page_info = 0 ∷ 1 ∷ 2 ∷ 3 ∷ [];
  page_infos = λ i. record (page_table i) { size = 0 };
}

blank_pages-IsLaid : IsLaid 4 blank_pages
blank_pages-IsLaid = record {
  count = refl;
  not_null = omega arith;
  aligned = refl;
  inside = omega arith;
  in_order = λ i lt. omega arith;
  rising = (
    omega arith,
    omega arith,
    (omega arith, omega arith, (omega arith, omega arith, (omega arith, omega arith, tt))),
  );
  blank = (refl, refl, (refl, refl, (refl, refl, (refl, refl, tt))));
}

free-alloc_large_example :
    (McKusick.alloc 5000 blank_pages ≡ some (0, blank_pages))
    ⊎ ((ptr : ℕ) × (t : McKusickAllocator) × (McKusick.alloc 5000 blank_pages ≡ some (ptr, t))
        × (ptr ≢ 0)
        × (McKusick.free ptr t ≡ some blank_pages))
free-alloc_large_example =
    free-alloc_large 4 5000 blank_pages blank_pages-IsLaid (omega arith) (omega arith)
