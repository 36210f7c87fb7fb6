-- ===== src/Examples/BlockRuns.antt =====
-- Concrete histories of Labs/CP/src/Mckusey-Carels.cpp: four free pages from the address 65536 on.
use mai_os_labs.Prelude.{ℕ, ◌+◌, ◌*◌, ◌≡◌, refl, false, List, [], ◌∷◌, Option, some, arith}
use mai_os_labs.McKusick
use mai_os_labs.McKusick.{McKusickAllocator, page_size, alloc, free, init, indices}
use mai_os_labs.McKusick.Ownership.{Owners, free_page, Every, Allocation, IsSound, bucket}
use mai_os_labs.McKusick.Ownership.Regions.{IsInside, AreDisjoint}
use mai_os_labs.McKusick.RoundTrip.{used_state}
use mai_os_labs.McKusick.Session.{Session, start, granted_alloc, Session-AreDisjoint}
use mai_os_labs.McKusick.Start.{init-IsSound, block_pages, new_state-IsSound}

abbrev pages_from_65536 : ℕ → Option ℕ
pages_from_65536 size = some 65536

init-IsSound_example :
    (owner : Owners) × (s : McKusickAllocator) × (init pages_from_65536 20480 ≡ some s)
    × IsSound (block_pages 20480) owner s []
    × (s.free_page_info ≡ indices 0 (block_pages 20480))
    × ((page : ℕ) → owner page ≡ free_page)
    × ((b : ℕ) → bucket b s ≡ [])
init-IsSound_example =
    init-IsSound pages_from_65536 20480 65536 (omega arith) (omega arith) refl refl (omega arith)

abbrev empty_pages : McKusickAllocator
empty_pages = record {
  freelistarr = [] ∷ [] ∷ [] ∷ [] ∷ [] ∷ [] ∷ [] ∷ [] ∷ [];
  free_page_info = 0 ∷ 1 ∷ 2 ∷ 3 ∷ [];
  page_infos = λ i. record { page_addr = 65536 + i * 4096; size = 0; is_start_of_buffer = false };
  initial_memory = 65536;
  total_pages = 5;
  total_meta_pages = 1;
}

abbrev no_owner : Owners
no_owner i = free_page

empty_pages-IsSound : IsSound 4 no_owner empty_pages []
unfolding McKusick.meta_pages
empty_pages-IsSound = new_state-IsSound 61440 5 (omega arith) refl (omega arith)

abbrev after_5000 : McKusickAllocator
after_5000 = used_state 5000 2 0 (2 ∷ 3 ∷ []) empty_pages

granted_5000 : alloc 5000 empty_pages ≡ some (65536, after_5000)
unfolding alloc McKusick.alloc_large McKusick.find_consecutive_pages McKusick.find_range
    McKusick.walk_pages McKusick.mark_range McKusick.get_required_pages
granted_5000 = refl

abbrev held_5000 : List Allocation
held_5000 = record { ptr = 65536; size = 5000 } ∷ []

one_request : Session empty_pages after_5000 held_5000
one_request = granted_alloc 5000 65536 start (omega arith) granted_5000 (λ e. absurd (omega arith))

Session-AreDisjoint_example :
    Every (IsInside after_5000.initial_memory 4) held_5000 × AreDisjoint held_5000
Session-AreDisjoint_example =
    Session-AreDisjoint 4 no_owner empty_pages empty_pages-IsSound after_5000 held_5000 one_request
