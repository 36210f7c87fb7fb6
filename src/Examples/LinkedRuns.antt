-- ===== src/Examples/LinkedRuns.antt =====
-- Concrete histories of Labs/CP/src/Mckusey-Carels.cpp by pointers: four free pages from the address
-- 65536 on.
use mai_os_labs.Prelude.{
  ℕ, ◌+◌, ◌*◌, ◌≡◌, refl, sym, subst, false, List, [], ◌∷◌, Option, some, arith, inl, inr,
}
use mai_os_labs.McKusick
use mai_os_labs.McKusick.{McKusickAllocator, bucket_count}
use mai_os_labs.McKusick.Ownership.{Owners, free_page, Allocation, IsSound}
use mai_os_labs.McKusick.Start.{new_state-IsSound, block_pages, no_block}
use mai_os_labs.McKusick.Linked.{Linked, link_infos, write}
use mai_os_labs.McKusick.Linked
use mai_os_labs.McKusick.Linked.Chain.{Chain, write_other}
use mai_os_labs.McKusick.Linked.Spelling.{Links, linked, Represents}
use mai_os_labs.McKusick.Session.{Session}
use mai_os_labs.McKusick.Linked.Calls.{exchanges, requested, LinkedSession, begun, granted, written}
use mai_os_labs.McKusick.Linked.Histories.{AgreesOnNext, Serves, LinkedSession-Session}
use mai_os_labs.McKusick.Linked.Start.{init-Serves}

abbrev mapping : ℕ → Option ℕ
mapping size = some 61440

abbrev zeros : ℕ → ℕ
zeros x = 0

init-Serves_example :
    (l₀ : Linked) × (Linked.init mapping zeros zeros 20480 ≡ some l₀)
    × ((l : Linked) (held : List Allocation)
        → LinkedSession l₀ l held
        → Serves (block_pages 20480) l held)
init-Serves_example =
    init-Serves mapping zeros zeros 20480 61440 (omega arith) (omega arith) refl refl (omega arith)

abbrev pages : McKusickAllocator
pages = record {
  freelistarr = [] ∷ [] ∷ [] ∷ [] ∷ [] ∷ [] ∷ [] ∷ [] ∷ [];
  free_page_info = 0 ∷ 1 ∷ 2 ∷ 3 ∷ [];
  page_infos = λ i. record { page_addr = 65536 + i * 4096; size = 0; is_start_of_buffer = false };
  initial_memory = 65536;
  total_pages = 5;
  total_meta_pages = 1;
}

abbrev unowned : Owners
unowned i = free_page

pages-IsSound : IsSound 4 unowned pages []
unfolding McKusick.meta_pages
pages-IsSound = new_state-IsSound 61440 5 (omega arith) refl (omega arith)

abbrev links : Links
links = record { heads = zeros; first = 1; block_next = zeros; page_next = link_infos 3 1 zeros }

links-Represents : Represents (linked links pages) pages
links-Represents = (
  links,
  refl,
  record {
    blocks = λ b lt. subst (Chain zeros 0) (sym (no_block bucket_count b)) refl;
    pages = (
      refl,
      (λ e. absurd (omega arith)),
      (
        refl,
        (λ e. absurd (omega arith)),
        (refl, (λ e. absurd (omega arith)), (refl, (λ e. absurd (omega arith)), refl)),
      ),
    );
  },
)

granted_100 : (t : Linked) × (Linked.alloc 100 (linked links pages) ≡ some (65536, t))
unfolding Linked.alloc Linked.alloc_small Linked.split_page Linked.link_blocks
    McKusick.get_bucket_index McKusick.clzl McKusick.bit_length McKusick.ctz
granted_100 = (_, refl)

abbrev held_100 : List Allocation
held_100 = record { ptr = 65536; size = 100 } ∷ []

-- The client writes to the first word of its block, where the pointer to the next block was.
abbrev first_word : ℕ → ℕ
first_word = write granted_100.0.block_next 65536 7

one_write :
    LinkedSession (linked links pages) (record granted_100.0 { block_next = first_word }) held_100
one_write =
    written first_word
      (granted 100 65536 begun (omega arith) granted_100.1 (λ e. absurd (omega arith)))
      λ x apart. write_other granted_100.0.block_next 65536 7 x (λ e. elim apart.0 [
        | inl before ↦ absurd (omega arith)
        | inr behind ↦ absurd (omega arith)
      ])

LinkedSession-Session_example :
    (s : McKusickAllocator) × (h : Session pages s held_100) × (exchanges h
      ≡ requested 100 65536 ∷ [])
    × Represents (record granted_100.0 { block_next = first_word }) s
    × AgreesOnNext 4 unowned pages
        (linked links pages)
        pages-IsSound
        links-Represents
        (record granted_100.0 { block_next = first_word })
        held_100
        s
unfolding one_write
LinkedSession-Session_example =
    LinkedSession-Session 4 unowned pages (linked links pages) pages-IsSound links-Represents
      (record granted_100.0 { block_next = first_word }) held_100 one_write
