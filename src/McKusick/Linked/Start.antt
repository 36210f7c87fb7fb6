-- ===== src/McKusick/Linked/Start.antt =====
-- The constructor of Labs/CP/src/Mckusey-Carels.cpp by pointers.
use mathlib.Core.Option.{some-injective, none-ne-some}
use mai_os_labs.Prelude.{
  ℕ, zero, suc, ◌+◌, ◌-◌, ◌*◌, ◌%◌, ◌<◌, ◌≤◌, ◌≡◌, ◌≢◌, inl, inr, refl, sym, ap, subst, ◌∙◌, true,
  false, List, ◌∷◌, Option, none, some, arith, ◌==◌, Bool-cases, Option-cases, mul64, word,
}
use mai_os_labs.McKusick.{
  McKusickAllocator, init, page_size, indices, meta_pages, blocks_from, bucket_count,
}
use mai_os_labs.McKusick.Start.{
  block_pages, init-IsSound, mapped_pages, few_meta_pages, no_block, new_state,
}
use mai_os_labs.McKusick.Ownership.{Allocation}
use mai_os_labs.McKusick.Linked.Calls.{LinkedSession}
use mai_os_labs.McKusick.Linked.Histories.{Serves, LinkedSession-Serves}
use mai_os_labs.McKusick.Linked.{Linked, link_infos, link_blocks}
use mai_os_labs.McKusick.Linked
use mai_os_labs.McKusick.Linked.Chain.{Chain, linked_cells, linked-Chain}
use mai_os_labs.McKusick.Linked.Spelling.{Links, linked, Spells, Represents, page_pointers}

-- The page infos are linked as the blocks of a page are.
link_infos-cells :
    (m page : ℕ) (next : ℕ → ℕ) → link_infos m page next ≡ linked_cells m page 1 0 next
unfolding link_blocks
link_infos-cells zero page next = refl
link_infos-cells (suc m) page next = link_infos-cells m (page + 1) _

pointers-indices : (i n : ℕ) → page_pointers (indices i n) ≡ blocks_from n (suc i) 1
unfolding blocks_from
pointers-indices i zero = refl
pointers-indices i (suc n) =
    ap (◌∷◌ (suc i)) (pointers-indices (suc i) n ∙ ap (λ j. blocks_from n j 1) (omega arith))

some_block_page : (total : ℕ) → total ≢ meta_pages total → meta_pages total < total
unfolding meta_pages
some_block_page zero ne = absurd (ne refl)
some_block_page (suc zero) ne = absurd (ne refl)
some_block_page (suc (suc t)) ne = few_meta_pages (suc (suc t)) (omega arith)

module _ (mmap : ℕ → Option ℕ) (block_cells info_cells : ℕ → ℕ) (memory_size : ℕ) where
  abbrev total : ℕ
  total = mapped_pages memory_size

  abbrev new_links : Links
  new_links = record {
    heads = λ b. 0;
    first = 1;
    block_next = block_cells;
    page_next = link_infos (total - meta_pages total - 1) 1 info_cells;
  }

  new-Spells : (memory : ℕ) → meta_pages total < total → Spells new_links (new_state memory total)
  new-Spells memory lt = record {
    blocks = λ b h. subst (Chain block_cells 0) (sym (no_block bucket_count b)) refl;
    pages =
        subst (λ l. Chain new_links.page_next 1 l)
          (ap (λ n. blocks_from n 1 1) (omega (arith, lt))
            ∙ sym (pointers-indices 0 (total - meta_pages total)))
          (subst (λ next. Chain next 1 (blocks_from (suc (total - meta_pages total - 1)) 1 1))
            (sym (link_infos-cells (total - meta_pages total - 1) 1 info_cells))
            (linked-Chain (total - meta_pages total - 1) 1 1 info_cells (omega arith)
              (omega arith)));
  }

  abbrev mapped : Option ℕ
  mapped = mmap (mul64 total page_size)

  no_mapping : mapped ≡ none → init mmap memory_size ≡ none
  unfolding init
  no_mapping e = rw (init, e) refl

  no_page :
      (memory : ℕ)
      → mapped ≡ some memory
      → (total == meta_pages total) ≡ true
      → init mmap memory_size ≡ none
  unfolding init
  no_page memory e f = rw (init, e, f) refl

  some_page :
      (memory : ℕ)
      → mapped ≡ some memory
      → (total == meta_pages total) ≡ false
      → (init mmap memory_size ≡ some (new_state memory total))
        × (Linked.init mmap block_cells info_cells memory_size
            ≡ some (linked new_links (new_state memory total)))
  unfolding init Linked.init
  some_page memory e f = (rw (init, e, f) refl, rw (Linked.init, e, f) refl)

  -- Where the constructor succeeds by lists, it does by pointers, whatever the new mapping contains, and
  -- the pointers are those of the lists.
  pub init_refined :
      (s : McKusickAllocator)
      → init mmap memory_size ≡ some s
      → (l : Linked) × (Linked.init mmap block_cells info_cells memory_size ≡ some l)
        × Represents l s
  init_refined s e = elim (Option-cases mapped) [
    | inl f ↦ absurd (none-ne-some s (sym (no_mapping f) ∙ e))
    | inr (memory, f) ↦ elim (Bool-cases (total == meta_pages total)) [
      | inl g ↦ absurd (none-ne-some s (sym (no_page memory f g) ∙ e))
      | inr g ↦
          let (by_lists, by_pointers) = some_page memory f g in
          let lt : meta_pages total < total = some_block_page total (ground arith) in
          (
            linked new_links (new_state memory total),
            by_pointers,
            subst (Represents (linked new_links (new_state memory total)))
                (some-injective _ _ (sym by_lists ∙ e)) (new_links, refl, new-Spells memory lt),
          )
    ]
  ]

-- Where more than a page is asked for, and its sum with a page does not wrap around, and mmap gives an
-- aligned mapping of the asked length within the address space, the constructor by pointers succeeds,
-- whatever the mapping contains. In every history of calls from there on, with writes of the client to
-- what it holds, the blocks held lie within the pages of the allocator and no two have a byte in common,
-- each request but that for one byte is answered, if its sum with a page does not wrap around, and each
-- held block can be given back: nothing is undefined, and every loop over pointers ends.
pub init-Serves :
    (mmap : ℕ → Option ℕ) (block_cells info_cells : ℕ → ℕ) (memory_size memory : ℕ)
    → page_size < memory_size
    → memory_size + page_size ≤ word
    → mmap (mul64 (mapped_pages memory_size) page_size) ≡ some memory
    → memory % page_size ≡ 0
    → memory + mapped_pages memory_size * page_size ≤ word
    → (l₀ : Linked) × (Linked.init mmap block_cells info_cells memory_size ≡ some l₀)
      × ((l : Linked) (held : List Allocation)
          → LinkedSession l₀ l held
          → Serves (block_pages memory_size) l held)
init-Serves mmap block_cells info_cells memory_size memory more fits given aligned inside =
    let (owner, s₀, e, o, all_pages, unowned, empty) =
      init-IsSound mmap memory_size memory more fits given aligned inside in
    let (l₀, f, r) = init_refined mmap block_cells info_cells memory_size s₀ e in
    (
      l₀,
      f,
      λ l held history.
          LinkedSession-Serves (block_pages memory_size) owner s₀ l₀ o r l held history,
    )
