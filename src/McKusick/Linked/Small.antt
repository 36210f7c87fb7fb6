-- ===== src/McKusick/Linked/Small.antt =====
-- `alloc` of Labs/CP/src/Mckusey-Carels.cpp up to a page, by pointers.
use mai_os_labs.Prelude.{
  ℕ, ◌/◌, ◌<◌, ◌≤◌, ◌≡◌, ◌≢◌, refl, sym, ap, subst, ◌∙◌, true, false, List, [], ◌∷◌, some, arith,
  set, length, ◌==◌,
}
use mai_os_labs.McKusick.{
  McKusickAllocator, page_size, bucket_count, max_block_size, get_bucket_index,
}
use mai_os_labs.McKusick.Ownership.{Owners, Allocation, block_size, bucket, IsSound, bucket_set}
use mai_os_labs.McKusick.Buckets.{get_bucket_index-smallest}
use mai_os_labs.McKusick.Ownership.Moves.{with_buckets}
use mai_os_labs.McKusick.Ownership.SmallAlloc.{refilled, blocks_per_page, IsSound-refilled}
use mai_os_labs.McKusick.Ownership.SmallRequests.{
  is_small, popped, not_popped, not_refilled, refilled_by, from_bucket, after_refill, some_blocks,
}
use mai_os_labs.McKusick.Linked.{Linked, write, take_first}
use mai_os_labs.McKusick.Linked
use mai_os_labs.McKusick.Linked.Chain.{Chain, write_self, write_other}
use mai_os_labs.McKusick.Linked.Refill.{split_links, split_page-linked, split-Spells, full_bucket}
use mai_os_labs.McKusick.Linked.Spelling.{Links, linked, Spells, AllocRefined, page_pointers}

-- The pointers after the first block of a bucket was taken.
abbrev taken : ℕ → Links → Links
taken b k = record k { heads = write k.heads b (k.block_next (k.heads b)) }

module _ (s : McKusickAllocator) (k : Links) (r : Spells k s) (b x : ℕ) (rest : List ℕ)
    (inside : b < bucket_count) (buckets : length s.freelistarr ≡ bucket_count)
    (e : bucket b s ≡ x ∷ rest) where
  abbrev at_head : Chain k.block_next (k.heads b) (x ∷ rest)
  at_head = subst (Chain k.block_next (k.heads b)) e (r.blocks b inside)

  take_first_lem :
      take_first b (linked k s)
      ≡ (x, linked (taken b k) (with_buckets (set s.freelistarr b rest) s))
  take_first_lem = ap (λ p. (p, linked (taken b k) s)) at_head.0

  taken-Spells : Spells (taken b k) (with_buckets (set s.freelistarr b rest) s)
  taken-Spells =
      let room : b < length s.freelistarr = subst (λ m. b < m) (sym buckets) inside in
      record {
        blocks =
            bucket_set (λ c. Chain k.block_next ((taken b k).heads c)) s.freelistarr b rest room
              (subst (λ p. Chain k.block_next p rest)
                (sym (write_self k.heads b _ ∙ ap k.block_next at_head.0)) at_head.2)
              λ c ne h.
                subst (λ p. Chain k.block_next p (bucket c s)) (sym (write_other k.heads b _ c ne))
                  (r.blocks c h);
        pages = r.pages;
      }

module _ (size b : ℕ) (l : Linked) (lo : 2 ≤ size) (hi : size ≤ max_block_size)
    (index : get_bucket_index size ≡ some b) where
  linked_is_small : Linked.alloc size l ≡ Linked.alloc_small size l
  unfolding Linked.alloc
  linked_is_small = ground arith

  linked_taken : l.freelistarr b ≢ 0 → Linked.alloc_small size l ≡ some (take_first b l)
  unfolding Linked.alloc_small
  linked_taken ne =
      let some_block : (l.freelistarr b == 0) ≡ false = ground arith in
      rw (Linked.alloc_small, index, some_block) refl

  linked_refused :
      l.freelistarr b ≡ 0 → l.free_page_info ≡ 0 → Linked.alloc_small size l ≡ some (0, l)
  unfolding Linked.alloc_small
  linked_refused no_block no_page =
      let no_block' : (l.freelistarr b == 0) ≡ true = ground arith in
      let no_page' : (l.free_page_info == 0) ≡ true = ground arith in
      rw (Linked.alloc_small, index, no_block', no_page') refl

  linked_refilled :
      (t : Linked)
      → l.freelistarr b ≡ 0
      → l.free_page_info ≢ 0
      → Linked.split_page l.free_page_info
          (block_size b)
          (record l { free_page_info = l.page_next l.free_page_info })
        ≡ some t
      → Linked.alloc_small size l ≡ some (take_first b t)
  unfolding Linked.alloc_small
  linked_refilled t no_block page split =
      let no_block' : (l.freelistarr b == 0) ≡ true = ground arith in
      let page' : (l.free_page_info == 0) ≡ false = ground arith in
      rw (Linked.alloc_small, index, no_block', page', split) refl

module _ (n : ℕ) (owner : Owners) (s : McKusickAllocator) (held : List Allocation)
    (o : IsSound n owner s held) (k : Links) (r : Spells k s) where
  -- A request of 2 to 4096 bytes.
  pub small-AllocRefined :
      (size : ℕ) → 2 ≤ size → size ≤ max_block_size → AllocRefined size (linked k s) s
  small-AllocRefined size lo hi =
      let (b, index, inside, fits, least) = get_bucket_index-smallest size lo hi in
      at_bucket b index inside (bucket b s) refl
    where
      at_page :
          (b : ℕ)
          → get_bucket_index size ≡ some b
          → b < bucket_count
          → bucket b s ≡ []
          → (l : List ℕ) → s.free_page_info ≡ l
          → AllocRefined size (linked k s) s
      at_page b index inside e [] f =
          let no_block = subst (Chain k.block_next (k.heads b)) e (r.blocks b inside) in
          let no_page = subst (λ l. Chain k.page_next k.first (page_pointers l)) f r.pages in
          (
            0,
            s,
            linked k s,
            is_small size b s lo hi index
                ∙ after_refill size b s lo hi index s e (not_refilled size b s lo hi index f)
                ∙ ap some (not_popped size b s lo hi index s e),
            linked_is_small size b (linked k s) lo hi index
                ∙ linked_refused size b (linked k s) lo hi index no_block no_page,
            (k, refl, r),
          )
      at_page b index inside e (page ∷ rest) f =
          let t = refilled page b rest s in
          let k' = split_links b (s.page_infos page).page_addr k in
          let (x, l, g) =
            some_blocks (page_size / block_size b) (s.page_infos page).page_addr (block_size b)
              (blocks_per_page b inside).0 in
          let full : bucket b t ≡ x ∷ l =
            full_bucket n owner s held o k r b page rest inside e f ∙ g in
          let sound = IsSound-refilled n owner s held o b page rest inside e f in
          let spelled = split-Spells n owner s held o k r b page rest inside e f in
          let no_block = subst (Chain k.block_next (k.heads b)) e (r.blocks b inside) in
          let one_page = subst (λ l. Chain k.page_next k.first (page_pointers l)) f r.pages in
          (
            x,
            with_buckets (set t.freelistarr b l) t,
            linked (taken b k') (with_buckets (set t.freelistarr b l) t),
            is_small size b s lo hi index
                ∙ after_refill size b s lo hi index t e
                    (refilled_by size b s lo hi index page rest inside f)
                ∙ ap some (popped size b s lo hi index t x l full),
            linked_is_small size b (linked k s) lo hi index
                ∙ linked_refilled size b (linked k s) lo hi index (linked k' t) no_block
                    (λ z. one_page.1 (sym one_page.0 ∙ z))
                    (split_page-linked n owner s held o k r b page rest inside e f)
                ∙ ap some (take_first_lem t k' spelled b x l inside sound.buckets full),
            (taken b k', refl, taken-Spells t k' spelled b x l inside sound.buckets full),
          )

      at_bucket :
          (b : ℕ)
          → get_bucket_index size ≡ some b
          → b < bucket_count
          → (l : List ℕ) → bucket b s ≡ l
          → AllocRefined size (linked k s) s
      at_bucket b index inside [] e = at_page b index inside e s.free_page_info refl
      at_bucket b index inside (x ∷ rest) e =
          let head = at_head s k r b x rest inside o.buckets e in
          let t = with_buckets (set s.freelistarr b rest) s in
          (
            x,
            t,
            linked (taken b k) t,
            is_small size b s lo hi index ∙ from_bucket size b s lo hi index x rest e,
            linked_is_small size b (linked k s) lo hi index
                ∙ linked_taken size b (linked k s) lo hi index (λ z. head.1 (sym head.0 ∙ z))
                ∙ ap some (take_first_lem s k r b x rest inside o.buckets e),
            (taken b k, refl, taken-Spells s k r b x rest inside o.buckets e),
          )
