-- ===== src/McKusick/Linked/SmallFree.antt =====
-- `free` of Labs/CP/src/Mckusey-Carels.cpp up to a page, by pointers.
use mai_os_labs.Prelude.{
  ℕ, suc, ◌<◌, ◌≤◌, ◌≡◌, ◌≢◌, refl, sym, ap, subst, ◌∙◌, true, false, List, ◌∷◌, some, arith,
  length, ◌==◌, leb,
}
use mai_os_labs.McKusick.{
  McKusickAllocator, bucket_count, max_block_size, get_bucket_index, find_page_info,
}
use mai_os_labs.McKusick.Ownership.{
  Owners, Allocation, block_size, IsNew, IsBlock, bucket, IsSound, bucket_set,
}
use mai_os_labs.McKusick.Ownership.Moves.{bucket_of_block, free_held_block, found_page}
use mai_os_labs.McKusick.Blocks.{pushed}
use mai_os_labs.McKusick.Linked.{Linked, write, take_first}
use mai_os_labs.McKusick.Linked
use mai_os_labs.McKusick.Linked.Chain.{Chain, write_self, write_other, Chain-write, Chain-push}
use mai_os_labs.McKusick.Linked.Spelling.{Links, linked, Spells, FreeRefined}

-- The pointers after a block was put in front of a bucket.
abbrev given : ℕ → ℕ → Links → Links
given ptr b k = record k {
  heads = write k.heads b ptr;
  block_next = write k.block_next ptr (k.heads b);
}

module _ (n : ℕ) (owner : Owners) (s : McKusickAllocator) (held : List Allocation)
    (o : IsSound n owner s held) (k : Links) (r : Spells k s) where
  pub page_linked :
      (ptr page : ℕ)
      → find_page_info ptr s ≡ some page
      → Linked.find_page_info ptr (linked k s) ≡ suc page
  unfolding find_page_info Linked.find_page_info
  page_linked ptr page e = ground arith

  free_linked :
      (ptr page b : ℕ)
      → ptr ≢ 0
      → Linked.find_page_info ptr (linked k s) ≡ suc page
      → (s.page_infos page).size ≤ max_block_size
      → get_bucket_index (s.page_infos page).size ≡ some b
      → Linked.free ptr (linked k s) ≡ some (linked (given ptr b k) (pushed ptr b s))
  unfolding Linked.free Linked.free_block
  free_linked ptr page b ne found small index =
      let ptr' : (ptr == 0) ≡ false = ground arith in
      let page' : (suc page == 0) ≡ false = ground arith in
      let small' : leb (s.page_infos page).size max_block_size ≡ true = ground arith in
      rw (Linked.free, found, ptr', page', small', Linked.free_block, index) refl

  -- A held small block is given back.
  pub small-FreeRefined :
      (h : Allocation) (b : ℕ)
      → ((c : ℕ) → c < bucket_count → IsNew h.ptr (bucket c s))
      → IsBlock owner s.initial_memory n b h.ptr
      → FreeRefined h.ptr (linked k s) s
  small-FreeRefined h b new block =
      let (inside, e) = free_held_block n owner s held b h.ptr o block in
      let room : b < length s.freelistarr = subst (λ m. b < m) (sym o.buckets) inside in
      let (size, in_range) = o.sizes block.page b block.page_inside block.owned in
      let not_null : h.ptr ≢ 0 = λ z. absurd (omega (arith, block.address, o.laid.not_null)) in
      let low : block_size b ≤ max_block_size = omega (arith, block.fits) in
      (
        pushed h.ptr b s,
        linked (given h.ptr b k) (pushed h.ptr b s),
        e,
        free_linked h.ptr block.page b not_null
            (page_linked h.ptr block.page (found_page n owner s held b h.ptr o block))
            (subst (λ m. m ≤ max_block_size) (sym size) low)
            (ap get_bucket_index size ∙ bucket_of_block b inside),
        (
          given h.ptr b k,
          refl,
          record {
            blocks =
                bucket_set (λ c. Chain (given h.ptr b k).block_next (write k.heads b h.ptr c))
                  s.freelistarr b _ room
                  (subst (λ p. Chain (given h.ptr b k).block_next p (h.ptr ∷ bucket b s))
                    (sym (write_self k.heads b h.ptr))
                    (Chain-push k.block_next h.ptr (k.heads b) (bucket b s) not_null (new b inside)
                      (r.blocks b inside)))
                  λ c ne lt.
                    subst (λ p. Chain (given h.ptr b k).block_next p (bucket c s))
                      (sym (write_other k.heads b h.ptr c ne))
                      (Chain-write k.block_next h.ptr (k.heads b) (k.heads c) (bucket c s)
                        (new c lt) (r.blocks c lt));
            pages = r.pages;
          },
        ),
      )
