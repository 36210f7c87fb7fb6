-- ===== src/McKusick/Ownership/SmallRequests.antt =====
-- `alloc` of Labs/CP/src/Mckusey-Carels.cpp for requests up to a page: a block of the bucket, or of a
-- page that is split for it.
use mai_os_labs.Prelude.{
  ℕ, zero, suc, ◌+◌, ◌/◌, ◌<◌, ◌≤◌, ◌≡◌, ◌≢◌, ◌⊎◌, refl, sym, ap, subst, ◌∙◌, List, [], ◌∷◌, some,
  arith, set, length, inl, inr,
}
use mai_os_labs.McKusick.{
  McKusickAllocator, page_size, max_block_size, bucket_count, refill_bucket, alloc, alloc_small,
  pop_block, get_bucket_index, blocks_from,
}
use mai_os_labs.McKusick.Buckets.{get_bucket_index-smallest}
use mai_os_labs.McKusick.Ownership.{
  Owners, Allocation, block_size, Every, IsBlock, bucket, IsSound, get_or-set_self,
}
use mai_os_labs.McKusick.Ownership.Moves.{IsSound-pop, with_buckets}
use mai_os_labs.McKusick.Ownership.SmallAlloc.{
  split_owner, split_page_lem, refilled, blocks_per_page, in_bucket, IsSound-refilled,
}

-- A request is refused with no change, or it is granted and the state stays sound.
abbrev pub Answered : ℕ → ℕ → McKusickAllocator → List Allocation → Type 0
Answered n size s held =
    (alloc size s ≡ some (0, s))
    ⊎ ((ptr : ℕ) × (t : McKusickAllocator) × (owner : Owners) × (alloc size s ≡ some (ptr, t))
        × (ptr ≢ 0)
        × IsSound n owner t (record { ptr = ptr; size = size } ∷ held))

module _ (size b : ℕ) (s : McKusickAllocator) (lo : 2 ≤ size) (hi : size ≤ max_block_size)
    (index : get_bucket_index size ≡ some b) where
  pub is_small : alloc size s ≡ alloc_small size s
  unfolding alloc
  is_small = ground arith

  pub popped :
      (t : McKusickAllocator) (x : ℕ) (rest : List ℕ)
      → bucket b t ≡ x ∷ rest
      → pop_block b t ≡ (x, with_buckets (set t.freelistarr b rest) t)
  popped t x rest e = cc e

  pub not_popped : (t : McKusickAllocator) → bucket b t ≡ [] → pop_block b t ≡ (0, t)
  not_popped t e = cc e

  pub not_refilled : s.free_page_info ≡ [] → refill_bucket b s ≡ some s
  unfolding refill_bucket
  not_refilled f = cc f

  pub refilled_by :
      (page : ℕ) (rest : List ℕ)
      → b < bucket_count
      → s.free_page_info ≡ page ∷ rest
      → refill_bucket b s ≡ some (refilled page b rest s)
  unfolding refill_bucket
  refilled_by page rest h f = cc (f, split_page_lem page b rest s h)

  pub from_bucket :
      (x : ℕ) (rest : List ℕ)
      → bucket b s ≡ x ∷ rest
      → alloc_small size s ≡ some (x, with_buckets (set s.freelistarr b rest) s)
  unfolding alloc_small
  from_bucket x rest e = rw (alloc_small, index, e) (ap some (popped s x rest e))

  pub after_refill :
      (t : McKusickAllocator)
      → bucket b s ≡ []
      → refill_bucket b s ≡ some t
      → alloc_small size s ≡ some (pop_block b t)
  unfolding alloc_small
  after_refill t e f = rw (alloc_small, index, e, f) refl

pub some_blocks :
    (count a size : ℕ) → 0 < count → (x : ℕ) × (l : List ℕ) × (blocks_from count a size ≡ x ∷ l)
unfolding blocks_from
some_blocks zero a size h = absurd (omega arith)
some_blocks (suc count) a size h = (a, blocks_from count (a + size) size, refl)

not_null_block :
    (n : ℕ) (owner : Owners) (s : McKusickAllocator) (held : List Allocation) (b x : ℕ)
    (rest : List ℕ)
    → IsSound n owner s held
    → b < bucket_count
    → bucket b s ≡ x ∷ rest
    → x ≢ 0
not_null_block n owner s held b x rest o h e zero_ptr =
    let block = (subst (Every (IsBlock owner s.initial_memory n b)) e (o.blocks b h)).0 in
    absurd (omega (arith, block.address, o.laid.not_null))

-- A request of 2 to 4096 bytes is answered.
pub small_request :
    (n : ℕ) (owner : Owners) (s : McKusickAllocator) (held : List Allocation) (size : ℕ)
    → IsSound n owner s held
    → 2 ≤ size
    → size ≤ max_block_size
    → Answered n size s held
small_request n owner s held size o lo hi =
    let (b, index, inside, fits, least) = get_bucket_index-smallest size lo hi in
    at_bucket b index inside fits (bucket b s) refl
  where
    at_page :
        (b : ℕ)
        → get_bucket_index size ≡ some b
        → b < bucket_count
        → size ≤ block_size b
        → bucket b s ≡ []
        → (l : List ℕ) → s.free_page_info ≡ l
        → Answered n size s held
    at_page b index inside fits e [] f = inl (
        is_small size b s lo hi index
        ∙ after_refill size b s lo hi index s e (not_refilled size b s lo hi index f)
        ∙ ap some (not_popped size b s lo hi index s e))
    at_page b index inside fits e (page ∷ rest) f =
        let t = refilled page b rest s in
        let (x, l, g) =
          some_blocks (page_size / block_size b) (s.page_infos page).page_addr (block_size b)
            (blocks_per_page b inside).0 in
        let room : b < length s.freelistarr = subst (λ k. b < k) (sym o.buckets) inside in
        let filled : bucket b t ≡ x ∷ l =
          get_or-set_self s.freelistarr b _ room
          ∙ sym (in_bucket n owner s held o b page rest inside e f)
          ∙ g in
        let sound = IsSound-refilled n owner s held o b page rest inside e f in
        inr (
          x,
          with_buckets (set t.freelistarr b l) t,
          split_owner page b owner,
          is_small size b s lo hi index
              ∙ after_refill size b s lo hi index t e
                  (refilled_by size b s lo hi index page rest inside f)
              ∙ ap some (popped size b s lo hi index t x l filled),
          not_null_block n _ t held b x l sound inside filled,
          IsSound-pop n _ t held b size x l sound inside fits filled,
        )

    at_bucket :
        (b : ℕ)
        → get_bucket_index size ≡ some b
        → b < bucket_count
        → size ≤ block_size b
        → (l : List ℕ) → bucket b s ≡ l
        → Answered n size s held
    at_bucket b index inside fits [] e = at_page b index inside fits e s.free_page_info refl
    at_bucket b index inside fits (x ∷ rest) e = inr (
      x,
      with_buckets (set s.freelistarr b rest) s,
      owner,
      is_small size b s lo hi index ∙ from_bucket size b s lo hi index x rest e,
      not_null_block n owner s held b x rest o inside e,
      IsSound-pop n owner s held b size x rest o inside fits e,
    )
