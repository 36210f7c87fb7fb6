-- ===== src/McKusick/Ownership/SmallAlloc.antt =====
-- A free page is split for an empty bucket, and a block is taken: `alloc` of
-- Labs/CP/src/Mckusey-Carels.cpp for requests up to a page.
use mai_os_labs.Prelude.{
  ℕ, zero, suc, ◌+◌, ◌*◌, ◌/◌, ◌<◌, ◌≤◌, ◌≡◌, ◌≢◌, sym, ap, subst, ◌∙◌, true, false, List, [], ◌∷◌,
  ◌++◌, some, arith, set, get_or, length, length-set, ◌==◌, if◌then◌else◌, Bool-cases, inl, inr,
  append-nil,
}
use mai_os_labs.McKusick.{
  McKusickAllocator, PageInfos, page_size, bucket_count, blocks_from, split_page, update,
}
use mai_os_labs.McKusick.Layout.{IsLaid, IsRising, AreBlank, IsRising-lower}
use mai_os_labs.McKusick.Ownership.{
  Owners, free_page, split_for, split_for-inj, Allocation, block_size, Every, IsNew, AreDistinct,
  IsBlock, IsGranted, pointers, bucket, IsSound, Every-weaken, bucket_set, block_size_pos,
}
use mai_os_labs.McKusick.Ownership.Moves.{bucket_of_block, Every-both}
use mai_os_labs.McKusick.Ownership.Refill.{
  IsBlock-kept, IsGranted-kept, split_not_free, part_not_free, page_of_held, AreBlank-kept,
  Every-rising, blocks-IsBlock, blocks_above, blocks_below, blocks-AreDistinct,
}

pub blocks_per_page :
    (b : ℕ)
    → b < bucket_count
    → (0 < page_size / block_size b) × (page_size / block_size b * block_size b ≤ page_size)
blocks_per_page zero h = (omega arith, omega arith)
blocks_per_page (suc zero) h = (omega arith, omega arith)
blocks_per_page (suc (suc zero)) h = (omega arith, omega arith)
blocks_per_page (suc (suc (suc zero))) h = (omega arith, omega arith)
blocks_per_page (suc (suc (suc (suc zero)))) h = (omega arith, omega arith)
blocks_per_page (suc (suc (suc (suc (suc zero))))) h = (omega arith, omega arith)
blocks_per_page (suc (suc (suc (suc (suc (suc zero)))))) h = (omega arith, omega arith)
blocks_per_page (suc (suc (suc (suc (suc (suc (suc zero))))))) h = (omega arith, omega arith)
blocks_per_page (suc (suc (suc (suc (suc (suc (suc (suc b)))))))) h = absurd (omega arith)

abbrev pub split_owner : ℕ → ℕ → Owners → Owners
split_owner page b owner i = if i == page then split_for b else owner i

abbrev split_infos : ℕ → ℕ → PageInfos → PageInfos
split_infos page b infos =
    update infos page (record (infos page) { size = block_size b; is_start_of_buffer = false })

abbrev pub page_blocks : ℕ → ℕ → McKusickAllocator → List ℕ
page_blocks page b s =
    blocks_from (page_size / block_size b) (s.page_infos page).page_addr (block_size b)

-- The allocator after the page `page` was split.
abbrev pub refilled : ℕ → ℕ → List ℕ → McKusickAllocator → McKusickAllocator
refilled page b rest s = record s {
  freelistarr = set s.freelistarr b (page_blocks page b s ++ get_or s.freelistarr b []);
  free_page_info = rest;
  page_infos = split_infos page b s.page_infos;
}

split_infos-page_addr :
    (page b : ℕ) (infos : PageInfos) (i : ℕ)
    → (split_infos page b infos i).page_addr ≡ (infos i).page_addr
split_infos-page_addr page b infos i = elim (Bool-cases (i == page)) [
  | inl e ↦ let here : i ≡ page = ground arith in rw (e, here)
  | inr e ↦ rw e
]

pub split_page_lem :
    (page b : ℕ) (rest : List ℕ) (s : McKusickAllocator)
    → b < bucket_count
    → split_page page (block_size b) (record s { free_page_info = rest })
      ≡ some (refilled page b rest s)
unfolding split_page
split_page_lem page b rest s h = rw (split_page, bucket_of_block b h)

unless_page : (i page : ℕ) → i ≢ page → (i == page) ≡ false
unless_page i page h = elim (Bool-cases (i == page)) [
  | inl e ↦ absurd (h (ground arith))
  | inr e ↦ e
]

-- No block of a page that is free is held.
pub held_elsewhere :
    (owner : Owners) (base n : ℕ) (infos : PageInfos) (page y : ℕ) (held : List Allocation)
    → owner page ≡ free_page
    → base + page * page_size ≤ y
    → y < base + page * page_size + page_size
    → Every (IsGranted owner base n infos) held
    → IsNew y (pointers held)
held_elsewhere owner base n infos page y [] f lo hi g = tt
held_elsewhere owner base n infos page y (h ∷ held) f lo hi (g, gs) =
    let (i, inside, owned, low, high) = page_of_held owner base n infos h g in
    (
      (λ e. owned (subst (λ k. owner k ≡ free_page) (omega arith) f)),
      held_elsewhere owner base n infos page y held f lo hi gs,
    )

module _ (n : ℕ) (owner : Owners) (s : McKusickAllocator) (held : List Allocation)
    (o : IsSound n owner s held) (b page : ℕ) (rest : List ℕ) (inside : b < bucket_count)
    (empty : bucket b s ≡ []) (first : s.free_page_info ≡ page ∷ rest) where
  was_free : owner page ≡ free_page
  was_free = (subst (Every λ i. owner i ≡ free_page) first o.unowned).0

  rising_rest : (page < n) × IsRising (suc page) n rest
  rising_rest = let (lo, hi, r) = subst (IsRising 0 n) first o.laid.rising in (hi, r)

  other_page : (i : ℕ) → owner i ≢ free_page → (i == page) ≡ false
  other_page i owned =
      unless_page i page λ e. owned (subst (λ k. owner k ≡ free_page) (sym e) was_free)

  kept : (i : ℕ) → owner i ≢ free_page → split_owner page b owner i ≡ owner i
  kept i owned = rw (other_page i owned)

  same : (i : ℕ) → owner i ≢ free_page → split_infos page b s.page_infos i ≡ s.page_infos i
  same i owned = rw (other_page i owned)

  behind : (i : ℕ) → suc page ≤ i → (i == page) ≡ false
  behind i h = ground arith

  laid : IsLaid n (refilled page b rest s)
  laid = record {
    count = o.laid.count;
    not_null = o.laid.not_null;
    aligned = o.laid.aligned;
    inside = o.laid.inside;
    in_order = λ i lt. split_infos-page_addr page b s.page_infos i ∙ o.laid.in_order i lt;
    rising = IsRising-lower _ _ n rest (omega arith) rising_rest.1;
    blank =
        AreBlank-kept s.page_infos (split_infos page b s.page_infos) (suc page) n rest
          (λ i h. rw (behind i h)) rising_rest.1
          (let (size, start, blank) = subst (AreBlank s.page_infos) first o.laid.blank in blank);
  }

  sizes :
      (i c : ℕ)
      → i < n
      → split_owner page b owner i ≡ split_for c
      → ((split_infos page b s.page_infos i).size ≡ block_size c) × (c < bucket_count)
  sizes i c lt e = elim (Bool-cases (i == page)) [
    | inl here ↦
        let one : b ≡ c = split_for-inj (rw here at e) in
        rw here (ap block_size one, subst (λ k. k < bucket_count) one inside)
    | inr other ↦ rw other (o.sizes i c lt (rw other at e))
  ]

  abbrev address : ℕ
  address = (s.page_infos page).page_addr

  at_address : address ≡ s.initial_memory + page * page_size
  at_address = o.laid.in_order page rising_rest.0

  owned_page : split_owner page b owner page ≡ split_for b
  owned_page = let here : (page == page) ≡ true = ground arith in rw here

  new_blocks :
      Every (IsBlock (split_owner page b owner) s.initial_memory n b) (page_blocks page b s)
  new_blocks =
      subst
        (λ a.
          Every (IsBlock (split_owner page b owner) s.initial_memory n b)
            (blocks_from (page_size / block_size b) a (block_size b)))
        (omega (arith, at_address))
        (blocks-IsBlock (split_owner page b owner) s.initial_memory n b page
          (page_size / block_size b) 0 rising_rest.0 owned_page
          (omega (arith, (blocks_per_page b inside).1)))

  page_blocks-IsNew : Every (λ y. IsNew y (pointers held)) (page_blocks page b s)
  page_blocks-IsNew =
      Every-both _ _ _ (page_blocks page b s)
        (blocks_above (page_size / block_size b) address (block_size b))
        (blocks_below (page_size / block_size b) address (block_size b) (address + page_size)
          (block_size_pos b) (omega (arith, (blocks_per_page b inside).1)))
        λ y lo hi.
          held_elsewhere owner s.initial_memory n s.page_infos page y held was_free
            (omega (arith, at_address)) (omega (arith, at_address)) o.granted

  pub in_bucket : page_blocks page b s ≡ page_blocks page b s ++ get_or s.freelistarr b []
  in_bucket = sym (append-nil (page_blocks page b s)) ∙ ap (page_blocks page b s ++◌) (sym empty)

  pub IsSound-refilled : IsSound n (split_owner page b owner) (refilled page b rest s) held
  IsSound-refilled =
      let room : b < length s.freelistarr = subst (λ k. b < k) (sym o.buckets) inside in
      record {
        laid = laid;
        unowned =
            Every-rising (λ i. owner i ≡ free_page) _ (suc page) n rest
              (λ i h e. let other = behind i h in rw other e) rising_rest.1
              (let (free, others) = subst (Every λ i. owner i ≡ free_page) first o.unowned in
                others);
        sizes = sizes;
        granted =
            Every-weaken _ _ held
              (λ h.
                IsGranted-kept free_page owner _ s.initial_memory n s.page_infos
                  (split_infos page b s.page_infos) kept split_not_free same h
                  (λ k. part_not_free k.start))
              o.granted;
        held_apart = o.held_apart;
        buckets = length-set s.freelistarr b _ ∙ o.buckets;
        blocks =
            bucket_set (λ c. Every (IsBlock (split_owner page b owner) s.initial_memory n c))
              s.freelistarr b _ room
              (subst (Every (IsBlock (split_owner page b owner) s.initial_memory n b)) in_bucket
                new_blocks)
              λ c ne h.
                Every-weaken _ _ (bucket c s)
                  (IsBlock-kept free_page owner _ s.initial_memory n s.page_infos
                    (split_infos page b s.page_infos) kept split_not_free c)
                  (o.blocks c h);
        blocks_apart =
            bucket_set (λ c. AreDistinct) s.freelistarr b _ room
              (subst AreDistinct in_bucket (blocks-AreDistinct _ _ _ (block_size_pos b)))
              (λ c ne h. o.blocks_apart c h);
        blocks_unused =
            bucket_set (λ c. Every λ y. IsNew y (pointers held)) s.freelistarr b _ room
              (subst (Every λ y. IsNew y (pointers held)) in_bucket page_blocks-IsNew)
              (λ c ne h. o.blocks_unused c h);
      }
