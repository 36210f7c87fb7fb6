-- ===== src/McKusick/Ownership/LargeFree.antt =====
-- `free` of Labs/CP/src/Mckusey-Carels.cpp for blocks of several pages.
use mathlib.Core.List.{map-append}
use mai_os_labs.Prelude.{
  ℕ, zero, suc, ◌+◌, ◌*◌, ◌<◌, ◌≤◌, ◌≡◌, ◌≢◌, refl, sym, ap, subst, ◌∙◌, true, false, List, [], ◌∷◌,
  ◌++◌, some, arith, inl, inr, if◌then◌else◌, Bool-cases, ltb,
}
use mai_os_labs.McKusick.{
  McKusickAllocator, PageInfo, PageInfos, page_size, max_block_size, bucket_count, free,
  find_page_info, get_required_pages, indices, free_pages,
}
use mai_os_labs.McKusick.Buckets.{find_page_info_inside}
use mai_os_labs.McKusick.Layout.{IsLaid, IsRising, AreBlank, AreBelow, IsRising-lower}
use mai_os_labs.McKusick.Large.{
  blank, is_within, free_pages_infos, free_pages_rest, free_pages_list,
}
use mai_os_labs.McKusick.RoundTrip.{pages_pos, free_range}
use mai_os_labs.McKusick.Ownership.{
  Owners, free_page, split_for, part_of, part_of-inj, part_not_split, Allocation, block_size, Every,
  IsNew, IsPages, pointers, bucket, IsSound, Every-weaken, Every_middle, AreDistinct,
  AreDistinct-middle,
}
use mai_os_labs.McKusick.Ownership.Refill.{
  split_not_free, part_not_free, IsBlock-kept, IsGranted-kept,
}

abbrev pub freed_owner : ℕ → ℕ → Owners → Owners
freed_owner p m owner i = if is_within p m i then free_page else owner i

-- A rising list without any page of a range has a place for the range.
pub place_of :
    (lo n p m : ℕ) (l : List ℕ)
    → IsRising lo n l
    → Every (λ i. is_within p m i ≡ false) l
    → (before after : List ℕ) × (l ≡ before ++ after) × AreBelow p before × IsRising (p + m) n after
place_of lo n p m [] r e = ([], [], refl, tt, tt)
place_of lo n p m (q ∷ l) (a, b, r) (h, e) = elim (Bool-cases (ltb q p)) [
  | inl lt ↦
      let (before, after, s, below, behind) = place_of (suc q) n p m l r e in
      (q ∷ before, after, ap (◌∷◌ q) s, (ground arith, below), behind)
  | inr ge ↦ ([], q ∷ l, refl, tt, (ground arith, b, r))
]

IsRising-indices :
    (n p m : ℕ) (after : List ℕ)
    → p + m ≤ n
    → IsRising (p + m) n after
    → IsRising p n (indices p m ++ after)
IsRising-indices n p zero after h r = IsRising-lower _ _ n after (omega arith) r
IsRising-indices n p (suc m) after h r = (
  omega arith,
  omega arith,
  IsRising-indices n (suc p) m after (omega arith)
      (subst (λ k. IsRising k n after) (omega arith) r),
)

-- What holds of a list holds of the list with the range in its place.
pub IsRising-insert :
    (lo n p : ℕ) (before l after : List ℕ)
    → lo ≤ p
    → IsRising lo n (before ++ after)
    → AreBelow p before
    → IsRising p n (l ++ after)
    → IsRising lo n (before ++ (l ++ after))
IsRising-insert lo n p [] l after h r below r' = IsRising-lower p lo n (l ++ after) h r'
IsRising-insert lo n p (q ∷ before) l after h (a, b, r) (c, below) r' =
    (a, b, IsRising-insert (suc q) n p before l after (omega arith) r below r')

Every-insert :
    (P Q : ℕ → Type 0) (p m : ℕ) (before after : List ℕ)
    → Every P (before ++ after)
    → ((i : ℕ) → P i → Q i)
    → ((i : ℕ) → is_within p m i ≡ true → Q i)
    → Every Q (before ++ (indices p m ++ after))
Every-insert P Q p zero [] after e f g = Every-weaken P Q after f e
Every-insert P Q p (suc m) [] after e f g =
    (g p (ground arith), Every-insert P Q (suc p) m [] after e f λ i h. g i (ground arith))
Every-insert P Q p m (q ∷ before) after (h, e) f g =
    (f q h, Every-insert P Q p m before after e f g)

abbrev IsBlank : PageInfos → ℕ → Type 0
IsBlank infos i = ((infos i).size ≡ 0) × ((infos i).is_start_of_buffer ≡ false)

AreBlank-Every : (infos : PageInfos) (l : List ℕ) → AreBlank infos l → Every (IsBlank infos) l
AreBlank-Every infos [] b = tt
AreBlank-Every infos (p ∷ l) (e, f, b) = ((e, f), AreBlank-Every infos l b)

Every-AreBlank : (infos : PageInfos) (l : List ℕ) → Every (IsBlank infos) l → AreBlank infos l
Every-AreBlank infos [] b = tt
Every-AreBlank infos (p ∷ l) ((e, f), b) = (e, f, Every-AreBlank infos l b)

-- What holds of each held block, where the block's pointer is another one.
Every_other :
    (P Q : Allocation → Type 0) (x : ℕ) (l : List Allocation)
    → Every P l
    → IsNew x (pointers l)
    → ((h : Allocation) → h.ptr ≢ x → P h → Q h)
    → Every Q l
Every_other P Q x [] e new f = tt
Every_other P Q x (h ∷ l) (k, e) (ne, new) f = (f h ne k, Every_other P Q x l e new f)

module _ (n : ℕ) (owner : Owners) (s : McKusickAllocator) (before : List Allocation)
    (h : Allocation) (after : List Allocation) (o : IsSound n owner s (before ++ h ∷ after))
    (k : IsPages owner s.initial_memory n s.page_infos h) where
  abbrev m : ℕ
  m = get_required_pages h.size

  abbrev freed : McKusickAllocator
  freed = free_pages m k.start s

  within_owned : (i : ℕ) → is_within k.start m i ≡ true → owner i ≡ part_of k.start
  within_owned i e = k.owned i (ground arith) (ground arith)

  pub kept : (i : ℕ) → owner i ≢ part_of k.start → is_within k.start m i ≡ false
  kept i ne = elim (Bool-cases (is_within k.start m i)) [
    | inl e ↦ absurd (ne (within_owned i e))
    | inr e ↦ e
  ]

  pub found_start : find_page_info h.ptr s ≡ some k.start
  found_start =
      let inside : k.start < n = omega (arith, k.inside, pages_pos h.size k.large k.no_wrap) in
      subst (λ a. find_page_info a s ≡ some k.start) (omega (arith, k.address))
        (find_page_info_inside s n k.start 0 o.laid.count o.laid.aligned o.laid.inside inside
          (omega arith))

  pub is_freed : free h.ptr s ≡ some freed
  is_freed =
      free_range s h.ptr k.start (λ e. absurd (omega (arith, k.address, o.laid.not_null)))
        found_start (subst (λ j. max_block_size < j) (sym k.noted) k.large) k.flagged
      ∙ ap (λ j. some (free_pages (get_required_pages j) k.start s)) k.noted

  infos_outside : (i : ℕ) → is_within k.start m i ≡ false → freed.page_infos i ≡ s.page_infos i
  infos_outside i e = free_pages_infos m k.start s i ∙ rw e

  infos_within :
      (i : ℕ) → is_within k.start m i ≡ true → freed.page_infos i ≡ blank (s.page_infos i)
  infos_within i e = free_pages_infos m k.start s i ∙ rw e

  page_addr_kept : (i : ℕ) → (freed.page_infos i).page_addr ≡ (s.page_infos i).page_addr
  page_addr_kept i = elim (Bool-cases (is_within k.start m i)) [
    | inl e ↦ ap (λ (j : PageInfo). j.page_addr) (infos_within i e)
    | inr e ↦ ap (λ (j : PageInfo). j.page_addr) (infos_outside i e)
  ]

  abbrev pub place :
      (before after : List ℕ) × (s.free_page_info ≡ before ++ after)
      × AreBelow k.start before
      × IsRising (k.start + m) n after
  place = place_of 0 n k.start m s.free_page_info o.laid.rising (
      Every-weaken _ _ s.free_page_info (λ i e. kept i λ f. part_not_free k.start (sym f ∙ e))
        o.unowned)

  list : freed.free_page_info ≡ place.0 ++ (indices k.start m ++ place.1)
  list =
      let (low, high, e, below, behind) = place in
      free_pages_list s.initial_memory n m k.start s low high o.laid.in_order k.inside below behind
        e

  IsBlank-kept : (i : ℕ) → IsBlank s.page_infos i → IsBlank freed.page_infos i
  IsBlank-kept i (e, f) = elim (Bool-cases (is_within k.start m i)) [
    | inl h ↦ (
      ap (λ (j : PageInfo). j.size) (infos_within i h),
      ap (λ (j : PageInfo). j.is_start_of_buffer) (infos_within i h),
    )
    | inr h ↦ (
      ap (λ (j : PageInfo). j.size) (infos_outside i h) ∙ e,
      ap (λ (j : PageInfo). j.is_start_of_buffer) (infos_outside i h) ∙ f,
    )
  ]

  abbrev freed_state : McKusickAllocator
  freed_state = record s { page_infos = freed.page_infos; free_page_info = freed.free_page_info }

  laid : IsLaid n freed_state
  laid =
      let (low, high, e, below, behind) = place in
      record {
        count = o.laid.count;
        not_null = o.laid.not_null;
        aligned = o.laid.aligned;
        inside = o.laid.inside;
        in_order = λ i lt. page_addr_kept i ∙ o.laid.in_order i lt;
        rising = subst (IsRising 0 n) (sym list) (
            IsRising-insert 0 n k.start low (indices k.start m) high (omega arith)
              (subst (IsRising 0 n) e o.laid.rising) below
              (IsRising-indices n k.start m high k.inside behind));
        blank = subst (AreBlank freed.page_infos) (sym list) (
            Every-AreBlank freed.page_infos _ (
              Every-insert (IsBlank s.page_infos) _ k.start m low high
                (AreBlank-Every s.page_infos _ (subst (AreBlank s.page_infos) e o.laid.blank))
                IsBlank-kept
                λ i h. (
                  ap (λ (j : PageInfo). j.size) (infos_within i h),
                  ap (λ (j : PageInfo). j.is_start_of_buffer) (infos_within i h),
                )));
      }

  abbrev owner' : Owners
  owner' = freed_owner k.start m owner

  owner_kept : (i : ℕ) → owner i ≢ part_of k.start → owner' i ≡ owner i
  owner_kept i ne = rw (kept i ne)

  unowned : Every (λ i. owner' i ≡ free_page) freed.free_page_info
  unowned =
      let (low, high, e, below, behind) = place in
      subst (Every λ i. owner' i ≡ free_page) (sym list) (
        Every-insert (λ i. owner i ≡ free_page) (λ i. owner' i ≡ free_page) k.start m low high
          (subst (Every λ i. owner i ≡ free_page) e o.unowned)
          (λ i f. owner_kept i (λ g. part_not_free k.start (sym g ∙ f)) ∙ f) λ i h. rw h)

  sizes :
      (i c : ℕ)
      → i < n
      → owner' i ≡ split_for c
      → ((freed.page_infos i).size ≡ block_size c) × (c < bucket_count)
  sizes i c lt e = elim (Bool-cases (is_within k.start m i)) [
    | inl h ↦ absurd (split_not_free c (sym (rw h at e)))
    | inr h ↦
        let (size_of, c_inside) = o.sizes i c lt (rw h at e) in
        (ap (λ (j : PageInfo). j.size) (infos_outside i h) ∙ size_of, c_inside)
  ]

  other_start :
      (h' : Allocation)
      → h'.ptr ≢ h.ptr
      → (k' : IsPages owner s.initial_memory n s.page_infos h') → part_of k'.start ≢ part_of k.start
  other_start h' ne k' e = ne (
      k'.address ∙ ap (λ (p : ℕ). s.initial_memory + p * page_size) (part_of-inj e) ∙ sym k.address)

  IsSound-freed : IsSound n owner' freed_state (before ++ after)
  IsSound-freed =
      let split = map-append (λ (j : Allocation). j.ptr) before (h ∷ after) in
      let joined = sym (map-append (λ (j : Allocation). j.ptr) before after) in
      let (new, apart) =
        AreDistinct-middle (pointers before) h.ptr (pointers after)
          (subst AreDistinct split o.held_apart) in
      record {
        laid = laid;
        unowned = unowned;
        sizes = sizes;
        granted =
            Every_other _ _ h.ptr (before ++ after) (Every_middle _ before h after o.granted).1
              (subst (IsNew h.ptr) joined new)
              λ h' ne g.
                IsGranted-kept (part_of k.start) owner owner' s.initial_memory n s.page_infos
                  freed.page_infos owner_kept (λ b e. part_not_split k.start b (sym e))
                  (λ i other. infos_outside i (kept i other)) h' (other_start h' ne) g;
        held_apart = subst AreDistinct joined apart;
        buckets = o.buckets;
        blocks = λ c lt.
            Every-weaken _ _ (bucket c s)
              (IsBlock-kept (part_of k.start) owner owner' s.initial_memory n s.page_infos
                freed.page_infos owner_kept (λ b e. part_not_split k.start b (sym e)) c)
              (o.blocks c lt);
        blocks_apart = o.blocks_apart;
        blocks_unused = λ c lt.
            Every-weaken _ _ (bucket c s)
              (λ x u.
                subst (IsNew x) joined
                  (Every_middle (λ y. y ≢ x) (pointers before) h.ptr (pointers after)
                    (subst (IsNew x) split u)).1)
              (o.blocks_unused c lt);
      }

  -- `free` of a block of several pages gives its pages back.
  pub free_held_pages :
      (t : McKusickAllocator) × (free h.ptr s ≡ some t) × IsSound n owner' t (before ++ after)
  free_held_pages = (
    freed,
    is_freed,
    subst (λ t. IsSound n owner' t (before ++ after)) (sym (free_pages_rest m k.start s))
        IsSound-freed,
  )
