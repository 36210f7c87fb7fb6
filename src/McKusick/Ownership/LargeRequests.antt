-- ===== src/McKusick/Ownership/LargeRequests.antt =====
-- `alloc` of Labs/CP/src/Mckusey-Carels.cpp for requests of several pages.
use mai_os_labs.Prelude.{
  ℕ, zero, suc, ◌+◌, ◌*◌, ◌<◌, ◌≤◌, ◌≡◌, ◌≢◌, refl, sym, ap, subst, ◌∙◌, true, false, List, [], ◌∷◌,
  ◌++◌, some, arith, ◌==◌, inl, inr, word, if◌then◌else◌, Bool-cases, Option-cases,
}
use mai_os_labs.McKusick.{
  McKusickAllocator, PageInfo, PageInfos, page_size, max_block_size, bucket_count,
  get_required_pages, find_range, indices,
}
use mai_os_labs.McKusick.Pages.{find_range-Range}
use mai_os_labs.McKusick.Layout.{
  IsLaid, IsRising, AreBlank, AreBelow, AreBlank_behind, IsRising-lower,
}
use mai_os_labs.McKusick.Large.{is_within}
use mai_os_labs.McKusick.RoundTrip.{
  used_infos, used_state, used_at, used_infos_outside, Range-indices, alloc_refused, alloc_granted,
  alloc_is_large, used_in_order, pages_pos, returned,
}
use mai_os_labs.McKusick.Ownership.{
  Owners, free_page, split_for, part_of, Allocation, block_size, Every, IsBlock, large, bucket,
  IsSound, Every-weaken, block_size_pos, part_not_split,
}
use mai_os_labs.McKusick.Ownership.Moves.{Every-both}
use mai_os_labs.McKusick.Ownership.Refill.{
  split-owned, split_not_free, part_not_free, IsBlock-kept, IsGranted-kept, AreBlank-kept,
  Every-rising,
}
use mai_os_labs.McKusick.Ownership.SmallAlloc.{held_elsewhere}
use mai_os_labs.McKusick.Ownership.SmallRequests.{Answered}

abbrev pub pages_owner : ℕ → ℕ → Owners → Owners
pages_owner p m owner i = if is_within p m i then part_of p else owner i

-- A rising list without the part between `before` and `after`.
pub IsRising-join :
    (lo n p : ℕ) (before l after : List ℕ)
    → lo ≤ p
    → IsRising lo n (before ++ l)
    → AreBelow p before
    → IsRising p n after
    → IsRising lo n (before ++ after)
IsRising-join lo n p [] l after h r below r' = IsRising-lower p lo n after h r'
IsRising-join lo n p (q ∷ before) l after h (a, b, r) (c, below) r' =
    (a, b, IsRising-join (suc q) n p before l after (omega arith) r below r')

AreBlank-join :
    (infos infos' : PageInfos) (p m n : ℕ) (before l after : List ℕ)
    → ((i : ℕ) → is_within p m i ≡ false → infos' i ≡ infos i)
    → AreBlank infos (before ++ (l ++ after))
    → AreBelow p before
    → IsRising (p + m) n after
    → AreBlank infos' (before ++ after)
AreBlank-join infos infos' p m n [] l after same b below r =
    AreBlank-kept infos infos' (p + m) n after (λ i h. same i (ground arith)) r
      (AreBlank_behind infos l after b)
AreBlank-join infos infos' p m n (q ∷ before) l after same (e, f, b) (c, below) r =
    let unchanged = same q (ground arith) in
    (
      ap (λ j. j.size) unchanged ∙ e,
      ap (λ j. j.is_start_of_buffer) unchanged ∙ f,
      AreBlank-join infos infos' p m n before l after same b below r,
    )

Every_behind : (P : ℕ → Type 0) (l k : List ℕ) → Every P (l ++ k) → Every P k
Every_behind P [] k e = e
Every_behind P (x ∷ l) k (h, e) = Every_behind P l k e

Every-join :
    (P Q : ℕ → Type 0) (p m n : ℕ) (before l after : List ℕ)
    → ((i : ℕ) → is_within p m i ≡ false → P i → Q i)
    → Every P (before ++ (l ++ after))
    → AreBelow p before
    → IsRising (p + m) n after
    → Every Q (before ++ after)
Every-join P Q p m n [] l after f e below r =
    Every-rising P Q (p + m) n after (λ i h. f i (ground arith)) r (Every_behind P l after e)
Every-join P Q p m n (q ∷ before) l after f (h, e) (c, below) r =
    (f q (ground arith) h, Every-join P Q p m n before l after f e below r)

Every-indices :
    (P : ℕ → Type 0) (p m : ℕ) (after : List ℕ) (i : ℕ)
    → Every P (indices p m ++ after)
    → is_within p m i ≡ true
    → P i
Every-indices P p zero after i e h = absurd (ground arith)
Every-indices P p (suc m) after i (k, e) h = elim (Bool-cases (i == p)) [
  | inl hit ↦ subst P (ground arith) k
  | inr miss ↦ Every-indices P (suc p) m after i e (ground arith)
]

module _ (n : ℕ) (owner : Owners) (s : McKusickAllocator) (held : List Allocation)
    (o : IsSound n owner s held) (size : ℕ) (big : max_block_size < size)
    (no_wrap : size + page_size ≤ word) (p : ℕ) (rest before after : List ℕ)
    (list : s.free_page_info ≡ before ++ (indices p (get_required_pages size) ++ after))
    (remain : rest ≡ before ++ after) (below : AreBelow p before) (inside : p < n)
    (room : p + get_required_pages size ≤ n)
    (behind : IsRising (p + get_required_pages size) n after) where
  abbrev m : ℕ
  m = get_required_pages size

  abbrev unowned : Every (λ i. owner i ≡ free_page) (before ++ (indices p m ++ after))
  unowned = subst (Every λ i. owner i ≡ free_page) list o.unowned

  was_free : (i : ℕ) → is_within p m i ≡ true → owner i ≡ free_page
  was_free i h =
      Every-indices (λ k. owner k ≡ free_page) p m after i (Every_behind _ before _ unowned) h

  outside : (i : ℕ) → owner i ≢ free_page → is_within p m i ≡ false
  outside i owned = elim (Bool-cases (is_within p m i)) [
    | inl e ↦ absurd (owned (was_free i e))
    | inr e ↦ e
  ]

  kept : (i : ℕ) → owner i ≢ free_page → pages_owner p m owner i ≡ owner i
  kept i owned = rw (outside i owned)

  unchanged :
      (i : ℕ) → is_within p m i ≡ false → used_infos size m p s.page_infos i ≡ s.page_infos i
  unchanged i h = used_infos_outside size m p s.page_infos i (pages_pos size big no_wrap) h

  same : (i : ℕ) → owner i ≢ free_page → used_infos size m p s.page_infos i ≡ s.page_infos i
  same i owned = unchanged i (outside i owned)

  first_within : is_within p m p ≡ true
  first_within = let some_pages = pages_pos size big no_wrap in ground arith

  laid : IsLaid n (used_state size m p rest s)
  laid = record {
    count = o.laid.count;
    not_null = o.laid.not_null;
    aligned = o.laid.aligned;
    inside = o.laid.inside;
    in_order = λ i lt. used_in_order n size s o.laid big no_wrap p i lt;
    rising = subst (IsRising 0 n) (sym remain) (
        IsRising-join 0 n p before _ after (omega arith) (subst (IsRising 0 n) list o.laid.rising)
          below (IsRising-lower _ p n after (omega arith) behind));
    blank = subst (AreBlank (used_infos size m p s.page_infos)) (sym remain) (
        AreBlank-join s.page_infos (used_infos size m p s.page_infos) p m n before (indices p m)
          after unchanged (subst (AreBlank s.page_infos) list o.laid.blank) below behind);
  }

  sizes :
      (i c : ℕ)
      → i < n
      → pages_owner p m owner i ≡ split_for c
      → ((used_infos size m p s.page_infos i).size ≡ block_size c) × (c < bucket_count)
  sizes i c lt e = elim (Bool-cases (is_within p m i)) [
    | inl h ↦ absurd (part_not_split p c (rw h at e))
    | inr h ↦
        let (size_of, c_inside) = o.sizes i c lt (rw h at e) in
        (ap (λ (k : PageInfo). k.size) (unchanged i h) ∙ size_of, c_inside)
  ]

  abbrev ptr : ℕ
  ptr = s.initial_memory + p * page_size

  not_block : (c x : ℕ) → IsBlock owner s.initial_memory n c x → ptr ≢ x
  not_block c x k e =
      let page : p ≡ k.page = omega (arith, k.address, k.fits, block_size_pos c) in
      split-owned (owner p) c (ap owner page ∙ k.owned) (was_free p first_within)

  pub IsSound-used :
      IsSound n
        (pages_owner p m owner)
        (used_state size m p rest s)
        (record { ptr = ptr; size = size } ∷ held)
  IsSound-used = record {
    laid = laid;
    unowned =
        subst (Every λ i. pages_owner p m owner i ≡ free_page) (sym remain)
          (Every-join _ _ p m n before (indices p m) after (λ i h e. rw h e) unowned below behind);
    sizes = sizes;
    granted = (
      large (record {
        start = p;
        address = refl;
        inside = room;
        owned = λ i lo hi. (let h : is_within p m i ≡ true = ground arith in rw h);
        noted = ap (λ (k : PageInfo). k.size) (used_at size m p s.page_infos);
        flagged = ap (λ (k : PageInfo). k.is_start_of_buffer) (used_at size m p s.page_infos);
        large = big;
        no_wrap = no_wrap;
      }),
      Every-weaken _ _ held
          (λ h.
            IsGranted-kept free_page owner _ s.initial_memory n s.page_infos
              (used_infos size m p s.page_infos) kept split_not_free same h
              (λ k. part_not_free k.start))
          o.granted,
    );
    held_apart = (
      held_elsewhere owner s.initial_memory n s.page_infos p ptr held (was_free p first_within)
          (omega arith) (omega arith) o.granted,
      o.held_apart,
    );
    buckets = o.buckets;
    blocks = λ c h.
        Every-weaken _ _ (bucket c s)
          (IsBlock-kept free_page owner _ s.initial_memory n s.page_infos
            (used_infos size m p s.page_infos) kept split_not_free c)
          (o.blocks c h);
    blocks_apart = o.blocks_apart;
    blocks_unused = λ c h.
        Every-both _ _ _ (bucket c s) (o.blocks c h) (o.blocks_unused c h)
          λ x k unused. (not_block c x k, unused);
  }

-- A request above a page is answered.
pub large_request :
    (n : ℕ) (owner : Owners) (s : McKusickAllocator) (held : List Allocation) (size : ℕ)
    → IsSound n owner s held
    → max_block_size < size
    → size + page_size ≤ word
    → Answered n size s held
large_request n owner s held size o big no_wrap =
    elim (Option-cases (find_range s.page_infos (get_required_pages size) s.free_page_info)) [
      | inl e ↦ inl (alloc_is_large size s big ∙ ap some (alloc_refused size s e))
      | inr ((p, rest), e) ↦
          let found = find_range-Range s.page_infos _ _ p rest e in
          let (before, after, list, remain, below, inside, room, behind) =
            Range-indices n (get_required_pages size) s p rest o.laid found in
          let (ne, addr, back) = returned n size s o.laid big no_wrap p rest found in
          let t = used_state size (get_required_pages size) p rest s in
          inr (
            s.initial_memory + p * page_size,
            t,
            pages_owner p (get_required_pages size) owner,
            alloc_is_large size s big
                ∙ ap some (
                    alloc_granted size s p rest (pages_pos size big no_wrap) e
                    ∙ ap (λ (a : ℕ). (a, t)) addr),
            ne,
            IsSound-used n owner s held o size big no_wrap p rest before after list remain below
                inside room behind,
          )
    ]
