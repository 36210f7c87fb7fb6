-- ===== src/McKusick/RoundTrip.antt =====
-- `alloc` and `free` of Labs/CP/src/Mckusey-Carels.cpp on blocks of several pages.
use mai_os_labs.Prelude.{
  ℕ, zero, suc, ◌+◌, ◌-◌, ◌*◌, ◌<◌, ◌≤◌, ◌≡◌, ◌≢◌, ◌⊎◌, inl, inr, ◌∙◌, sym, ap, subst, true, false,
  List, ◌∷◌, ◌++◌, none, some, arith, length, ◌==◌, word, Bool-cases, Option-cases,
}
use mai_os_labs.McKusick.{
  McKusickAllocator, PageInfo, PageInfos, page_size, max_block_size, indices, update, mark_range,
  free_pages, find_range, find_consecutive_pages, alloc_large, alloc, free, find_page_info,
  get_required_pages,
}
use mai_os_labs.McKusick.Pages.{IsRun, Range, range, find_range-Range}
use mai_os_labs.McKusick.Buckets.{find_page_info_inside}
use mai_os_labs.McKusick.Layout.{
  IsRising, AreBlank, IsLaid, AreBelow, IsRising-before, rising_length, AreBlank_behind,
  run_indices,
}
use mai_os_labs.McKusick.Large.{
  blank, is_within, mark_range-blank, mark_range_outside, free_pages_infos, free_pages_rest,
  free_pages_list,
}

-- What `alloc` does to the page infos for a range of `m` pages from `p` on.
abbrev pub used_infos : ℕ → ℕ → ℕ → PageInfos → PageInfos
used_infos size m p infos =
    let marked = mark_range (m - 1) true p infos in
    update marked p (record (marked p) { size = size; is_start_of_buffer = true })

abbrev pub used_state : ℕ → ℕ → ℕ → List ℕ → McKusickAllocator → McKusickAllocator
used_state size m p rest s = record s {
  free_page_info = rest;
  page_infos = used_infos size m p s.page_infos;
}

used_infos-blank :
    (size m p : ℕ) (infos : PageInfos) (i : ℕ)
    → blank (used_infos size m p infos i) ≡ blank (infos i)
used_infos-blank size m p infos i = elim (Bool-cases (i == p)) [
  | inl e ↦
      let same : p ≡ i = ground arith in
      rw e (mark_range-blank (m - 1) true p infos p ∙ ap (λ k. blank (infos k)) same)
  | inr e ↦ rw e (mark_range-blank (m - 1) true p infos i)
]

pub used_at :
    (size m p : ℕ) (infos : PageInfos)
    → used_infos size m p infos p
      ≡ record (mark_range (m - 1) true p infos p) { size = size; is_start_of_buffer = true }
used_at size m p infos = let here : (p == p) ≡ true = ground arith in rw here

pub used_infos_outside :
    (size m p : ℕ) (infos : PageInfos) (i : ℕ)
    → 0 < m
    → is_within p m i ≡ false
    → used_infos size m p infos i ≡ infos i
used_infos_outside size m p infos i h out =
    let other : (i == p) ≡ false = ground arith in
    rw other (mark_range_outside (m - 1) true p infos i (ground arith))

indices-AreBlank :
    (infos : PageInfos) (p m : ℕ) (after : List ℕ) (i : ℕ)
    → AreBlank infos (indices p m ++ after)
    → is_within p m i ≡ true
    → blank (infos i) ≡ infos i
indices-AreBlank infos p zero after i b h = absurd (ground arith)
indices-AreBlank infos p (suc m) after i (e, f, b) h = elim (Bool-cases (i == p)) [
  | inl hit ↦
      let same : p ≡ i = ground arith in
      subst (λ k. blank (infos k) ≡ infos k) same
        (ap (λ n. record (infos p) { size = n; is_start_of_buffer = false }) (sym e)
          ∙ ap (λ c. record (infos p) { is_start_of_buffer = c }) (sym f))
  | inr miss ↦ indices-AreBlank infos (suc p) m after i b (ground arith)
]

module _ (size : ℕ) (s : McKusickAllocator) where
  pub alloc_refused :
      find_range s.page_infos (get_required_pages size) s.free_page_info ≡ none
      → alloc_large size s ≡ (0, s)
  unfolding alloc_large find_consecutive_pages
  alloc_refused e = elim (Bool-cases (get_required_pages size == 0)) [
    | inl h ↦ rw (alloc_large, h)
    | inr h ↦ rw (alloc_large, h, e)
  ]

  pub alloc_granted :
      (p : ℕ) (rest : List ℕ)
      → 0 < get_required_pages size
      → find_range s.page_infos (get_required_pages size) s.free_page_info ≡ some (p, rest)
      → alloc_large size s ≡ (
        (mark_range (get_required_pages size - 1) true p s.page_infos p).page_addr,
        used_state size (get_required_pages size) p rest s,
      )
  unfolding alloc_large find_consecutive_pages
  alloc_granted p rest h e =
      let some_pages : (get_required_pages size == 0) ≡ false = ground arith in
      rw (alloc_large, some_pages, e)

  pub alloc_is_large : max_block_size < size → alloc size s ≡ some (alloc_large size s)
  unfolding alloc
  alloc_is_large h = ground arith

pub free_range :
    (s : McKusickAllocator) (ptr page : ℕ)
    → ptr ≢ 0
    → find_page_info ptr s ≡ some page
    → max_block_size < (s.page_infos page).size
    → (s.page_infos page).is_start_of_buffer ≡ true
    → free ptr s ≡ some (free_pages (get_required_pages (s.page_infos page).size) page s)
unfolding free
free_range s ptr page ne found large start = ground arith

pub pages_pos :
    (size : ℕ) → max_block_size < size → size + page_size ≤ word → 0 < get_required_pages size
unfolding get_required_pages
pages_pos size large fits = omega arith

-- The range that the search finds stands in the list as a range of indices.
pub Range-indices :
    (n m : ℕ) (s : McKusickAllocator) (p : ℕ) (rest : List ℕ)
    → IsLaid n s
    → Range s.page_infos m s.free_page_info p rest
    → (before after : List ℕ) × (s.free_page_info ≡ before ++ (indices p m ++ after))
      × (rest ≡ before ++ after)
      × AreBelow p before
      × (p < n)
      × (p + m ≤ n)
      × IsRising (p + m) n after
Range-indices n m s p rest laid (range before run after e e' length_run run_of) =
    let (below, low, inside, r) =
      IsRising-before 0 n before p (run ++ after) (subst (λ l. IsRising 0 n l) e laid.rising) in
    let r' : IsRising (p + 1) n (run ++ after) =
      subst (λ k. IsRising k n (run ++ after)) (omega arith) r in
    let run_of' = subst (λ a. IsRun s.page_infos a 1 run) (laid.in_order p inside) run_of in
    let (same, behind) =
      run_indices s.initial_memory n s.page_infos laid.in_order p 1 run after laid.inside r'
        run_of' in
    let room = rising_length (p + 1) n run after (omega arith) r' in
    let count : suc (length run) ≡ m = omega (arith, length_run) in
    (
      before,
      after,
      e
          ∙ ap (λ l. before ++ p ∷ (l ++ after))
              (same ∙ ap (λ k. indices k (length run)) (omega arith))
          ∙ ap (λ k. before ++ (indices p k ++ after)) count,
      e',
      below,
      inside,
      omega (arith, length_run),
      subst (λ k. IsRising k n after) (omega (arith, length_run)) behind,
    )

module _ (n size : ℕ) (s : McKusickAllocator) (laid : IsLaid n s) where
  abbrev m : ℕ
  m = get_required_pages size

  module _ (large : max_block_size < size) (fits : size + page_size ≤ word) where
    pub used_in_order :
        (p i : ℕ)
        → i < n
        → (used_infos size m p s.page_infos i).page_addr ≡ s.initial_memory + i * page_size
    used_in_order p i lt =
        ap (λ (k : PageInfo). k.page_addr) (used_infos-blank size m p s.page_infos i)
        ∙ laid.in_order i lt

    freed_info :
        (p : ℕ) (rest after : List ℕ)
        → AreBlank s.page_infos (indices p m ++ after)
        → (i : ℕ) → (free_pages m p (used_state size m p rest s)).page_infos i ≡ s.page_infos i
    freed_info p rest after b i =
        free_pages_infos m p (used_state size m p rest s) i ∙ elim (Bool-cases (is_within p m i)) [
          | inl e ↦ rw e (
              used_infos-blank size m p s.page_infos i
              ∙ indices-AreBlank s.page_infos p m after i b e)
          | inr e ↦ rw e (used_infos_outside size m p s.page_infos i (pages_pos size large fits) e)
        ]

    -- The pages of a range are given back.
    freed_pages :
        (p : ℕ) (rest before after : List ℕ)
        → s.free_page_info ≡ before ++ (indices p m ++ after)
        → rest ≡ before ++ after
        → AreBelow p before
        → p + m ≤ n
        → IsRising (p + m) n after
        → free_pages m p (used_state size m p rest s) ≡ s
    freed_pages p rest before after e e' below room r =
        let t = used_state size m p rest s in
        let infos : (free_pages m p t).page_infos ≡ s.page_infos = λ k i.
          freed_info p rest after
            (AreBlank_behind s.page_infos before _ (subst (AreBlank s.page_infos) e laid.blank)) i
            k in
        let list : (free_pages m p t).free_page_info ≡ s.free_page_info =
          free_pages_list s.initial_memory n m p t before after (λ i lt. used_in_order p i lt) room
            below r e'
          ∙ sym e in
        free_pages_rest m p t
        ∙ ap
            (λ (l : PageInfos). record s {
              page_infos = l;
              free_page_info = (free_pages m p t).free_page_info;
            })
            infos
        ∙ ap (λ (l : List ℕ). record s { free_page_info = l }) list

    pub returned :
        (p : ℕ) (rest : List ℕ)
        → Range s.page_infos m s.free_page_info p rest
        → (s.initial_memory + p * page_size ≢ 0)
          × ((mark_range (m - 1) true p s.page_infos p).page_addr
              ≡ s.initial_memory + p * page_size)
          × (free (s.initial_memory + p * page_size) (used_state size m p rest s) ≡ some s)
    returned p rest found =
        let (before, after, e, e', below, inside, room, r) =
          Range-indices n m s p rest laid found in
        let t = used_state size m p rest s in
        let at = used_at size m p s.page_infos in
        let page : find_page_info (s.initial_memory + p * page_size) t ≡ some p =
          subst (λ a. find_page_info a t ≡ some p) (omega arith)
            (find_page_info_inside t n p 0 laid.count laid.aligned laid.inside inside
              (omega arith)) in
        let not_null = laid.not_null in
        let ne : s.initial_memory + p * page_size ≢ 0 = λ z. absurd (omega arith) in
        (
          ne,
          ap (λ (k : PageInfo). k.page_addr) (mark_range-blank (m - 1) true p s.page_infos p)
              ∙ laid.in_order p inside,
          free_range t _ p ne page
                (subst (λ (k : PageInfo). max_block_size < k.size) (sym at) large)
                (ap (λ (k : PageInfo). k.is_start_of_buffer) at)
              ∙ ap (λ k. some (free_pages (get_required_pages k) p t))
                  (ap (λ (k : PageInfo). k.size) at)
              ∙ ap some (freed_pages p rest before after e e' below room r),
        )

-- A request above a page, whose sum with a page does not wrap around, to an allocator whose free pages
-- are blank and in address order, is refused with no change, or it is granted, and then giving the
-- pointer back leaves the allocator just as it was before the request.
pub free-alloc_large :
    (n size : ℕ) (s : McKusickAllocator)
    → IsLaid n s
    → max_block_size < size
    → size + page_size ≤ word
    → (alloc size s ≡ some (0, s))
      ⊎ ((ptr : ℕ) × (t : McKusickAllocator) × (alloc size s ≡ some (ptr, t))
          × (ptr ≢ 0)
          × (free ptr t ≡ some s))
free-alloc_large n size s laid large fits =
    elim (Option-cases (find_range s.page_infos (get_required_pages size) s.free_page_info)) [
      | inl e ↦ inl (alloc_is_large size s large ∙ ap some (alloc_refused size s e))
      | inr ((p, rest), e) ↦
          let (ne, addr, back) =
            returned n size s laid large fits p rest (find_range-Range s.page_infos _ _ p rest e) in
          let t = used_state size (get_required_pages size) p rest s in
          inr (
            s.initial_memory + p * page_size,
            t,
            alloc_is_large size s large
                ∙ ap some (
                    alloc_granted size s p rest (pages_pos size large fits) e
                    ∙ ap (λ (a : ℕ). (a, t)) addr),
            ne,
            back,
          )
    ]
