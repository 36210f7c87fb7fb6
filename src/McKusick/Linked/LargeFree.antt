-- ===== src/McKusick/Linked/LargeFree.antt =====
-- `free` of several pages of Labs/CP/src/Mckusey-Carels.cpp, by pointers.
use mai_os_labs.Prelude.{
  ℕ, zero, suc, ◌+◌, ◌<◌, ◌≤◌, ◌≡◌, ◌≢◌, refl, sym, ap, subst, ◌∙◌, true, false, List, [], ◌∷◌,
  ◌++◌, some, arith, leb, ◌==◌, append_assoc,
}
use mai_os_labs.McKusick.{
  McKusickAllocator, PageInfos, max_block_size, get_required_pages, insert_sorted, free_pages,
}
use mai_os_labs.McKusick.Layout.{
  IsRising, AreInOrder, AreBelow, AreBelow-snoc, IsRising-lower, insert_sorted_between,
}
use mai_os_labs.McKusick.Large.{free_pages_rest, blank_at, blank_at-page_addr}
use mai_os_labs.McKusick.Ownership.{
  Owners, Allocation, IsNew, IsPages, bucket, IsSound, Every-weaken, Every-append,
}
use mai_os_labs.McKusick.Ownership.LargeFree.{IsRising-insert, is_freed, found_start, place}
use mai_os_labs.McKusick.Linked.{Linked, write, info}
use mai_os_labs.McKusick.Linked
use mai_os_labs.McKusick.Linked.Chain.{Chain}
use mai_os_labs.McKusick.Linked.Spelling.{Links, linked, Spells, FreeRefined, page_pointers}
use mai_os_labs.McKusick.Linked.SmallFree.{page_linked}
use mai_os_labs.McKusick.Linked.Search.{IsRising-AreFrom}
use mai_os_labs.McKusick.Linked.LargeRequest.{few_pages}
use mai_os_labs.McKusick.Linked.Insert.{insert_sorted_refined}

below-IsNew : (page : ℕ) (l : List ℕ) → AreBelow page l → IsNew page l
below-IsNew page [] b = tt
below-IsNew page (q ∷ l) (h, b) = ((λ e. absurd (omega arith)), below-IsNew page l b)

free_step :
    (m walker page : ℕ) (k : Links) (s : McKusickAllocator) (t : Linked)
    → walker ≡ suc page
    → Linked.insert_sorted
        (suc page)
        (linked k (record s { page_infos = blank_at page s.page_infos }))
      ≡ some t
    → Linked.free_pages (suc m) walker (linked k s) ≡ Linked.free_pages m (walker + 1) t
unfolding Linked.free_pages
free_step m walker page k s t w f = rw (w, f) refl

-- The pages go back, and no other pointer changes.
free_pages_refined :
    (base n m walker page : ℕ) (k : Links) (s : McKusickAllocator) (before after : List ℕ)
    → walker ≡ suc page
    → n ≤ s.total_pages
    → AreInOrder base n s.page_infos
    → page + m ≤ n
    → AreBelow page before
    → IsRising (page + m) n after
    → s.free_page_info ≡ before ++ after
    → IsRising 0 n (before ++ after)
    → Chain k.page_next k.first (page_pointers s.free_page_info)
    → (first : ℕ) × (next : ℕ → ℕ) × (Linked.free_pages m walker (linked k s)
        ≡ some (linked (record k { first = first; page_next = next }) (free_pages m page s)))
      × Chain next first (page_pointers (free_pages m page s).free_page_info)
unfolding free_pages Linked.free_pages
free_pages_refined base n zero walker page k s before after w total order h below high e r c =
    (k.first, k.page_next, refl, c)
free_pages_refined base n (suc m) walker page k s before after w total order h below high e r c =
    let infos : PageInfos = blank_at page s.page_infos in
    let order' : AreInOrder base n infos =
      λ i lt. blank_at-page_addr page i s.page_infos ∙ order i lt in
    let above : IsRising (suc page) n after = IsRising-lower _ _ n after (omega arith) high in
    let new : IsNew page s.free_page_info = subst (IsNew page) (sym e) (
      Every-append _ before after (below-IsNew page before below) (
        Every-weaken _ _ after (λ q b z. absurd (omega arith))
          (IsRising-AreFrom (suc page) n after above))) in
    let few = few_pages n s.free_page_info (subst (IsRising 0 n) (sym e) r) in
    let (first, next, f, chain) =
      insert_sorted_refined n k (record s { page_infos = infos }) page s.free_page_info
        (omega (arith, few, total)) c (subst (IsRising 0 n) (sym e) r) new in
    let regroup = append_assoc before (page ∷ []) after in
    let back =
      ap (insert_sorted infos page) e
      ∙ insert_sorted_between base n infos order' page before after (omega arith) below above
      ∙ sym regroup in
    let rising = subst (IsRising 0 n) (sym regroup) (
      IsRising-insert 0 n page before (page ∷ []) after (omega arith) r below
        (omega arith, omega arith, above)) in
    let (first', next', g, chain') =
      free_pages_refined base n m (walker + 1) (page + 1)
        (record k { first = first; page_next = next })
        (record s {
          page_infos = infos;
          free_page_info = insert_sorted infos page s.free_page_info;
        })
        (before ++ page ∷ []) after (omega (arith, w)) total order' (omega arith)
        (AreBelow-snoc page before below) (subst (λ i. IsRising i n after) (omega arith) high) back
        rising chain in
    (first', next', free_step m walker page k s _ w f ∙ g, chain')

free_linked :
    (ptr page : ℕ) (l : Linked)
    → ptr ≢ 0
    → Linked.find_page_info ptr l ≡ suc page
    → max_block_size < (l.page_infos page).size
    → (l.page_infos page).is_start_of_buffer ≡ true
    → Linked.free ptr l
      ≡ Linked.free_pages (get_required_pages (l.page_infos page).size) (suc page) l
unfolding Linked.free
free_linked ptr page l ne found large flagged =
    let ptr' : (ptr == 0) ≡ false = ground arith in
    let page' : (suc page == 0) ≡ false = ground arith in
    let large' : leb (l.page_infos page).size max_block_size ≡ false = ground arith in
    rw (Linked.free, found, ptr', page', large', flagged) refl

-- A held block of several pages is given back.
pub large-FreeRefined :
    (n : ℕ) (owner : Owners) (s : McKusickAllocator) (before : List Allocation) (h : Allocation)
    (after : List Allocation) (o : IsSound n owner s (before ++ h ∷ after)) (k : Links)
    → Spells k s
    → IsPages owner s.initial_memory n s.page_infos h
    → FreeRefined h.ptr (linked k s) s
large-FreeRefined n owner s before h after o k r p =
    let not_null : h.ptr ≢ 0 = λ z. absurd (omega (arith, p.address, o.laid.not_null)) in
    let (low, high, e, below, behind) = place n owner s before h after o p in
    let (first, next, f, chain) =
      free_pages_refined s.initial_memory n (get_required_pages h.size) (suc p.start) p.start k s
        low high refl (omega (arith, o.laid.count)) o.laid.in_order p.inside below behind e
        (subst (IsRising 0 n) e o.laid.rising) r.pages in
    let t = free_pages (get_required_pages h.size) p.start s in
    let k' : Links = record k { first = first; page_next = next } in
    (
      t,
      linked k' t,
      is_freed n owner s before h after o p,
      free_linked h.ptr p.start (linked k s) not_null
            (page_linked n owner s (before ++ h ∷ after) o k r h.ptr p.start
              (found_start n owner s before h after o p))
            (subst (λ j. max_block_size < j) (sym p.noted) p.large) p.flagged
          ∙ ap (λ j. Linked.free_pages (get_required_pages j) (suc p.start) (linked k s)) p.noted
          ∙ f,
      (
        k',
        refl,
        record {
          blocks = λ b lt.
              subst (λ u. Chain k.block_next (k.heads b) (bucket b u))
                (sym (free_pages_rest (get_required_pages h.size) p.start s)) (r.blocks b lt);
          pages = chain;
        },
      ),
    )
