-- ===== src/McKusick/Linked/LargeRequest.antt =====
-- `alloc` of Labs/CP/src/Mckusey-Carels.cpp for requests of several pages, by pointers.
use mai_os_labs.Prelude.{
  ℕ, zero, suc, ◌+◌, ◌-◌, ◌<◌, ◌≤◌, ◌≡◌, ◌≢◌, refl, sym, ap, subst, ◌∙◌, Bool, true, false, List,
  [], ◌∷◌, Option, none, some, arith, length, ◌==◌, Bool-cases, inl, inr, word, append-nil,
}
use mai_os_labs.McKusick.{
  McKusickAllocator, page_size, max_block_size, bucket_count, find_range, get_required_pages,
  mark_range, set_start, update,
}
use mai_os_labs.McKusick.Pages.{find_range-Range}
use mai_os_labs.McKusick.Layout.{IsRising, rising_length}
use mai_os_labs.McKusick.Large.{is_within}
use mai_os_labs.McKusick.RoundTrip.{
  used_state, Range-indices, alloc_refused, alloc_granted, alloc_is_large, pages_pos,
}
use mai_os_labs.McKusick.Ownership.{
  Owners, free_page, Allocation, Every, bucket, IsSound, Every-weaken,
}
use mai_os_labs.McKusick.Ownership.Refill.{part_not_free}
use mai_os_labs.McKusick.Ownership.LargeRequests.{pages_owner, IsSound-used}
use mai_os_labs.McKusick.Linked.{Linked, write, index, link_infos}
use mai_os_labs.McKusick.Linked
use mai_os_labs.McKusick.Linked.Chain.{Chain, write_other, Chain-kept}
use mai_os_labs.McKusick.Linked.Spelling.{Links, linked, Spells, AllocRefined, page_pointers}
use mai_os_labs.McKusick.Linked.Search.{SearchAgrees, not_found, at_current, behind, search_refined}

link_infos_outside :
    (m walker : ℕ) (next : ℕ → ℕ) (x : ℕ)
    → ((j : ℕ) → j ≤ m → x ≢ walker + j)
    → link_infos m walker next x ≡ next x
link_infos_outside zero walker next x out =
    write_other next walker 0 x λ e. out 0 (omega arith) (omega arith)
link_infos_outside (suc m) walker next x out =
    link_infos_outside m (walker + 1) (write next walker (walker + 1)) x
      (λ j h e. out (j + 1) (omega arith) (omega arith))
    ∙ write_other next walker (walker + 1) x λ e. out 0 (omega arith) (omega arith)

pub Every-pointers :
    (P : ℕ → Type 0) (l : List ℕ) → Every (λ q. P (suc q)) l → Every P (page_pointers l)
Every-pointers P [] e = tt
Every-pointers P (q ∷ l) (h, e) = (h, Every-pointers P l e)

link_range_lem :
    (m : ℕ) (first : Bool) (walker i : ℕ) (k : Links) (s : McKusickAllocator)
    → walker ≡ suc i
    → Linked.link_range m first walker (linked k s)
      ≡ linked
          (record k { page_next = link_infos m walker k.page_next })
          (record s { page_infos = mark_range m first i s.page_infos })
unfolding Linked.link_range mark_range
link_range_lem zero first walker i k s e =
    ap
      (λ j.
        linked (record k { page_next = write k.page_next walker 0 })
          (record s { page_infos = set_start j false s.page_infos }))
      (ap index e)
link_range_lem (suc m) first walker i k s e =
    ap
      (λ j. Linked.link_range m false (walker + 1) (
        linked (record k { page_next = write k.page_next walker (walker + 1) })
          (record s { page_infos = set_start j first s.page_infos })))
      (ap index e)
    ∙ link_range_lem m false (walker + 1) (i + 1)
        (record k { page_next = write k.page_next walker (walker + 1) })
        (record s { page_infos = set_start i first s.page_infos }) (omega (arith, e))

unlinked_front :
    (last : ℕ) (k : Links) (s : McKusickAllocator)
    → Linked.unlink 0 last (linked k s) ≡ linked (record k { first = k.page_next last }) s
unfolding Linked.unlink
unlinked_front last k s = refl

unlinked_behind :
    (prev last : ℕ) (k : Links) (s : McKusickAllocator)
    → 0 < prev
    → Linked.unlink prev last (linked k s)
      ≡ linked (record k { page_next = write k.page_next prev (k.page_next last) }) s
unfolding Linked.unlink
unlinked_behind prev last k s pos =
    let some_page : (prev == 0) ≡ false = ground arith in rw some_page refl

module _ (size : ℕ) (l : Linked) (some_pages : 0 < get_required_pages size) where
  abbrev FoundBy : Option (Option (ℕ × ℕ × ℕ)) → Type 0
  FoundBy r =
      Linked.search (suc l.total_pages) l.page_infos l.page_next (get_required_pages size) 0
        l.free_page_info
      ≡ r

  linked_refused : FoundBy (some none) → Linked.alloc_large size l ≡ some (0, l)
  unfolding Linked.alloc_large Linked.find_consecutive_pages
  linked_refused e =
      let pages : (get_required_pages size == 0) ≡ false = ground arith in
      rw (Linked.alloc_large, Linked.find_consecutive_pages, pages, e) refl

  linked_granted :
      (prev p last : ℕ) (t : Linked)
      → FoundBy (some (some (prev, suc p, last)))
      → Linked.link_range (get_required_pages size - 1) true (suc p) (Linked.unlink prev last l) ≡ t
      → Linked.alloc_large size l
        ≡ some (
          (t.page_infos p).page_addr,
          record t {
            page_infos =
                update t.page_infos p
                  (record (t.page_infos p) { size = size; is_start_of_buffer = true });
          },
        )
  unfolding Linked.alloc_large Linked.find_consecutive_pages
  linked_granted prev p last t e f =
      let pages : (get_required_pages size == 0) ≡ false = ground arith in
      let some_page : (suc p == 0) ≡ false = ground arith in
      rw (Linked.alloc_large, Linked.find_consecutive_pages, pages, e, f, some_page) refl

  linked_is_large : max_block_size < size → Linked.alloc size l ≡ Linked.alloc_large size l
  unfolding Linked.alloc
  linked_is_large h = ground arith

pub few_pages : (n : ℕ) (l : List ℕ) → IsRising 0 n l → length l ≤ n
few_pages n l r =
    let count =
      rising_length 0 n l [] (omega arith) (subst (IsRising 0 n) (sym (append-nil l)) r) in
    omega (arith, count)

outside_range :
    (p m : ℕ) (owner : Owners) (i : ℕ)
    → 0 < m
    → pages_owner p m owner i ≡ free_page
    → (x : ℕ) → x ≤ m - 1
    → suc i ≢ suc p + x
outside_range p m owner i pos h x le same = elim (Bool-cases (is_within p m i)) [
  | inl within ↦ part_not_free p (rw within at h)
  | inr out ↦
      let low : p ≤ i = omega arith in
      let high : i < p + m = omega arith in
      let within : is_within p m i ≡ true = ground arith in absurd (ground arith)
]

module _ (n : ℕ) (owner : Owners) (s : McKusickAllocator) (held : List Allocation)
    (o : IsSound n owner s held) (k : Links) (r : Spells k s) (size : ℕ)
    (big : max_block_size < size) (no_wrap : size + page_size ≤ word) where
  abbrev m : ℕ
  m = get_required_pages size

  abbrev some_pages : 0 < m
  some_pages = pages_pos size big no_wrap

  -- The range was unlinked, which left the pointers `j`, with the rest of the list.
  granted_with :
      (p last prev : ℕ) (rest : List ℕ) (j : Links)
      → find_range s.page_infos m s.free_page_info ≡ some (p, rest)
      → FoundBy size (linked k s) some_pages (some (some (prev, suc p, last)))
      → Linked.unlink prev last (linked k s) ≡ linked j s
      → ((b : ℕ) → b < bucket_count → Chain j.block_next (j.heads b) (bucket b s))
      → Chain j.page_next j.first (page_pointers rest)
      → AllocRefined size (linked k s) s
  granted_with p last prev rest j e f u blocks chain =
      let found = find_range-Range s.page_infos m s.free_page_info p rest e in
      let (before, after, list, remain, below, inside, room, high) =
        Range-indices n m s p rest o.laid found in
      let sound =
        IsSound-used n owner s held o size big no_wrap p rest before after list remain below inside
          room high in
      let j' : Links = record j { page_next = link_infos (m - 1) (suc p) j.page_next } in
      let t = used_state size m p rest s in
      let linking =
        ap (Linked.link_range (m - 1) true (suc p)) u
        ∙ link_range_lem (m - 1) true (suc p) p j s refl in
      (
        ((mark_range (m - 1) true p s.page_infos) p).page_addr,
        t,
        linked j' t,
        alloc_is_large size s big ∙ ap some (alloc_granted size s p rest some_pages e),
        linked_is_large size (linked k s) some_pages big
            ∙ linked_granted size (linked k s) some_pages prev p last _ f linking,
        (
          j',
          refl,
          record {
            blocks = blocks;
            pages =
                Chain-kept j.page_next j'.page_next j.first (page_pointers rest)
                  (Every-pointers (λ x. j'.page_next x ≡ j.page_next x) rest
                    (Every-weaken (λ i. pages_owner p m owner i ≡ free_page) _ rest
                      (λ i h.
                        link_infos_outside (m - 1) (suc p) j.page_next (suc i)
                          (outside_range p m owner i some_pages h))
                      sound.unowned))
                  chain;
          },
        ),
      )

  -- A request above a page.
  pub large-AllocRefined : AllocRefined size (linked k s) s
  large-AllocRefined = by_search (
      search_refined s.page_infos k.page_next m 0 n (suc s.total_pages) 0 k.first s.free_page_info
        (omega (arith, few_pages n s.free_page_info o.laid.rising, o.laid.count)) r.pages
        o.laid.rising)
    where
      by_search :
          SearchAgrees s.page_infos k.page_next m 0 (suc s.total_pages) 0 k.first s.free_page_info
          → AllocRefined size (linked k s) s
      by_search (not_found e f) = (
        0,
        s,
        linked k s,
        alloc_is_large size s big ∙ ap some (alloc_refused size s e),
        linked_is_large size (linked k s) some_pages big
            ∙ linked_refused size (linked k s) some_pages f,
        (k, refl, r),
      )
      by_search (at_current p last rest e f a c) =
          granted_with p last 0 rest (record k { first = k.page_next last }) e f
            (unlinked_front last k s) r.blocks c
      by_search (behind p last before rest e f a h c) =
          granted_with p last before rest
            (record k { page_next = write k.page_next before (k.page_next last) }) e f
            (unlinked_behind before last k s (omega arith)) r.blocks c
