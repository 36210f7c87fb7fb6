-- ===== src/McKusick/Linked/Insert.antt =====
-- `insert_sorted` of Labs/CP/src/Mckusey-Carels.cpp, by pointers.
use mai_os_labs.Prelude.{
  ℕ, zero, suc, ◌<◌, ◌≤◌, ◌≡◌, ◌≢◌, refl, sym, subst, ◌∙◌, true, false, List, [], ◌∷◌, some, arith,
  length, ltb, ◌==◌, Bool-cases, inl, inr,
}
use mai_os_labs.McKusick.{McKusickAllocator, PageInfos, insert_after, insert_sorted}
use mai_os_labs.McKusick.Layout.{IsRising}
use mai_os_labs.McKusick.Ownership.{IsNew, Every-weaken}
use mai_os_labs.McKusick.Linked.{Linked, write, info}
use mai_os_labs.McKusick.Linked
use mai_os_labs.McKusick.Linked.Chain.{Chain, write_self, write_other, Chain-write, Chain-push}
use mai_os_labs.McKusick.Linked.Spelling.{Links, linked, page_pointers}
use mai_os_labs.McKusick.Linked.Search.{pointers-IsNew, IsRising-AreFrom}
use mai_os_labs.McKusick.Linked.LargeRequest.{Every-pointers}

-- The pointer to a page that is not in the list is not among the list's pointers.
pointer-IsNew : (page : ℕ) (l : List ℕ) → IsNew page l → IsNew (suc page) (page_pointers l)
pointer-IsNew page l new =
    Every-pointers (λ y. y ≢ suc page) l (Every-weaken _ _ l (λ q ne e. ne (omega arith)) new)

module _ (infos : PageInfos) (next : ℕ → ℕ) (page : ℕ) where
  -- The pointers after the page went behind the page that `c` points to.
  abbrev put_behind : ℕ → ℕ → ℕ
  put_behind c = write (write next (suc page) (next c)) c (suc page)

  put-Chain :
      (q n : ℕ) (l : List ℕ)
      → Chain next (next (suc q)) (page_pointers l)
      → IsRising (suc q) n l
      → IsNew page (q ∷ l)
      → Chain (put_behind (suc q)) (suc q) (page_pointers (q ∷ page ∷ l))
  put-Chain q n l c r (ne, new) =
      let at_q = write_self (write next (suc page) (next (suc q))) (suc q) (suc page) in
      let at_page : put_behind (suc q) (suc page) ≡ next (suc q) =
        write_other (write next (suc page) (next (suc q))) (suc q) (suc page) (suc page)
          (λ e. ne (omega arith))
        ∙ write_self next (suc page) (next (suc q)) in
      (
        refl,
        (λ e. absurd (omega arith)),
        (
          at_q,
          (λ e. absurd (omega arith)),
          subst (λ x. Chain (put_behind (suc q)) x (page_pointers l)) (sym at_page)
              (Chain-write (write next (suc page) (next (suc q))) (suc q) (suc page) (next (suc q))
                (page_pointers l)
                (pointers-IsNew (suc q) (suc q) l (omega arith) (IsRising-AreFrom (suc q) n l r))
                (Chain-write next (suc page) (next (suc q)) (next (suc q)) (page_pointers l)
                  (pointer-IsNew page l new) c)),
        ),
      )

  abbrev Placed : ℕ → ℕ → List ℕ → Type 0
  Placed fuel q l =
      (c : ℕ) × (Linked.find_place fuel infos next (suc page) (suc q) ≡ some c)
      × (suc q ≤ c)
      × Chain (put_behind c) (suc q) (page_pointers (q ∷ insert_after infos page l))

  find_place_refined :
      (n fuel q : ℕ) (l : List ℕ)
      → length l < fuel
      → Chain next (next (suc q)) (page_pointers l)
      → IsRising (suc q) n l
      → IsNew page (q ∷ l)
      → Placed fuel q l
  unfolding insert_after Linked.find_place
  find_place_refined n zero q l h c r new = absurd (omega arith)
  find_place_refined n (suc fuel) q [] h c r new =
      let at_end : (next (suc q) == 0) ≡ true = ground arith in
      (suc q, rw at_end refl, omega arith, put-Chain q n [] c r new)
  find_place_refined n (suc fuel) q (q' ∷ l) h c (low, top, r) (ne, new) =
      let some_page : (suc q' == 0) ≡ false = ground arith in
      elim (Bool-cases (ltb (infos q').page_addr (infos page).page_addr)) [
        | inl e ↦
            let (a, f, bound, chain) = find_place_refined n fuel q' l (omega arith) c.2 r new in
            let kept : put_behind a (suc q) ≡ suc q' =
              write_other (write next (suc page) (next a)) a (suc page) (suc q)
                (λ same. absurd (omega arith))
              ∙ write_other next (suc page) (next a) (suc q) (λ same. ne (omega arith))
              ∙ c.0 in
            (
              a,
              rw (c.0, some_page, e) f,
              omega arith,
              rw e (
                refl,
                (λ z. absurd (omega arith)),
                subst (λ x. Chain (put_behind a) x (page_pointers (q' ∷ insert_after infos page l)))
                    (sym kept) chain,
              ),
            )
        | inr e ↦ (
          suc q,
          rw (c.0, some_page, e) refl,
          omega arith,
          rw e (put-Chain q n (q' ∷ l) c (low, top, r) (ne, new)),
        )
      ]

-- `insert_sorted` leaves the same list on both, and changes no other pointer.
pub insert_sorted_refined :
    (n : ℕ) (k : Links) (s : McKusickAllocator) (page : ℕ) (list : List ℕ)
    → length list ≤ s.total_pages
    → Chain k.page_next k.first (page_pointers list)
    → IsRising 0 n list
    → IsNew page list
    → (first : ℕ) × (next : ℕ → ℕ) × (Linked.insert_sorted (suc page) (linked k s)
        ≡ some (linked (record k { first = first; page_next = next }) s))
      × Chain next first (page_pointers (insert_sorted s.page_infos page list))
unfolding insert_sorted Linked.insert_sorted
insert_sorted_refined n k s page [] fuel c r new =
    let at_end : (k.first == 0) ≡ true = ground arith in
    (
      suc page,
      write k.page_next (suc page) k.first,
      rw at_end refl,
      Chain-push k.page_next (suc page) k.first [] (λ e. absurd (omega arith)) tt c,
    )
insert_sorted_refined n k s page (p ∷ list) fuel c (low, top, r) (ne, new) =
    let some_page : (suc p == 0) ≡ false = ground arith in
    elim (Bool-cases (ltb (s.page_infos page).page_addr (s.page_infos p).page_addr)) [
      | inl e ↦ (
        suc page,
        write k.page_next (suc page) k.first,
        rw (c.0, some_page, e) refl,
        rw e (
            Chain-push k.page_next (suc page) k.first (page_pointers (p ∷ list))
              (λ z. absurd (omega arith)) (pointer-IsNew page (p ∷ list) (ne, new)) c),
      )
      | inr e ↦
          let (a, f, bound, chain) =
            find_place_refined s.page_infos k.page_next page n s.total_pages p list (omega arith)
              c.2 r (ne, new) in
          (
            k.first,
            put_behind s.page_infos k.page_next page a,
            rw (c.0, some_page, e, f) refl,
            rw (e, c.0) chain,
          )
    ]
