-- ===== src/McKusick/Linked/Search.antt =====
-- `find_consecutive_pages` of Labs/CP/src/Mckusey-Carels.cpp by pointers: its two loops.
use mai_os_labs.Prelude.{
  ℕ, zero, suc, ◌+◌, ◌<◌, ◌≤◌, ◌≡◌, ◌≢◌, refl, sym, subst, ◌∙◌, true, false, List, [], ◌∷◌, none,
  some, arith, length, ltb, ◌==◌, if◌then◌else◌, Bool-cases, inl, inr, add64, mul64,
}
use mathlib.Core.Option
use mai_os_labs.McKusick.{PageInfos, page_size, walk_pages, find_range}
use mai_os_labs.McKusick.Pages.{find_range_step}
use mai_os_labs.McKusick.Layout.{IsRising}
use mai_os_labs.McKusick.Ownership.{Every, Every-weaken}
use mai_os_labs.McKusick.Linked.{write, info}
use mai_os_labs.McKusick.Linked
use mai_os_labs.McKusick.Linked.Chain.{Chain, write_self, write_other, Chain-write}
use mai_os_labs.McKusick.Linked.Spelling.{page_pointers}

-- Pages from `lo` on.
abbrev pub AreFrom : ℕ → List ℕ → Type 0
AreFrom lo = Every (λ q. lo ≤ q)

module _ (infos : PageInfos) (next : ℕ → ℕ) (start num_pages : ℕ) where
  abbrev Walked : ℕ → ℕ → ℕ → ℕ → List ℕ → Type 0
  Walked lo fuel found walker l =
      let r = walk_pages infos start num_pages found l in
      (last : ℕ) × (Linked.walk fuel infos next start num_pages found walker ≡ (r.0, last))
      × Chain next (next last) (page_pointers r.1)
      × AreFrom lo r.1

  stays :
      (lo fuel found walker : ℕ) (l : List ℕ)
      → Linked.walk fuel infos next start num_pages found walker ≡ (found, walker)
      → walk_pages infos start num_pages found l ≡ (found, l)
      → Chain next (next walker) (page_pointers l)
      → AreFrom lo l
      → Walked lo fuel found walker l
  stays lo fuel found walker l e f c a = rw f (walker, e, c, a)

  pub walk_refined :
      (lo fuel found walker : ℕ) (l : List ℕ)
      → num_pages ≤ found + fuel
      → Chain next (next walker) (page_pointers l)
      → AreFrom lo l
      → Walked lo fuel found walker l
  unfolding walk_pages Linked.walk
  walk_refined lo zero found walker [] h c a = stays lo zero found walker [] refl refl c a
  walk_refined lo (suc fuel) found walker [] h c a =
      let at_end : (next walker == 0) ≡ true = ground arith in
      stays lo (suc fuel) found walker [] (ground arith) refl c a
  walk_refined lo zero found walker (q ∷ l) h c a =
      let done : ltb found num_pages ≡ false = ground arith in
      stays lo zero found walker (q ∷ l) refl (rw done refl) c a
  walk_refined lo (suc fuel) found walker (q ∷ l) h c a = elim (Bool-cases (ltb found num_pages)) [
    | inr e ↦ stays lo (suc fuel) found walker (q ∷ l) (rw e refl) (rw e refl) c a
    | inl e ↦
        let some_page : (suc q == 0) ≡ false = ground arith in
        elim (Bool-cases ((infos q).page_addr == add64 start (mul64 found page_size))) [
          | inr f ↦
              stays lo (suc fuel) found walker (q ∷ l) (rw (e, c.0, some_page, f) refl)
                (rw (e, f) refl) c a
          | inl f ↦
              rw (e, f, c.0, some_page, f)
                (walk_refined lo fuel (found + 1) (suc q) l (omega arith) c.2 a.1)
        ]
  ]

-- What both searches find from a page on: nothing, a range there, or a range behind the page `before`.
pub data SearchAgrees (infos : PageInfos) (next : ℕ → ℕ) (num_pages lo fuel prev current : ℕ)
    (l : List ℕ) : Type 0 where
  not_found :
      find_range infos num_pages l ≡ none
      → Linked.search fuel infos next num_pages prev current ≡ some none
      → SearchAgrees infos next num_pages lo fuel prev current l
  at_current :
      (p last : ℕ) (rest : List ℕ)
      → find_range infos num_pages l ≡ some (p, rest)
      → Linked.search fuel infos next num_pages prev current ≡ some (some (prev, suc p, last))
      → AreFrom lo rest
      → Chain next (next last) (page_pointers rest)
      → SearchAgrees infos next num_pages lo fuel prev current l
  behind :
      (p last before : ℕ) (rest : List ℕ)
      → find_range infos num_pages l ≡ some (p, rest)
      → Linked.search fuel infos next num_pages prev current ≡ some (some (before, suc p, last))
      → AreFrom lo rest
      → suc lo ≤ before
      → Chain (write next before (next last)) current (page_pointers rest)
      → SearchAgrees infos next num_pages lo fuel prev current l

pub IsRising-AreFrom : (lo n : ℕ) (l : List ℕ) → IsRising lo n l → AreFrom lo l
IsRising-AreFrom lo n [] r = tt
IsRising-AreFrom lo n (q ∷ l) (low, top, r) =
    (low, Every-weaken _ _ l (λ x b. omega arith) (IsRising-AreFrom (suc q) n l r))

pub pointers-IsNew :
    (x lo : ℕ) (l : List ℕ) → x ≤ lo → AreFrom lo l → Every (λ y. y ≢ x) (page_pointers l)
pointers-IsNew x lo [] h a = tt
pointers-IsNew x lo (q ∷ l) h (b, a) = ((λ e. absurd (omega arith)), pointers-IsNew x lo l h a)

module _ (infos : PageInfos) (next : ℕ → ℕ) (num_pages : ℕ) where
  search_end :
      (fuel prev current : ℕ)
      → current ≡ 0
      → Linked.search (suc fuel) infos next num_pages prev current ≡ some none
  unfolding Linked.search
  search_end fuel prev current e =
      let at_end : (current == 0) ≡ true = ground arith in rw at_end refl

  search_step :
      (fuel prev q found last : ℕ)
      → Linked.walk num_pages infos next (infos q).page_addr num_pages 1 (suc q) ≡ (found, last)
      → Linked.search (suc fuel) infos next num_pages prev (suc q) ≡ (
          if found == num_pages
          then some (some (prev, suc q, last))
          else Linked.search fuel infos next num_pages (suc q) (next (suc q)))
  unfolding Linked.search
  search_step fuel prev q found last w =
      let some_page : (suc q == 0) ≡ false = ground arith in rw (Linked.search, some_page, w) refl

  module _ (lo n prev fuel q : ℕ) (l : List ℕ) (low : lo ≤ q) (some_page : suc q ≢ 0)
      (step : find_range infos num_pages (q ∷ l)
        ≡ Option.map (λ r. (r.0, q ∷ r.1)) (find_range infos num_pages l))
      (linked_step : Linked.search (suc fuel) infos next num_pages prev (suc q)
        ≡ Linked.search fuel infos next num_pages (suc q) (next (suc q))) where
    -- The search goes on behind `q`.
    later :
        SearchAgrees infos next num_pages (suc q) fuel (suc q) (next (suc q)) l
        → SearchAgrees infos next num_pages lo (suc fuel) prev (suc q) (q ∷ l)
    later (not_found e f) = not_found (step ∙ rw e refl) (linked_step ∙ f)
    later (at_current p last rest e f a c) =
        behind p last (suc q) (q ∷ rest) (step ∙ rw e refl) (linked_step ∙ f)
          (low, Every-weaken _ _ rest (λ x h. omega arith) a) (omega arith)
          (
            refl,
            some_page,
            subst (λ x. Chain (write next (suc q) (next last)) x (page_pointers rest))
                (sym (write_self next (suc q) (next last)))
                (Chain-write next (suc q) (next last) (next last) (page_pointers rest)
                  (pointers-IsNew (suc q) (suc q) rest (omega arith) a) c),
          )
    later (behind p last before rest e f a h c) =
        behind p last before (q ∷ rest) (step ∙ rw e refl) (linked_step ∙ f)
          (low, Every-weaken _ _ rest (λ x h. omega arith) a) (omega arith)
          (
            refl,
            some_page,
            subst (λ x. Chain (write next before (next last)) x (page_pointers rest))
                (sym (write_other next before (next last) (suc q) (λ same. absurd (omega arith))))
                c,
          )

  no_pages : find_range infos num_pages [] ≡ none
  unfolding find_range
  no_pages = refl

  pub search_refined :
      (lo n fuel prev current : ℕ) (l : List ℕ)
      → length l < fuel
      → Chain next current (page_pointers l)
      → IsRising lo n l
      → SearchAgrees infos next num_pages lo fuel prev current l
  search_refined lo n zero prev current l h c r = absurd (omega arith)
  search_refined lo n (suc fuel) prev current [] h c r =
      not_found no_pages (search_end fuel prev current c)
  search_refined lo n (suc fuel) prev current (q ∷ l) h c (low, top, r) =
      let (last, w, chain, from) =
        walk_refined infos next (infos q).page_addr num_pages (suc q) num_pages 1 (suc q) l
          (omega arith) c.2 (IsRising-AreFrom (suc q) n l r) in
      let (found, after) = walk_pages infos (infos q).page_addr num_pages 1 l in
      let step = find_range_step infos num_pages q found l after refl in
      let linked_step = search_step fuel prev q found last w in
      subst (λ x. SearchAgrees infos next num_pages lo (suc fuel) prev x (q ∷ l)) (sym c.0)
        (elim (Bool-cases (found == num_pages)) [
          | inl hit ↦
              at_current q last after (rw hit at step) (rw hit at linked_step)
                (Every-weaken _ _ after (λ x b. omega arith) from) chain
          | inr miss ↦
              later lo n prev fuel q l low c.1 (rw miss at step) (rw miss at linked_step)
                (search_refined (suc q) n fuel (suc q) (next (suc q)) l (omega arith) c.2 r)
        ])
