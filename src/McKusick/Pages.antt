-- ===== src/McKusick/Pages.antt =====
-- The list of free pages of Labs/CP/src/Mckusey-Carels.cpp: `insert_sorted` and
-- `find_consecutive_pages`.
use mathlib.Core.List.{Perm}
use mathlib.Core.List.Perm
use mathlib.Core.Option
use mai_os_labs.Prelude.{
  ℕ, ◌+◌, ◌<◌, ◌≡◌, ◌≢◌, inl, inr, refl, sym, ap, subst, ◌∙◌, true, List, [], ◌∷◌, ◌++◌, Option,
  none, some, arith, ltb, ◌==◌, length, add64, mul64, if◌then◌else◌, Bool-cases, Option-cases,
}
use mai_os_labs.McKusick.{PageInfos, insert_after, insert_sorted, walk_pages, find_range, page_size}

-- The addresses rise along the list.
abbrev pub IsAscending : PageInfos → List ℕ → Type 0
IsAscending infos [] = Unit {0}
IsAscending infos (p ∷ []) = Unit {0}
IsAscending infos (p ∷ q ∷ l) =
    ((infos p).page_addr < (infos q).page_addr) × IsAscending infos (q ∷ l)

-- No page of the list has the address of `page`.
abbrev pub IsApart : PageInfos → ℕ → List ℕ → Type 0
IsApart infos page [] = Unit {0}
IsApart infos page (p ∷ l) = ((infos p).page_addr ≢ (infos page).page_addr) × IsApart infos page l

module _ (infos : PageInfos) (page : ℕ) where
  insert_after-IsAscending :
      (p : ℕ) (l : List ℕ)
      → (infos p).page_addr < (infos page).page_addr
      → IsAscending infos (p ∷ l)
      → IsApart infos page l
      → IsAscending infos (p ∷ insert_after infos page l)
  unfolding insert_after
  insert_after-IsAscending p [] lt a n = (lt, tt)
  insert_after-IsAscending p (q ∷ l) lt a n =
      elim (Bool-cases (ltb (infos q).page_addr (infos page).page_addr)) [
        | inl e ↦ rw e (a.0, insert_after-IsAscending q l (ground arith) a.1 n.1)
        | inr e ↦ rw e (lt, (ground arith, a.1))
      ]

  insert_after-perm : (l : List ℕ) → Perm (insert_after infos page l) (page ∷ l)
  unfolding insert_after
  insert_after-perm [] = Perm.rfl
  insert_after-perm (q ∷ l) = elim (Bool-cases (ltb (infos q).page_addr (infos page).page_addr)) [
    | inl e ↦ rw e (Perm.trans (Perm.cons q (insert_after-perm l)) (Perm.swap page q l))
    | inr e ↦ rw e Perm.rfl
  ]

  -- A page that goes back into a list in address order, none of whose pages has its address, leaves
  -- the list in address order, and adds just itself.
  pub insert_sorted-IsAscending :
      (l : List ℕ)
      → IsAscending infos l
      → IsApart infos page l
      → IsAscending infos (insert_sorted infos page l)
        × Perm (insert_sorted infos page l) (page ∷ l)
  unfolding insert_sorted
  insert_sorted-IsAscending [] a n = (tt, Perm.rfl)
  insert_sorted-IsAscending (p ∷ l) a n =
      elim (Bool-cases (ltb (infos page).page_addr (infos p).page_addr)) [
        | inl e ↦ rw e ((ground arith, a), Perm.rfl)
        | inr e ↦ rw e (
          insert_after-IsAscending p l (ground arith) a n.1,
          Perm.trans (Perm.cons p (insert_after-perm l)) (Perm.swap page p l),
        )
      ]

-- The pages `l` follow on one another, the first of them `k` pages behind the address `start`.
abbrev pub IsRun : PageInfos → ℕ → ℕ → List ℕ → Type 0
IsRun infos start k [] = Unit {0}
IsRun infos start k (q ∷ l) =
    ((infos q).page_addr ≡ add64 start (mul64 k page_size)) × IsRun infos start (k + 1) l

module _ (infos : PageInfos) (start num_pages : ℕ) where
  -- What the inner loop passes over is a run.
  walk_pages-IsRun :
      (found : ℕ) (l : List ℕ)
      → (run after : List ℕ) × (walk_pages infos start num_pages found l
          ≡ (found + length run, after))
        × (l ≡ run ++ after)
        × IsRun infos start found run
  unfolding walk_pages
  walk_pages-IsRun found [] = ([], [], ground arith, refl, tt)
  walk_pages-IsRun found (q ∷ l) = elim (Bool-cases (ltb found num_pages)) [
    | inl e ↦ elim (Bool-cases ((infos q).page_addr == add64 start (mul64 found page_size))) [
      | inl e' ↦
          let (run, after, w, s, r) = walk_pages-IsRun (found + 1) l in
          (q ∷ run, after, rw (e, e') (w ∙ ground arith), ap (◌∷◌ q) s, (ground arith, r))
      | inr e' ↦ ([], q ∷ l, rw (e, e') (ground arith), refl, tt)
    ]
    | inr e ↦ ([], q ∷ l, rw e (ground arith), refl, tt)
  ]

  -- A run of the right length is passed over.
  walk_pages_complete :
      (found : ℕ) (run after : List ℕ)
      → IsRun infos start found run
      → found + length run ≡ num_pages
      → walk_pages infos start num_pages found (run ++ after) ≡ (num_pages, after)
  unfolding walk_pages
  walk_pages_complete found [] [] r e = ground arith
  walk_pages_complete found [] (q ∷ after) r e = ground arith
  walk_pages_complete found (q ∷ run) after r e =
      ground (arith, walk_pages_complete (found + 1) run after)

-- A range of `num_pages` pages, its first one `p`, in the list `l`, with `rest` around it.
pub data Range (infos : PageInfos) (num_pages : ℕ) (l : List ℕ) (p : ℕ) (rest : List ℕ)
    : Type 0 where
  range :
      (before run after : List ℕ)
      → l ≡ before ++ p ∷ (run ++ after)
      → rest ≡ before ++ after
      → length run + 1 ≡ num_pages
      → IsRun infos (infos p).page_addr 1 run
      → Range infos num_pages l p rest

abbrev keep_page : ℕ → ℕ × List ℕ → ℕ × List ℕ
keep_page q r = (r.0, q ∷ r.1)

module _ (infos : PageInfos) (num_pages : ℕ) where
  pub find_range_step :
      (q found : ℕ) (l after : List ℕ)
      → walk_pages infos (infos q).page_addr num_pages 1 l ≡ (found, after)
      → find_range infos num_pages (q ∷ l) ≡ (
          if found == num_pages
          then some (q, after)
          else Option.map (keep_page q) (find_range infos num_pages l))
  unfolding find_range
  find_range_step q found l after w = rw (find_range, w) refl

  none-some : {x : ℕ × List ℕ} → none ≡ some x → ⊥
  none-some e = cc

  Range-here :
      (q p : ℕ) (l run after rest : List ℕ)
      → l ≡ run ++ after
      → IsRun infos (infos q).page_addr 1 run
      → length run + 1 ≡ num_pages
      → ◌≡◌ {A = Option (ℕ × List ℕ)} (some (q, after)) (some (p, rest))
      → Range infos num_pages (q ∷ l) p rest
  Range-here q p l run after rest s r n e =
      let same : q ≡ p = ground arith in
      let behind : after ≡ rest = ground arith in
      range [] run after (rw (← same) (ap (◌∷◌ q) s)) (sym behind) n (rw same at r)

  Range-later :
      (q p : ℕ) (l rest : List ℕ) (r : ℕ × List ℕ)
      → Range infos num_pages l r.0 r.1
      → some (keep_page q r) ≡ some (p, rest)
      → Range infos num_pages (q ∷ l) p rest
  Range-later q p l rest r (range before run after s e n i) eq =
      let same : r.0 ≡ p = ground arith in
      let behind : q ∷ r.1 ≡ rest = ground arith in
      range (q ∷ before) run after (rw (← same) (ap (◌∷◌ q) s)) (sym behind ∙ ap (◌∷◌ q) e) n
        (rw same at i)

  -- Where the search answers, it answers with a range of that many consecutive pages of the list,
  -- and with the list that is left without them.
  pub find_range-Range :
      (l : List ℕ) (p : ℕ) (rest : List ℕ)
      → find_range infos num_pages l ≡ some (p, rest)
      → Range infos num_pages l p rest
  find_range-Range [] p rest e = unfold find_range in absurd (none-some e)
  find_range-Range (q ∷ l) p rest e =
      let (run, after, w, s, r) = walk_pages-IsRun infos (infos q).page_addr num_pages 1 l in
      let step = sym (find_range_step q (1 + length run) l after w) ∙ e in
      elim (Bool-cases (1 + length run == num_pages)) [
        | inl hit ↦ Range-here q p l run after rest s r (ground arith) (rw hit at step)
        | inr miss ↦ elim (Option-cases (find_range infos num_pages l)) [
          | inl e' ↦ absurd (none-some (rw (miss, e') at step))
          | inr (r', e') ↦
              Range-later q p l rest r' (find_range-Range l r'.0 r'.1 e') (rw (miss, e') at step)
        ]
      ]

  -- Where the list has such a range, the search does not fail.
  pub find_range_complete :
      (l : List ℕ) (p : ℕ) (rest : List ℕ)
      → Range infos num_pages l p rest
      → find_range infos num_pages l ≢ none
  find_range_complete l p rest (range before run after e e' n r) none_found =
      go before (subst (λ k. find_range infos num_pages k ≡ none) e none_found)
    where
      at_start : find_range infos num_pages (p ∷ (run ++ after)) ≢ none
      at_start h =
          let w =
            walk_pages_complete infos (infos p).page_addr num_pages 1 run after r (omega arith) in
          let step = sym h ∙ find_range_step p num_pages (run ++ after) after w in
          let hit : (num_pages == num_pages) ≡ true = ground arith in none-some (rw hit at step)

      go : (before : List ℕ) → find_range infos num_pages (before ++ p ∷ (run ++ after)) ≢ none
      go [] h = at_start h
      go (b ∷ before) h =
          let (run', after', w, s, r') =
            walk_pages-IsRun infos (infos b).page_addr num_pages 1 (before ++ p ∷ (run ++ after)) in
          let step = sym h ∙ find_range_step b _ (before ++ p ∷ (run ++ after)) after' w in
          elim (Bool-cases (1 + length run' == num_pages)) [
            | inl hit ↦ none-some (rw hit at step)
            | inr miss ↦
                elim (Option-cases (find_range infos num_pages (before ++ p ∷ (run ++ after)))) [
                  | inl e' ↦ go before e'
                  | inr (found, e') ↦ none-some (rw (miss, e') at step)
                ]
          ]
