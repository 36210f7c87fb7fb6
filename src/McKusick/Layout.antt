-- ===== src/McKusick/Layout.antt =====
-- The pages of Labs/CP/src/Mckusey-Carels.cpp by their indices: the page infos are in the order of
-- the addresses, so a list in address order is a rising list of indices.
use mai_os_labs.Prelude.{
  ℕ, suc, ◌+◌, ◌-◌, ◌*◌, ◌%◌, ◌<◌, ◌≤◌, ◌≡◌, ◌∙◌, refl, ap, subst, false, List, [], ◌∷◌, ◌++◌,
  arith, length, word, ltb,
}
use mai_os_labs.McKusick.{
  McKusickAllocator, PageInfos, page_size, indices, insert_after, insert_sorted,
}
use mai_os_labs.McKusick.Pages.{IsRun}

-- Rising indices from `lo` on and below `n`.
abbrev pub IsRising : ℕ → ℕ → List ℕ → Type 0
IsRising lo n [] = Unit {0}
IsRising lo n (p ∷ l) = (lo ≤ p) × (p < n) × IsRising (suc p) n l

-- The pages of the list are as the constructor leaves them.
abbrev pub AreBlank : PageInfos → List ℕ → Type 0
AreBlank infos [] = Unit {0}
AreBlank infos (p ∷ l) =
    ((infos p).size ≡ 0) × ((infos p).is_start_of_buffer ≡ false) × AreBlank infos l

abbrev pub AreInOrder : ℕ → ℕ → PageInfos → Type 0
AreInOrder base n infos = (i : ℕ) → i < n → (infos i).page_addr ≡ base + i * page_size

-- An allocator with `n` pages.
pub record IsLaid (n : ℕ) (s : McKusickAllocator) : Type 0 where
  pub count : s.total_pages - s.total_meta_pages ≡ n
  pub not_null : 0 < s.initial_memory
  pub aligned : s.initial_memory % page_size ≡ 0
  pub inside : s.initial_memory + n * page_size ≤ word
  pub in_order : AreInOrder s.initial_memory n s.page_infos
  pub rising : IsRising 0 n s.free_page_info
  pub blank : AreBlank s.page_infos s.free_page_info

pub IsRising-lower : (lo lo' n : ℕ) (l : List ℕ) → lo' ≤ lo → IsRising lo n l → IsRising lo' n l
IsRising-lower lo lo' n [] h r = tt
IsRising-lower lo lo' n (p ∷ l) h (a, b, r) = (omega arith, b, r)

-- All of the list are below `k`.
abbrev pub AreBelow : ℕ → List ℕ → Type 0
AreBelow k [] = Unit {0}
AreBelow k (p ∷ l) = (p < k) × AreBelow k l

pub AreBelow-snoc : (k : ℕ) (l : List ℕ) → AreBelow k l → AreBelow (k + 1) (l ++ k ∷ [])
AreBelow-snoc k [] b = (omega arith, tt)
AreBelow-snoc k (p ∷ l) (h, b) = (omega arith, AreBelow-snoc k l b)

-- What stands in a rising list in front of a page, and what stands behind it.
pub IsRising-before :
    (lo n : ℕ) (before : List ℕ) (p : ℕ) (l : List ℕ)
    → IsRising lo n (before ++ p ∷ l)
    → AreBelow p before × (lo ≤ p) × (p < n) × IsRising (suc p) n l
IsRising-before lo n [] p l (a, b, r) = (tt, a, b, r)
IsRising-before lo n (q ∷ before) p l (a, b, r) =
    let (below, c, d, rest) = IsRising-before (suc q) n before p l r in
    ((omega arith, below), omega arith, d, rest)

pub rising_length :
    (lo n : ℕ) (run after : List ℕ) → lo ≤ n → IsRising lo n (run ++ after) → lo + length run ≤ n
rising_length lo n [] after h r = omega arith
rising_length lo n (q ∷ run) after h (a, b, r) =
    let shorter = rising_length (suc q) n run after (omega arith) r in omega arith

pub AreBlank_behind :
    (infos : PageInfos) (before l : List ℕ) → AreBlank infos (before ++ l) → AreBlank infos l
AreBlank_behind infos [] l b = b
AreBlank_behind infos (q ∷ before) l (e, f, b) = AreBlank_behind infos before l b

module _ (base n : ℕ) (infos : PageInfos) (order : AreInOrder base n infos) where
  -- A run of rising pages is a run of indices.
  pub run_indices :
      (p k : ℕ) (run after : List ℕ)
      → base + n * page_size ≤ word
      → IsRising (p + k) n (run ++ after)
      → IsRun infos (base + p * page_size) k run
      → (run ≡ indices (p + k) (length run)) × IsRising (p + k + length run) n after
  run_indices p k [] after inside r i = (refl, subst (λ m. IsRising m n after) (omega arith) r)
  run_indices p k (q ∷ run) after inside (a, b, r) (e, i) =
      let same : q ≡ p + k = omega (arith, order q b, e) in
      let behind : IsRising (p + (k + 1)) n (run ++ after) =
        subst (λ m. IsRising m n (run ++ after)) (omega (arith, same)) r in
      let (e', r') = run_indices p (k + 1) run after inside behind i in
      (
        ap (λ (m : ℕ). m ∷ run) same
            ∙ ap (◌∷◌ (p + k)) (e' ∙ ap (λ m. indices m (length run)) (omega arith)),
        subst (λ m. IsRising m n after) (omega arith) r',
      )

  insert_after_between :
      (page : ℕ) (before after : List ℕ)
      → page < n
      → AreBelow page before
      → IsRising (suc page) n after
      → insert_after infos page (before ++ after) ≡ before ++ page ∷ after
  unfolding insert_after
  insert_after_between page [] [] h b r = refl
  insert_after_between page [] (q ∷ after) h b (r, r', r'') =
      let later : ltb (infos q).page_addr (infos page).page_addr ≡ false =
        ground (arith, order q r', order page h) in
      rw later
  insert_after_between page (p ∷ before) after h (b, below) r =
      ground (
        arith,
        order p (omega arith),
        order page h,
        insert_after_between page before after h below r,
      )

  -- A page goes back between those in front of it and those behind it.
  pub insert_sorted_between :
      (page : ℕ) (before after : List ℕ)
      → page < n
      → AreBelow page before
      → IsRising (suc page) n after
      → insert_sorted infos page (before ++ after) ≡ before ++ page ∷ after
  unfolding insert_sorted
  insert_sorted_between page [] [] h b r = refl
  insert_sorted_between page [] (q ∷ after) h b (r, r', r'') =
      ground (arith, order q r', order page h)
  insert_sorted_between page (p ∷ before) after h (b, below) r =
      ground (
        arith,
        order p (omega arith),
        order page h,
        insert_after_between page before after h below r,
      )
