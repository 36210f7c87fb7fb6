-- ===== src/Bitonic/Loops.antt =====
-- The loops of Labs/Lab2/src/main.cpp on the part of the vector that they are given.
use mai_os_labs.Prelude.{
  ℕ, zero, suc, ◌+◌, ◌/◌, ◌^◌, ◌<◌, ◌≡◌, ◌∙◌, refl, sym, ap, subst, List, [], ◌∷◌, ◌++◌, arith,
  length, take, drop, get_or, set, length-append, append_assoc, take-append-drop,
}
use mai_os_labs.Bitonic.{Shared, compare_and_swap, compare_halves, bitonic_merge, bitonic_sort}
use mai_os_labs.Bitonic.Network.{
  lower, upper, zip_with, merge_with, merge_net, sort_net, length-zip_with, length-take_half,
  length-drop_half, length-merge_with, length-sort_net, pow_suc,
}

get_or-append : (ps : List ℕ) (x d : ℕ) (rest : List ℕ) → get_or (ps ++ x ∷ rest) (length ps) d ≡ x
get_or-append [] x d rest = refl
get_or-append (p ∷ ps) x d rest = get_or-append ps x d rest

set-append :
    (ps : List ℕ) (x v : ℕ) (rest : List ℕ) → set (ps ++ x ∷ rest) (length ps) v ≡ ps ++ v ∷ rest
set-append [] x v rest = refl
set-append (p ∷ ps) x v rest = ap (◌∷◌ p) (set-append ps x v rest)

-- One comparison of the entries `x` and `y`, wherever they stand.
compare_and_swap_at :
    (ps : List ℕ) (x : ℕ) (qs : List ℕ) (y : ℕ) (rest : List ℕ) (dir j : ℕ)
    → j ≡ length (ps ++ x ∷ qs)
    → compare_and_swap (ps ++ x ∷ (qs ++ y ∷ rest)) (length ps) j dir
      ≡ ps ++ lower dir x y ∷ (qs ++ upper dir x y ∷ rest)
unfolding compare_and_swap
compare_and_swap_at ps x qs y rest dir j e =
    let long = λ (v w : ℕ). append_assoc ps (v ∷ qs) (w ∷ rest) in
    let at = λ (v : ℕ). e ∙ length-append ps (x ∷ qs) ∙ sym (length-append ps (v ∷ qs)) in
    ground (
      arith,
      get_or-append ps x 0 (qs ++ y ∷ rest),
      subst (λ l. get_or l j 0 ≡ y) (long x y) (rw e (get_or-append (ps ++ x ∷ qs) y 0 rest)),
      set-append ps x y (qs ++ y ∷ rest),
      subst (λ l. set l j x ≡ ps ++ y ∷ (qs ++ x ∷ rest)) (long y y)
          (rw (at y, set-append (ps ++ y ∷ qs) y x rest) (long y x)),
    )

-- One half of a merge: the entries `xs` and `ys` stand `k` apart.
compare_halves_at :
    (dir k : ℕ) (ps xs qs ys rest : List ℕ)
    → length xs ≡ length ys
    → k ≡ length xs + length qs
    → compare_halves (length xs) (length ps) k dir (ps ++ (xs ++ (qs ++ (ys ++ rest))))
      ≡ ps ++ (zip_with (lower dir) xs ys ++ (qs ++ (zip_with (upper dir) xs ys ++ rest)))
unfolding compare_halves
compare_halves_at dir k ps [] qs [] rest e ek = refl
compare_halves_at dir k ps [] qs (y ∷ ys) rest e ek = absurd (omega arith)
compare_halves_at dir k ps (x ∷ xs) qs [] rest e ek = absurd (omega arith)
compare_halves_at dir k ps (x ∷ xs) qs (y ∷ ys) rest e ek =
    let lo = lower dir x y in
    let hi = upper dir x y in
    let first =
      compare_and_swap_at ps x (xs ++ qs) y (ys ++ rest) dir (length ps + k)
        (omega (arith, length-append ps (x ∷ (xs ++ qs)), length-append xs qs)) in
    let next =
      compare_halves_at dir k (ps ++ lo ∷ []) xs (qs ++ hi ∷ []) ys rest (omega arith)
        (omega (arith, length-append qs (hi ∷ []))) in
    let len : length (ps ++ lo ∷ []) ≡ length ps + 1 = omega (arith, length-append ps (lo ∷ [])) in
    ap (compare_halves (length xs) (length ps + 1) k dir) (simp append_assoc at first)
    ∙ (simp (append_assoc, len) at next)

abbrev pub shared : List ℕ → ℕ → Shared
shared arr n = record { arr = arr; active_threads = n }

-- All branches of `bitonicMerge` do the same to the vector, and give back the threads they took.
pub merge_branches :
    (fuel max_threads low cnt k dir n : ℕ) (arr arr' : List ℕ)
    → 1 < cnt
    → cnt / 2 ≡ k
    → ((t : ℕ)
        → bitonic_merge fuel max_threads
            (low + k)
            k
            dir
            (bitonic_merge fuel max_threads low k dir (shared (compare_halves k low k dir arr) t))
          ≡ shared arr' t)
    → bitonic_merge (suc fuel) max_threads low cnt dir (shared arr n) ≡ shared arr' n
unfolding bitonic_merge
merge_branches fuel max_threads low cnt k dir n arr arr' h e both =
    rw e (ground (arith, both n, both (n + 1)))

pub sort_branches :
    (fuel max_threads low cnt k dir n : ℕ) (arr sorted arr' : List ℕ)
    → 1 < cnt
    → cnt / 2 ≡ k
    → ((t : ℕ)
        → bitonic_sort fuel max_threads
            (low + k)
            k
            0
            (bitonic_sort fuel max_threads low k 1 (shared arr t))
          ≡ shared sorted t)
    → bitonic_merge cnt max_threads low cnt dir (shared sorted n) ≡ shared arr' n
    → bitonic_sort (suc fuel) max_threads low cnt dir (shared arr n) ≡ shared arr' n
unfolding bitonic_sort
sort_branches fuel max_threads low cnt k dir n arr sorted arr' h e both merged =
    rw e (ground (arith, both n, both (n + 2)))

half : (m : ℕ) → 2 ^ suc m / 2 ≡ 2 ^ m
half m = omega (arith, pow_suc m)

pub pow_pos : (m : ℕ) → 0 < 2 ^ m
pow_pos zero = omega arith
pow_pos (suc m) = omega (arith, pow_suc m, pow_pos m)

-- The loop of `bitonicMerge` over both halves of `mid`.
compare_halves_mid :
    (m dir : ℕ) (ps mid rest : List ℕ)
    → length mid ≡ 2 ^ suc m
    → compare_halves (2 ^ m) (length ps) (2 ^ m) dir (ps ++ (mid ++ rest))
      ≡ ps
        ++ (zip_with (lower dir) (take (2 ^ m) mid) (drop (2 ^ m) mid)
            ++ (zip_with (upper dir) (take (2 ^ m) mid) (drop (2 ^ m) mid) ++ rest))
compare_halves_mid m dir ps mid rest e =
    let nx = length-take_half m mid e in
    let ny = length-drop_half m mid e in
    let halves =
      compare_halves_at dir (2 ^ m) ps (take (2 ^ m) mid) [] (drop (2 ^ m) mid) rest (nx ∙ sym ny)
        (omega (arith, nx)) in
    let whole =
      sym (append_assoc (take (2 ^ m) mid) (drop (2 ^ m) mid) rest)
      ∙ ap (λ l. l ++ rest) (take-append-drop (2 ^ m) mid) in
    rw (nx, whole) at halves

-- Two neighbouring parts, worked on one after the other.
two_parts :
    (f g : Shared → Shared) (ps xs ys rest xs' ys' : List ℕ) (t : ℕ)
    → f (shared (ps ++ (xs ++ (ys ++ rest))) t) ≡ shared (ps ++ (xs' ++ (ys ++ rest))) t
    → g (shared (ps ++ xs' ++ (ys ++ rest)) t) ≡ shared (ps ++ xs' ++ (ys' ++ rest)) t
    → g (f (shared (ps ++ (xs ++ (ys ++ rest))) t)) ≡ shared (ps ++ (xs' ++ ys' ++ rest)) t
two_parts f g ps xs ys rest xs' ys' t e e' =
    ap g e ∙ (simp append_assoc at e') ∙ ap (λ l. shared l t) (simp append_assoc)

-- The depth of the recursion is below the number of entries.
pub lt-pow : (m : ℕ) → m < 2 ^ m
lt-pow zero = omega arith
lt-pow (suc m) = omega (arith, pow_suc m, lt-pow m)

-- `bitonicMerge` on the `2 ^ m` entries `mid` of the vector is the merge network there, and
-- leaves the other entries and the counter of threads alone.
pub bitonic_merge-merge_net :
    (m fuel max_threads dir n : ℕ) (ps mid rest : List ℕ)
    → length mid ≡ 2 ^ m
    → m < fuel
    → bitonic_merge fuel max_threads (length ps) (2 ^ m) dir (shared (ps ++ (mid ++ rest)) n)
      ≡ shared (ps ++ (merge_net dir m mid ++ rest)) n
unfolding merge_with
bitonic_merge-merge_net m zero max_threads dir n ps mid rest e h = elim h [ ]
bitonic_merge-merge_net zero (suc fuel) max_threads dir n ps mid rest e h =
    unfold bitonic_merge in refl
bitonic_merge-merge_net (suc m) (suc fuel) max_threads dir n ps mid rest e h =
    merge_branches fuel max_threads (length ps) (2 ^ suc m) (2 ^ m) dir n (ps ++ (mid ++ rest)) _
      (omega (arith, pow_suc m, pow_pos m)) (half m)
      λ t.
        let nx = length-take_half m mid e in
        let ny = length-drop_half m mid e in
        let lo = zip_with (lower dir) (take (2 ^ m) mid) (drop (2 ^ m) mid) in
        let hi = zip_with (upper dir) (take (2 ^ m) mid) (drop (2 ^ m) mid) in
        let nlo = length-zip_with (lower dir) (2 ^ m) _ _ nx ny in
        let nhi = length-zip_with (upper dir) (2 ^ m) _ _ nx ny in
        let low =
          length-append ps (merge_net dir m lo)
          ∙ ap (λ k. length ps + k) (length-merge_with (lower dir) (upper dir) m lo nlo) in
        rw (compare_halves_mid m dir ps mid rest e) (
          two_parts (bitonic_merge fuel max_threads (length ps) (2 ^ m) dir)
            (bitonic_merge fuel max_threads (length ps + 2 ^ m) (2 ^ m) dir) ps lo hi rest
            (merge_net dir m lo) (merge_net dir m hi) t
            (bitonic_merge-merge_net m fuel max_threads dir t ps lo (hi ++ rest) nlo (omega arith))
            (rw low at (
              bitonic_merge-merge_net m fuel max_threads dir t (ps ++ merge_net dir m lo) hi rest
                nhi (omega arith))))

-- `bitonicSort` likewise is the sorting network.
pub bitonic_sort-sort_net :
    (m fuel max_threads dir n : ℕ) (ps mid rest : List ℕ)
    → length mid ≡ 2 ^ m
    → m < fuel
    → bitonic_sort fuel max_threads (length ps) (2 ^ m) dir (shared (ps ++ (mid ++ rest)) n)
      ≡ shared (ps ++ (sort_net dir m mid ++ rest)) n
unfolding sort_net
bitonic_sort-sort_net m zero max_threads dir n ps mid rest e h = elim h [ ]
bitonic_sort-sort_net zero (suc fuel) max_threads dir n ps mid rest e h =
    unfold bitonic_sort in refl
bitonic_sort-sort_net (suc m) (suc fuel) max_threads dir n ps mid rest e h =
    let nx = length-take_half m mid e in
    let ny = length-drop_half m mid e in
    let left = sort_net 1 m (take (2 ^ m) mid) in
    let right = sort_net 0 m (drop (2 ^ m) mid) in
    let nl = length-sort_net 1 m _ nx in
    let nr = length-sort_net 0 m _ ny in
    let low = length-append ps left ∙ ap (λ k. length ps + k) nl in
    let whole =
      ap (λ l. l ++ rest) (sym (take-append-drop (2 ^ m) mid))
      ∙ append_assoc (take (2 ^ m) mid) (drop (2 ^ m) mid) rest in
    sort_branches fuel max_threads (length ps) (2 ^ suc m) (2 ^ m) dir n (ps ++ (mid ++ rest))
      (ps ++ (left ++ right ++ rest)) _ (omega (arith, pow_suc m, pow_pos m)) (half m)
      (λ t. rw whole (
        two_parts (bitonic_sort fuel max_threads (length ps) (2 ^ m) 1)
          (bitonic_sort fuel max_threads (length ps + 2 ^ m) (2 ^ m) 0) ps (take (2 ^ m) mid)
          (drop (2 ^ m) mid) rest left right t
          (bitonic_sort-sort_net m fuel max_threads 1 t ps (take (2 ^ m) mid)
            (drop (2 ^ m) mid ++ rest) nx (omega arith))
          (rw low at (
            bitonic_sort-sort_net m fuel max_threads 0 t (ps ++ left) (drop (2 ^ m) mid) rest ny
              (omega arith)))))
      (bitonic_merge-merge_net (suc m) (2 ^ suc m) max_threads dir n ps (left ++ right) rest
        (omega (arith, pow_suc m, length-append left right, nl, nr)) (lt-pow (suc m)))
