-- ===== src/Bitonic/Interleaving/Disjoint.antt =====
-- Comparisons of the threads of Labs/Lab2/src/main.cpp on two disjoint parts of the vector.
use mai_os_labs.Prelude.{
  ℕ, zero, suc, ◌+◌, ◌-◌, ◌≤◌, ◌<◌, ◌≡◌, ◌∙◌, refl, sym, ap, List, [], ◌∷◌, ◌++◌, arith, length,
  get_or, set, take, drop, length-set, length-take, take-append-drop, Bool-cases, inl, inr, ltb,
  ◌==◌,
}
use mai_os_labs.Bitonic.{compare_and_swap, int_of}
use mai_os_labs.Bitonic.Interleaving.{
  Comparison, run, Interleaved, both_done, first_moves, second_moves,
}

-- Every comparison is of entries from `low` on and below `high`.
abbrev pub IsWithin : ℕ → ℕ → List Comparison → Type 0
IsWithin low high [] = Unit {0}
IsWithin low high (c ∷ cs) =
    (low ≤ c.i) × (c.i < high) × (low ≤ c.j) × (c.j < high) × IsWithin low high cs

pub length-compare_and_swap :
    (arr : List ℕ) (i j dir : ℕ) → length (compare_and_swap arr i j dir) ≡ length arr
unfolding compare_and_swap
length-compare_and_swap arr i j dir = ground (
  arith,
  length-set arr i (get_or arr j 0),
  length-set (set arr i (get_or arr j 0)) j (get_or arr i 0),
)

pub length-run : (cs : List Comparison) (arr : List ℕ) → length (run cs arr) ≡ length arr
unfolding run
length-run [] arr = refl
length-run (c ∷ cs) arr =
    length-run cs (compare_and_swap arr c.i c.j c.dir) ∙ length-compare_and_swap arr c.i c.j c.dir

pub run-append : (xs ys : List Comparison) (arr : List ℕ) → run (xs ++ ys) arr ≡ run ys (run xs arr)
unfolding run
run-append [] ys arr = refl
run-append (x ∷ xs) ys arr = run-append xs ys (compare_and_swap arr x.i x.j x.dir)

get_or-front : (ps qs : List ℕ) (i : ℕ) → i < length ps → get_or (ps ++ qs) i 0 ≡ get_or ps i 0
get_or-front [] qs i h = absurd (omega arith)
get_or-front (p ∷ ps) qs zero h = refl
get_or-front (p ∷ ps) qs (suc i) h = get_or-front ps qs i (omega arith)

get_or-back : (ps qs : List ℕ) (i k : ℕ) → i ≡ length ps + k → get_or (ps ++ qs) i 0 ≡ get_or qs k 0
get_or-back [] qs i k e = ap (λ n. get_or qs n 0) (omega arith)
get_or-back (p ∷ ps) qs zero k e = absurd (omega arith)
get_or-back (p ∷ ps) qs (suc i) k e = get_or-back ps qs i k (omega arith)

set-front : (ps qs : List ℕ) (i v : ℕ) → i < length ps → set (ps ++ qs) i v ≡ set ps i v ++ qs
set-front [] qs i v h = absurd (omega arith)
set-front (p ∷ ps) qs zero v h = refl
set-front (p ∷ ps) qs (suc i) v h = ap (◌∷◌ p) (set-front ps qs i v (omega arith))

set-back : (ps qs : List ℕ) (i k v : ℕ) → i ≡ length ps + k → set (ps ++ qs) i v ≡ ps ++ set qs k v
set-back [] qs i k v e = ap (λ n. set qs n v) (omega arith)
set-back (p ∷ ps) qs zero k v e = absurd (omega arith)
set-back (p ∷ ps) qs (suc i) k v e = ap (◌∷◌ p) (set-back ps qs i k v (omega arith))

compare_front :
    (ps qs : List ℕ) (i j dir : ℕ)
    → i < length ps
    → j < length ps
    → compare_and_swap (ps ++ qs) i j dir ≡ compare_and_swap ps i j dir ++ qs
unfolding compare_and_swap
compare_front ps qs i j dir hi hj =
    let swapped =
      ap (λ l. set l j (get_or ps i 0)) (set-front ps qs i (get_or ps j 0) hi)
      ∙ set-front (set ps i (get_or ps j 0)) qs j (get_or ps i 0)
          (omega (arith, length-set ps i (get_or ps j 0))) in
    rw (get_or-front ps qs i hi, get_or-front ps qs j hj)
      (elim (Bool-cases (dir == int_of (ltb (get_or ps j 0) (get_or ps i 0)))) [
        | inl e ↦ rw e swapped
        | inr e ↦ rw e
      ])

compare_back :
    (ps qs : List ℕ) (i j k l dir : ℕ)
    → i ≡ length ps + k
    → j ≡ length ps + l
    → compare_and_swap (ps ++ qs) i j dir ≡ ps ++ compare_and_swap qs k l dir
unfolding compare_and_swap
compare_back ps qs i j k l dir ei ej =
    let swapped =
      ap (λ t. set t j (get_or qs k 0)) (set-back ps qs i k (get_or qs l 0) ei)
      ∙ set-back ps (set qs k (get_or qs l 0)) j l (get_or qs k 0) ej in
    rw (get_or-back ps qs i k ei, get_or-back ps qs j l ej)
      (elim (Bool-cases (dir == int_of (ltb (get_or qs l 0) (get_or qs k 0)))) [
        | inl e ↦ rw e swapped
        | inr e ↦ rw e
      ])

-- The same comparisons on the part of the vector from `b` on.
abbrev shift : ℕ → List Comparison → List Comparison
shift b [] = []
shift b (c ∷ cs) = record { i = c.i - b; j = c.j - b; dir = c.dir } ∷ shift b cs

-- Each of two threads works on its own part, whichever moves first.
Interleaved-split :
    {xs ys zs : List Comparison} (low b high : ℕ) (ps qs : List ℕ)
    → Interleaved xs ys zs
    → length ps ≡ b
    → IsWithin low b xs
    → IsWithin b high ys
    → run zs (ps ++ qs) ≡ run xs ps ++ run (shift b ys) qs
unfolding run
Interleaved-split low b high ps qs both_done e wx wy = refl
Interleaved-split low b high ps qs (first_moves c i) e (l₁, h₁, l₂, h₂, wx) wy =
    rw (compare_front ps qs c.i c.j c.dir (omega arith) (omega arith)) (
      Interleaved-split low b high (compare_and_swap ps c.i c.j c.dir) qs i
        (length-compare_and_swap ps c.i c.j c.dir ∙ e) wx wy)
Interleaved-split low b high ps qs (second_moves c i) e wx (l₁, h₁, l₂, h₂, wy) =
    rw (compare_back ps qs c.i c.j (c.i - b) (c.j - b) c.dir (omega arith) (omega arith))
      (Interleaved-split low b high ps (compare_and_swap qs (c.i - b) (c.j - b) c.dir) i e wx wy)

one_after_other : (xs ys : List Comparison) → Interleaved xs ys (xs ++ ys)
one_after_other [] [] = both_done
one_after_other [] (y ∷ ys) = second_moves y (one_after_other [] ys)
one_after_other (x ∷ xs) ys = first_moves x (one_after_other xs ys)

-- Two threads on disjoint parts, in any interleaving, do to the vector what the second does after
-- the first.
pub Interleaved-run :
    {xs ys zs : List Comparison} (low b high : ℕ) (arr : List ℕ)
    → Interleaved xs ys zs
    → b ≤ length arr
    → IsWithin low b xs
    → IsWithin b high ys
    → run zs arr ≡ run ys (run xs arr)
Interleaved-run {xs} {ys} {zs} low b high arr i room wx wy =
    let front : length (take b arr) ≡ b = omega (arith, length-take b arr) in
    let whole = sym (take-append-drop b arr) in
    ap (run zs) whole
    ∙ Interleaved-split low b high (take b arr) (drop b arr) i front wx wy
    ∙ sym
        (Interleaved-split low b high (take b arr) (drop b arr) (one_after_other xs ys) front wx wy)
    ∙ ap (run (xs ++ ys)) (sym whole)
    ∙ run-append xs ys arr
