-- ===== src/Bitonic/Interleaving/Confluence.antt =====
-- Every run of the threads of Labs/Lab2/src/main.cpp against the run of `bitonicSort` in order.
use mathlib.Core.List.{Perm}
use mai_os_labs.Prelude.{
  ℕ, zero, suc, ◌+◌, ◌/◌, ◌^◌, ◌≤◌, ◌≡◌, ◌∙◌, refl, sym, ap, List, [], ◌∷◌, ◌++◌, arith, length,
}
use mai_os_labs.Bitonic.{Shared, compare_and_swap, compare_halves, bitonic_merge, bitonic_sort}
use mai_os_labs.Bitonic.Loops.{shared, merge_branches, sort_branches}
use mai_os_labs.Bitonic.Sorted.{IsDir, IsOrdered}
use mai_os_labs.Bitonic.Main.{bitonic_sort-sorts}
use mai_os_labs.Bitonic.Interleaving.{
  Comparison, run, loop, Interleaved, both_done, first_moves, second_moves, MergeRun, merge_one,
  merge_halves, SortRun, sort_one, sort_halves,
}
use mai_os_labs.Bitonic.Interleaving.Disjoint.{IsWithin, Interleaved-run, length-run, run-append}

IsWithin-weaken :
    (low high low' high' : ℕ) (cs : List Comparison)
    → low' ≤ low
    → high ≤ high'
    → IsWithin low high cs
    → IsWithin low' high' cs
IsWithin-weaken low high low' high' [] p q w = tt
IsWithin-weaken low high low' high' (c ∷ cs) p q (a, b, d, e, w) = (
  omega arith,
  omega arith,
  omega arith,
  omega arith,
  IsWithin-weaken low high low' high' cs p q w,
)

IsWithin-append :
    (low high : ℕ) (xs ys : List Comparison)
    → IsWithin low high xs
    → IsWithin low high ys
    → IsWithin low high (xs ++ ys)
IsWithin-append low high [] ys w v = v
IsWithin-append low high (x ∷ xs) ys (a, b, d, e, w) v =
    (a, b, d, e, IsWithin-append low high xs ys w v)

Interleaved-IsWithin :
    {xs ys zs : List Comparison} (low high : ℕ)
    → Interleaved xs ys zs
    → IsWithin low high xs
    → IsWithin low high ys
    → IsWithin low high zs
Interleaved-IsWithin low high both_done w v = tt
Interleaved-IsWithin low high (first_moves c i) (a, b, d, e, w) v =
    (a, b, d, e, Interleaved-IsWithin low high i w v)
Interleaved-IsWithin low high (second_moves c i) w (a, b, d, e, v) =
    (a, b, d, e, Interleaved-IsWithin low high i w v)

loop-IsWithin :
    (n i k dir low high : ℕ) → low ≤ i → i + n + k ≤ high → IsWithin low high (loop n i k dir)
unfolding loop
loop-IsWithin zero i k dir low high p q = tt
loop-IsWithin (suc n) i k dir low high p q = (
  omega arith,
  omega arith,
  omega arith,
  omega arith,
  loop-IsWithin n (i + 1) k dir low high (omega arith) (omega arith),
)

MergeRun-IsWithin :
    {low cnt dir : ℕ} {ms : List Comparison} → MergeRun low cnt dir ms → IsWithin low (low + cnt) ms
MergeRun-IsWithin (merge_one low cnt dir small) = tt
MergeRun-IsWithin (merge_halves low cnt dir xs ys zs big l r i) =
    IsWithin-append low (low + cnt) (loop (cnt / 2) low (cnt / 2) dir) zs
      (loop-IsWithin (cnt / 2) low (cnt / 2) dir low (low + cnt) (omega arith) (omega arith))
      (Interleaved-IsWithin low (low + cnt) i
        (IsWithin-weaken low (low + cnt / 2) low (low + cnt) xs (omega arith) (omega arith)
          (MergeRun-IsWithin l))
        (IsWithin-weaken (low + cnt / 2) (low + cnt / 2 + cnt / 2) low (low + cnt) ys (omega arith)
          (omega arith) (MergeRun-IsWithin r)))

SortRun-IsWithin :
    {low cnt dir : ℕ} {cs : List Comparison} → SortRun low cnt dir cs → IsWithin low (low + cnt) cs
SortRun-IsWithin (sort_one low cnt dir small) = tt
SortRun-IsWithin (sort_halves low cnt dir xs ys zs ms big l r i m) =
    IsWithin-append low (low + cnt) zs ms
      (Interleaved-IsWithin low (low + cnt) i
        (IsWithin-weaken low (low + cnt / 2) low (low + cnt) xs (omega arith) (omega arith)
          (SortRun-IsWithin l))
        (IsWithin-weaken (low + cnt / 2) (low + cnt / 2 + cnt / 2) low (low + cnt) ys (omega arith)
          (omega arith) (SortRun-IsWithin r)))
      (MergeRun-IsWithin m)

run-loop : (n i k dir : ℕ) (arr : List ℕ) → run (loop n i k dir) arr ≡ compare_halves n i k dir arr
unfolding run loop compare_halves
run-loop zero i k dir arr = refl
run-loop (suc n) i k dir arr = run-loop n (i + 1) k dir (compare_and_swap arr i (i + k) dir)

merge_small :
    (fuel max_threads low cnt dir : ℕ) (s : Shared)
    → cnt ≤ 1
    → bitonic_merge fuel max_threads low cnt dir s ≡ s
unfolding bitonic_merge
merge_small zero max_threads low cnt dir s h = refl
merge_small (suc fuel) max_threads low cnt dir s h = ground arith

sort_small :
    (fuel max_threads low cnt dir : ℕ) (s : Shared)
    → cnt ≤ 1
    → bitonic_sort fuel max_threads low cnt dir s ≡ s
unfolding bitonic_sort
sort_small zero max_threads low cnt dir s h = refl
sort_small (suc fuel) max_threads low cnt dir s h = ground arith

MergeRun-bitonic_merge :
    {low cnt dir : ℕ} {ms : List Comparison} (fuel max_threads n : ℕ) (arr : List ℕ)
    → MergeRun low cnt dir ms
    → cnt ≤ fuel
    → low + cnt ≤ length arr
    → bitonic_merge fuel max_threads low cnt dir (shared arr n) ≡ shared (run ms arr) n
MergeRun-bitonic_merge fuel max_threads n arr (merge_one low cnt dir small) deep room =
    unfold run in merge_small fuel max_threads low cnt dir (shared arr n) small
MergeRun-bitonic_merge zero max_threads n arr (merge_halves low cnt dir xs ys zs big l r i) deep
      room =
    absurd (omega arith)
MergeRun-bitonic_merge (suc fuel) max_threads n arr (merge_halves low cnt dir xs ys zs big l r i)
      deep room =
    let k = cnt / 2 in
    let arr₁ = compare_halves k low k dir arr in
    let len : length arr₁ ≡ length arr =
      ap length (sym (run-loop k low k dir arr)) ∙ length-run (loop k low k dir) arr in
    let len₂ = length-run xs arr₁ in
    let whole : run (loop k low k dir ++ zs) arr ≡ run ys (run xs arr₁) =
      run-append (loop k low k dir) zs arr
      ∙ ap (run zs) (run-loop k low k dir arr)
      ∙ Interleaved-run low (low + k) (low + k + k) arr₁ i (omega (arith, len))
          (MergeRun-IsWithin l) (MergeRun-IsWithin r) in
    merge_branches fuel max_threads low cnt k dir n arr (run (loop k low k dir ++ zs) arr) big refl
      λ t.
        rw
          (
            whole,
            MergeRun-bitonic_merge fuel max_threads t arr₁ l (omega arith) (omega (arith, len)),
          )
          (MergeRun-bitonic_merge fuel max_threads t (run xs arr₁) r (omega arith)
            (omega (arith, len, len₂)))

SortRun-bitonic_sort :
    {low cnt dir : ℕ} {cs : List Comparison} (fuel max_threads n : ℕ) (arr : List ℕ)
    → SortRun low cnt dir cs
    → cnt ≤ fuel
    → low + cnt ≤ length arr
    → bitonic_sort fuel max_threads low cnt dir (shared arr n) ≡ shared (run cs arr) n
SortRun-bitonic_sort fuel max_threads n arr (sort_one low cnt dir small) deep room =
    unfold run in sort_small fuel max_threads low cnt dir (shared arr n) small
SortRun-bitonic_sort zero max_threads n arr (sort_halves low cnt dir xs ys zs ms big l r i m) deep
      room =
    absurd (omega arith)
SortRun-bitonic_sort (suc fuel) max_threads n arr (sort_halves low cnt dir xs ys zs ms big l r i m)
      deep room =
    let k = cnt / 2 in
    let len = length-run xs arr in
    let len₂ = length-run zs arr in
    let halves =
      Interleaved-run low (low + k) (low + k + k) arr i (omega arith) (SortRun-IsWithin l)
        (SortRun-IsWithin r) in
    sort_branches fuel max_threads low cnt k dir n arr (run zs arr) (run (zs ++ ms) arr) big refl
      (λ t.
        rw (halves, SortRun-bitonic_sort fuel max_threads t arr l (omega arith) (omega arith))
          (SortRun-bitonic_sort fuel max_threads t (run xs arr) r (omega arith)
            (omega (arith, len))))
      (rw (run-append zs ms arr) (
        MergeRun-bitonic_merge cnt max_threads n (run zs arr) m (omega arith)
          (omega (arith, len₂))))

-- However the threads take turns, and whatever the bound on their number, the vector ends up as
-- after the run that does one half after the other. Its length is any.
pub SortRun-confluent :
    (max_threads dir n : ℕ) (arr : List ℕ) (cs : List Comparison)
    → SortRun 0 (length arr) dir cs
    → (bitonic_sort
        (length arr + 1)
        max_threads
        0
        (length arr)
        dir
        (record { arr = arr; active_threads = n })).arr
      ≡ run cs arr
SortRun-confluent max_threads dir n arr cs r =
    ap (λ (s : Shared). s.arr)
      (SortRun-bitonic_sort (length arr + 1) max_threads n arr r (omega arith) (omega arith))

-- On a vector whose length is a power of two every interleaving of the threads puts the entries
-- in the order asked for, and keeps each as often as it was there.
pub SortRun-sorts :
    (m dir : ℕ) (arr : List ℕ) (cs : List Comparison)
    → IsDir dir
    → length arr ≡ 2 ^ m
    → SortRun 0 (length arr) dir cs
    → IsOrdered dir (run cs arr) × Perm (run cs arr) arr
SortRun-sorts m dir arr cs d e r =
    let (ordered, perm, _) = bitonic_sort-sorts m 0 dir 0 arr d e in
    let same = SortRun-confluent 0 dir 0 arr cs r in (rw same at ordered, rw same at perm)
