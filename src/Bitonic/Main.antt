-- ===== src/Bitonic/Main.antt =====
-- `bitonicSort` of Labs/Lab2/src/main.cpp on a whole vector, and the run of `make_calculations`.
use mathlib.Core.List.{Perm}
use mai_os_labs.Prelude.{
  ℕ, ◌+◌, ◌%◌, ◌^◌, ◌<◌, ◌≡◌, ◌↔◌, ◌∙◌, refl, true, List, [], ◌∷◌, map, arith, length, length-map,
  append-nil,
}
use mai_os_labs.Bitonic.{bitonic_sort, check_sorted, make_calculations, sorting_successful}
use mai_os_labs.Bitonic.Network.{sort_net}
use mai_os_labs.Bitonic.Loops.{bitonic_sort-sort_net, lt-pow}
use mai_os_labs.Bitonic.Sorted.{IsDir, up, IsOrdered, sort_net-IsOrdered}
use mai_os_labs.Bitonic.Order.{sort_net-perm}

bitonic_sort_whole :
    (m fuel max_threads dir n : ℕ) (arr : List ℕ)
    → length arr ≡ 2 ^ m
    → m < fuel
    → bitonic_sort fuel max_threads 0 (length arr) dir (record { arr = arr; active_threads = n })
      ≡ record { arr = sort_net dir m arr; active_threads = n }
bitonic_sort_whole m fuel max_threads dir n arr e h =
    rw e (simp append-nil at (bitonic_sort-sort_net m fuel max_threads dir n [] arr [] e h))

-- On a vector whose length is a power of two, whatever the number of threads allowed and in use,
-- `bitonicSort` puts the entries in the order asked for, keeps each as often as it was there, and
-- leaves the counter of threads as it found it.
pub bitonic_sort-sorts :
    (m max_threads dir n : ℕ) (arr : List ℕ)
    → IsDir dir
    → length arr ≡ 2 ^ m
    → let s =
        bitonic_sort
          (length arr + 1)
          max_threads
          0
          (length arr)
          dir
          (record { arr = arr; active_threads = n }) in
      IsOrdered dir s.arr × Perm s.arr arr × (s.active_threads ≡ n)
bitonic_sort-sorts m max_threads dir n arr d e =
    rw (bitonic_sort_whole m (length arr + 1) max_threads dir n arr e (omega (arith, lt-pow m)))
      (sort_net-IsOrdered m arr d e, sort_net-perm dir m arr e, refl)

-- The final check accepts exactly the ascending vectors.
pub check_sorted_iff : (l : List ℕ) → (check_sorted l ≡ true) ↔ IsOrdered 1 l
unfolding check_sorted
check_sorted_iff [] = ((λ _. tt), (λ _. refl))
check_sorted_iff (x ∷ []) = ((λ _. tt), (λ _. refl))
check_sorted_iff (x ∷ y ∷ l) =
    let (to, from) = check_sorted_iff (y ∷ l) in
    ((λ h. ground (arith, to)), (λ h. ground (arith, from h.1)))

-- For a power of two of random numbers, and any number of threads allowed, the program reports
-- success, and its vector then holds the numbers modulo 1000 in ascending order.
pub make_calculations-succeeds :
    (m max_threads : ℕ) (randoms : List ℕ)
    → length randoms ≡ 2 ^ m
    → let r = make_calculations max_threads randoms in
      (r.1 ≡ sorting_successful) × IsOrdered 1 r.0 × Perm r.0 (map (λ k. k % 1000) randoms)
unfolding make_calculations
make_calculations-succeeds m max_threads randoms e =
    let input = map (λ k. k % 1000) randoms in
    let len = length-map randoms (λ k. k % 1000) ∙ e in
    let (ordered, perm, _) = bitonic_sort-sorts m max_threads 1 0 input up len in
    (rw ((check_sorted_iff _).1 ordered), ordered, perm)
