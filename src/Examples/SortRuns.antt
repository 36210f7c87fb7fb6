-- ===== src/Examples/SortRuns.antt =====
-- Concrete runs of Labs/Lab2/src/main.cpp on four and eight numbers.
use mathlib.Core.List.{Perm}
use mai_os_labs.Prelude.{arith, ◌*◌, ◌++◌, ℕ, ◌+◌, ◌≡◌, refl, List, [], ◌∷◌, length}
use mai_os_labs.Bitonic.{bitonic_sort, bitonic_merge, compare_halves, compare_and_swap}
use mai_os_labs.Prelude.Int.{pos}
use mai_os_labs.Bitonic.Interleaving.{
  run, loop, both_done, merge_one, merge_halves, SortRun, sort_one, sort_halves,
}
use mai_os_labs.Bitonic.Interleaving.Confluence.{SortRun-confluent, SortRun-sorts}
use mai_os_labs.Bitonic.Program
use mai_os_labs.Bitonic.Program.{drawn}
use mai_os_labs.Bitonic.Program.Sizes.{Reported, main_program-Reported}
use mai_os_labs.Bitonic.Sorted.{up, down, IsOrdered}
use mai_os_labs.Bitonic.Main.{bitonic_sort-sorts}

abbrev four : List ℕ
four = 3 ∷ 1 ∷ 4 ∷ 1 ∷ []

four_sorted :
    (bitonic_sort 5 2 0 4 1 (record { arr = four; active_threads = 0 })).arr ≡ 1 ∷ 1 ∷ 3 ∷ 4 ∷ []
unfolding bitonic_sort bitonic_merge compare_halves compare_and_swap
four_sorted = refl

bitonic_sort-sorts_example :
    let s =
      bitonic_sort
        (length four + 1)
        2
        0
        (length four)
        0
        (record { arr = four; active_threads = 0 }) in
    IsOrdered 0 s.arr × Perm s.arr four × (s.active_threads ≡ 0)
bitonic_sort-sorts_example = bitonic_sort-sorts 2 2 0 0 four down refl

abbrev randoms : List ℕ
randoms = 2003 ∷ 11 ∷ 5999 ∷ 42 ∷ 7 ∷ 1042 ∷ 0 ∷ 12345 ∷ []

-- Two entries in descending order: the one comparison of the merge.
abbrev pair : List ℕ
pair = 5 ∷ 2 ∷ []

pair-SortRun : SortRun 0 (length pair) 1 (loop 1 0 1 1 ++ [])
pair-SortRun =
    sort_halves 0 2 1 [] [] [] _ (omega arith) (sort_one 0 1 1 (omega arith))
      (sort_one 1 1 0 (omega arith)) both_done
      (merge_halves 0 2 1 [] [] [] (omega arith) (merge_one 0 1 1 (omega arith))
        (merge_one 1 1 1 (omega arith)) both_done)

SortRun-confluent_example :
    (bitonic_sort
      (length pair + 1)
      2
      0
      (length pair)
      1
      (record { arr = pair; active_threads = 0 })).arr
    ≡ run (loop 1 0 1 1 ++ []) pair
SortRun-confluent_example = SortRun-confluent 2 1 0 pair (loop 1 0 1 1 ++ []) pair-SortRun

SortRun-sorts_example :
    IsOrdered 1 (run (loop 1 0 1 1 ++ []) pair) × Perm (run (loop 1 0 1 1 ++ []) pair) pair
SortRun-sorts_example = SortRun-sorts 1 1 pair (loop 1 0 1 1 ++ []) up refl pair-SortRun

main_program-Reported_example :
    Reported 6
      (pos 2)
      (drawn (λ i. 1000 * i + 7) 0 6)
      (Program.main_program 3 (pos 6) (pos 2) (λ i. 1000 * i + 7))
main_program-Reported_example = main_program-Reported 6 (pos 2) (λ i. 1000 * i + 7) (omega arith)
