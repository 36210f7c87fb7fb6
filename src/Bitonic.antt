-- ===== src/Bitonic.antt =====
-- Labs/Lab2/src/main.cpp: bitonic sort with a bounded number of threads. The state is the vector and
-- the counter of threads. A branch that starts threads runs them here one after the other, in
-- the order in which they are created; other interleavings are not modelled. Fuel stands for the
-- depth of the recursion, which halves `cnt`.
pub mod Network
pub mod Loops
pub mod ZeroOne
pub mod Sorted
pub mod Order
pub mod Main
pub mod Interleaving
pub mod Program
use mai_os_labs.Prelude.{
  ℕ, zero, suc, ◌+◌, ◌-◌, ◌/◌, ◌%◌, Bool, true, false, ◌&&◌, List, [], ◌∷◌, leb, ltb, ◌==◌,
  if◌then◌else◌, get_or, set, length, map,
}

pub record Shared : Type 0 where
  pub arr : List ℕ
  pub active_threads : ℕ

-- The value of a comparison as an `int`.
abbrev pub int_of : Bool → ℕ
int_of true = 1
int_of false = 0

-- `std::swap(arr[i], arr[j])`
pub swap : List ℕ → ℕ → ℕ → List ℕ
swap arr i j = set (set arr i (get_or arr j 0)) j (get_or arr i 0)

unfoldable pub compare_and_swap : List ℕ → ℕ → ℕ → ℕ → List ℕ
unfolding swap
compare_and_swap arr i j dir =
    if dir == int_of (ltb (get_or arr j 0) (get_or arr i 0)) then swap arr i j else arr

-- The loop of `bitonicMerge` over the `n` indices from `i` on.
unfoldable pub compare_halves : ℕ → ℕ → ℕ → ℕ → List ℕ → List ℕ
compare_halves zero i k dir arr = arr
compare_halves (suc n) i k dir arr =
    compare_halves n (i + 1) k dir (compare_and_swap arr i (i + k) dir)

-- `active_threads += n` and `active_threads -= n`, under the mutex.
abbrev pub add_threads : ℕ → Shared → Shared
add_threads n s = record s { active_threads = s.active_threads + n }

abbrev pub sub_threads : ℕ → Shared → Shared
sub_threads n s = record s { active_threads = s.active_threads - n }

unfoldable pub bitonic_merge : ℕ → ℕ → ℕ → ℕ → ℕ → Shared → Shared
bitonic_merge zero max_threads low cnt dir s = s
bitonic_merge (suc fuel) max_threads low cnt dir s =
    let k = cnt / 2 in
    let compared = record s { arr = compare_halves k low k dir s.arr } in
    let both = λ (t : Shared).
      bitonic_merge fuel max_threads (low + k) k dir (bitonic_merge fuel max_threads low k dir t) in
    let recursive = both compared in
    let threaded = sub_threads 1 (both (add_threads 1 compared)) in
    if ltb 1 cnt
    then (if ltb k 1024
        then recursive
        else if leb (compared.active_threads + 1) max_threads
        then threaded
        else recursive)
    else s

unfoldable pub bitonic_sort : ℕ → ℕ → ℕ → ℕ → ℕ → Shared → Shared
bitonic_sort zero max_threads low cnt dir s = s
bitonic_sort (suc fuel) max_threads low cnt dir s =
    let k = cnt / 2 in
    let both = λ (t : Shared).
      bitonic_sort fuel max_threads (low + k) k 0 (bitonic_sort fuel max_threads low k 1 t) in
    let recursive = both s in
    let threaded = sub_threads 2 (both (add_threads 2 s)) in
    if ltb 1 cnt
    then bitonic_merge cnt max_threads low cnt dir
        (if leb (s.active_threads + 2) max_threads then threaded else recursive)
    else s

-- The check at the end of `make_calculations`: no entry is below the one in front of it.
unfoldable pub check_sorted : List ℕ → Bool
check_sorted [] = true
check_sorted (x ∷ []) = true
check_sorted (x ∷ y ∷ rest) = if ltb y x then false else check_sorted (y ∷ rest)

pub data Verdict : Type 0 where
  sorting_failed sorting_successful : Verdict

-- `make_calculations` on the numbers that `rand` gives: the vector after sorting, and what is
-- printed.
unfoldable pub make_calculations : ℕ → List ℕ → List ℕ × Verdict
make_calculations max_threads randoms =
    let input = map (λ r. r % 1000) randoms in
    let n = length input in
    let sorted =
      bitonic_sort (n + 1) max_threads 0 n 1 (record { arr = input; active_threads = 0 }) in
    (sorted.arr, if check_sorted sorted.arr then sorting_successful else sorting_failed)
