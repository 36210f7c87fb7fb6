-- ===== src/Usage/Contract.antt =====
-- What the loops of Labs/CP/src/usage_factor.cpp and Labs/CP/src/cock.cpp need of an allocator, and what
-- they do to one that keeps it.
use mathlib.Core.List.{Perm, perm_middle}
use mathlib.Core.List.Perm
use mai_os_labs.Prelude.{
  ℕ, ◌+◌, ◌%◌, ◌≤◌, ◌<◌, ◌≡◌, ◌≢◌, refl, List, [], ◌∷◌, ◌++◌, arith, word, length, not, ◌&&◌, ◌==◌,
  Bool-cases, inl, inr, append-nil,
}
use mathlib.Core.List.{map-append}
use mai_os_labs.Usage.{
  Allocator, Allocation, Draw, Usage, is_empty, free_at, request, round, rounds, free_all, fresh,
  requests, test_random_with_deallocations, test_random_allocations, run_requests, free_pointers,
  run_test,
}
use mai_os_labs.Usage.Accounts.{
  pointers, total_size, swap_remove-perm, total_size-perm, index_bound,
}

-- `Holds s held`: the allocator is in order, and `held` is what was granted and not given back.
pub record Contract {State : Type 0} (a : Allocator State) (capacity : ℕ) : Type 1 where
  pub Holds : State → List Allocation → Type 0
  pub reorder :
      (s : State) (held held' : List Allocation) → Perm held held' → Holds s held → Holds s held'
  pub refused :
      (s : State) (held : List Allocation) (size : ℕ)
      → Holds s held
      → 2 ≤ size
      → size + 4096 ≤ word
      → (a.alloc size s).0 ≡ 0
      → Holds (a.alloc size s).1 held
  pub granted :
      (s : State) (held : List Allocation) (size : ℕ)
      → Holds s held
      → 2 ≤ size
      → size + 4096 ≤ word
      → (a.alloc size s).0 ≢ 0
      → Holds (a.alloc size s).1 (record { ptr = (a.alloc size s).0; size = size } ∷ held)
  pub freed :
      (s : State) (h : Allocation) (held : List Allocation)
      → Holds s (h ∷ held)
      → Holds (a.free h.ptr s) held
  pub within : (s : State) (held : List Allocation) → Holds s held → total_size held ≤ capacity

-- Sizes that are not below 2 and do not wrap around with a page.
abbrev pub AreRequests : List ℕ → Type 0
AreRequests [] = Unit {0}
AreRequests (size ∷ sizes) = (2 ≤ size) × (size + 4096 ≤ word) × AreRequests sizes

-- The sizes that `size_dis` draws.
abbrev pub IsDrawSize : List Draw → Type 0
IsDrawSize [] = Unit {0}
IsDrawSize (d ∷ ds) = (8 ≤ d.size) × (d.size ≤ 1024) × IsDrawSize ds

module _ {State : Type 0} (a : Allocator State) (capacity : ℕ) (c : Contract a capacity)
    (small : capacity < word) where
  -- The vector of a test is what the allocator has granted, and the counters are right.
  pub record IsKept (u : Usage State) : Type 0 where
    pub holds : c.Holds u.allocator u.active_allocations
    pub used : u.current_used ≡ total_size u.active_allocations
    pub peak : u.max_used ≤ capacity

  free_at-IsKept :
      (i : ℕ) (u : Usage State)
      → i < length u.active_allocations
      → IsKept u
      → IsKept (free_at a i u)
  unfolding free_at
  free_at-IsKept i u h k =
      let p = swap_remove-perm u.active_allocations i h in
      let t = total_size-perm p in
      let bound = c.within u.allocator u.active_allocations k.holds in
      record {
        holds = c.freed u.allocator _ _ (c.reorder u.allocator _ _ (Perm.symm p) k.holds);
        used = omega (arith, t, k.used, bound);
        peak = k.peak;
      }

  pub request-IsKept :
      (size : ℕ) (u : Usage State)
      → 2 ≤ size
      → size + 4096 ≤ word
      → IsKept u
      → IsKept (request a size u)
  unfolding request
  request-IsKept size u low high k = elim (Bool-cases ((a.alloc size u.allocator).0 == 0)) [
    | inl null ↦ rw null (record {
      holds = c.refused u.allocator u.active_allocations size k.holds low high (ground arith);
      used = k.used;
      peak = k.peak;
    })
    | inr given ↦
        let held =
          c.granted u.allocator u.active_allocations size k.holds low high (ground arith) in
        let bound = c.within (a.alloc size u.allocator).1 _ held in
        let new : Allocation = record { ptr = (a.alloc size u.allocator).0; size = size } in
        let p = rw append-nil at (perm_middle {a = new} u.active_allocations []) in
        rw given (record {
          holds = c.reorder _ _ _ (Perm.symm p) held;
          used = omega (arith, total_size-perm p, k.used, bound);
          peak = omega (arith, k.peak, k.used, bound);
        })
  ]

  round-IsKept :
      (d : Draw) (u : Usage State) → 8 ≤ d.size → d.size ≤ 1024 → IsKept u → IsKept (round a d u)
  unfolding round
  round-IsKept d u low high k =
      elim (Bool-cases (not (is_empty u.active_allocations) && d.below_probability)) [
        | inl frees ↦ rw frees (
            free_at-IsKept (d.index % length u.active_allocations) u
              (index_bound u.active_allocations d.index d.below_probability frees) k)
        | inr asks ↦ rw asks (request-IsKept d.size u (omega arith) (omega arith) k)
      ]

  rounds-IsKept :
      (ds : List Draw) (u : Usage State) → IsDrawSize ds → IsKept u → IsKept (rounds a ds u)
  unfolding rounds
  rounds-IsKept [] u sizes k = k
  rounds-IsKept (d ∷ ds) u (low, high, sizes) k =
      rounds-IsKept ds (round a d u) sizes (round-IsKept d u low high k)

  requests-IsKept :
      (sizes : List ℕ) (u : Usage State)
      → AreRequests sizes
      → IsKept u
      → IsKept (requests a sizes u)
  unfolding requests
  requests-IsKept [] u r k = k
  requests-IsKept (size ∷ sizes) u (low, high, r) k =
      requests-IsKept sizes (request a size u) r (request-IsKept size u low high k)

  free_all-Holds :
      (xs : List Allocation) (u : Usage State)
      → c.Holds u.allocator xs
      → c.Holds (free_all a xs u).allocator []
        × ((free_all a xs u).max_used ≡ u.max_used)
        × ((free_all a xs u).current_used ≡ u.current_used)
  unfolding free_all
  free_all-Holds [] u h = (h, refl, refl)
  free_all-Holds (x ∷ xs) u h = free_all-Holds xs _ (c.freed u.allocator x xs h)

  fresh-IsKept : (s : State) → c.Holds s [] → IsKept (fresh a s)
  fresh-IsKept s h = record { holds = h; used = refl; peak = omega arith }

  -- What the random test with deallocations leaves, and what it reports.
  pub random_test-Holds :
      (draws : List Draw) (s : State)
      → IsDrawSize draws
      → c.Holds s []
      → c.Holds (test_random_with_deallocations a draws s).allocator []
        × ((test_random_with_deallocations a draws s).max_used ≤ capacity)
  unfolding test_random_with_deallocations
  random_test-Holds draws s sizes h =
      let k = rounds-IsKept draws (fresh a s) sizes (fresh-IsKept s h) in
      let (left, peak, used) = free_all-Holds _ (rounds a draws (fresh a s)) k.holds in
      (left, rw peak k.peak)

  pub random_allocations-Holds :
      (sizes : List ℕ) (s : State)
      → AreRequests sizes
      → c.Holds s []
      → c.Holds (test_random_allocations a sizes s).allocator []
        × ((test_random_allocations a sizes s).current_used ≤ capacity)
  unfolding test_random_allocations
  random_allocations-Holds sizes s r h =
      let k = requests-IsKept sizes (fresh a s) r (fresh-IsKept s h) in
      let (left, peak, used) = free_all-Holds _ (requests a sizes (fresh a s)) k.holds in
      (left, omega (arith, used, k.used, c.within _ _ k.holds))

  -- The pointers of the benchmark's vector are those of what the allocator has granted.
  run_requests-Holds :
      (sizes : List ℕ) (s : State) (held : List Allocation) (failed : ℕ)
      → AreRequests sizes
      → c.Holds s held
      → (let (after, all, refused) = run_requests a sizes s (pointers held) failed in
          (left : List Allocation) × (all ≡ pointers left) × c.Holds after left)
  unfolding run_requests
  run_requests-Holds [] s held failed r h = (held, refl, h)
  run_requests-Holds (size ∷ sizes) s held failed (low, high, r) h =
      elim (Bool-cases ((a.alloc size s).0 == 0)) [
        | inl null ↦
            rw (run_requests, null)
              (run_requests-Holds sizes _ held (failed + 1) r
                (c.refused s held size h low high (ground arith)))
        | inr given ↦
            let new : Allocation = record { ptr = (a.alloc size s).0; size = size } in
            let p = rw append-nil at (perm_middle {a = new} held []) in
            let held' =
              c.reorder _ _ _ (Perm.symm p) (c.granted s held size h low high (ground arith)) in
            rw (run_requests, given)
              (rw (map-append) at
                (run_requests-Holds sizes (a.alloc size s).1 (held ++ new ∷ []) failed r held'))
      ]

  free_pointers-Holds :
      (held : List Allocation) (s : State)
      → c.Holds s held
      → c.Holds (free_pointers a (pointers held) s) []
  unfolding free_pointers
  free_pointers-Holds [] s h = h
  free_pointers-Holds (x ∷ held) s h =
      free_pointers-Holds held (a.free x.ptr s) (c.freed s x held h)

  pub run_test-Holds :
      (sizes : List ℕ) (s : State)
      → AreRequests sizes
      → c.Holds s []
      → c.Holds (run_test a sizes s).0 []
  unfolding run_test
  run_test-Holds sizes s r h =
      let (left, same, held) = run_requests-Holds sizes s [] 0 r h in
      rw same (free_pointers-Holds left _ held)
