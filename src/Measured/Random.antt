-- ===== src/Measured/Random.antt =====
-- `test_random_with_deallocations` of Labs/CP/src/usage_factor.cpp on a `BestFitAllocator`.
use mathlib.Core.List.{Perm, perm_middle, map-append}
use mathlib.Core.List.Perm
use mai_os_labs.Prelude.{
  ℕ, ◌+◌, ◌%◌, ◌≤◌, ◌<◌, ◌≡◌, refl, ap, subst, ◌∙◌, Option, none, List, [], ◌∷◌, ◌++◌, arith, word,
  length, not, ◌&&◌, ◌==◌, Bool-cases, some, inl, inr, append-nil,
}
use mai_os_labs.BestFit
use mai_os_labs.BestFit.{BestFitAllocator, aligned_size}
use mai_os_labs.BestFit.Segments.{Block}
use mai_os_labs.BestFit.Blocks.{unused}
use mai_os_labs.BestFit.State.{IsValid}
use mai_os_labs.BestFit.Alloc.{Allocated, refused, placed, alloc-Allocated}
use mai_os_labs.BestFit.Session.{IsHeld, granted-IsHeld, freed-IsHeld, refused_same, IsHeld-nothing}
use mai_os_labs.Usage.{
  Allocation, Draw, Usage, is_empty, free_at, request, round, rounds, free_all, fresh,
  test_random_with_deallocations,
}
use mai_os_labs.Usage.Accounts.{pointers, swap_remove-perm, index_bound}
use mai_os_labs.Usage.Contract.{IsDrawSize}
use mai_os_labs.Measured.{best_fit}

-- The vector of the test holds just the blocks in use of a valid allocator.
abbrev IsTracked : Option BestFitAllocator → List ℕ → Type 0
IsTracked none live = ⊥
IsTracked (some s) live = (bs : List Block) × IsHeld s live bs

reorder :
    (s : Option BestFitAllocator) (live live' : List ℕ)
    → Perm live' live
    → IsTracked s live
    → IsTracked s live'
reorder none live live' p i = i
reorder (some s) live live' p (bs, i) = (bs, record { valid = i.valid; held = Perm.trans p i.held })

pub alloc_answers :
    (s : BestFitAllocator) (bs : List Block) (size : ℕ)
    → IsValid s bs
    → 0 < size
    → size + 39 < word
    → (r : ℕ × BestFitAllocator) × (BestFit.alloc s size ≡ some r)
alloc_answers s bs size v pos small = go (alloc-Allocated s bs size v pos small)
  where
    go :
        Allocated s bs (aligned_size size) (BestFit.alloc s size)
        → (r : ℕ × BestFitAllocator) × (BestFit.alloc s size ≡ some r)
    go (refused e too_small) = (_, e)
    go (placed xs n ys t eq best e same_head v') = (_, e)

free-IsTracked :
    (s : Option BestFitAllocator) (ptr : ℕ) (live : List ℕ)
    → IsTracked s (ptr ∷ live)
    → IsTracked (best_fit.free ptr s) live
unfolding best_fit
free-IsTracked none ptr live i = i
free-IsTracked (some s) ptr live (bs, i) = freed-IsHeld s [] ptr live bs i

free_at-IsTracked :
    (i : ℕ) (u : Usage (Option BestFitAllocator))
    → i < length u.active_allocations
    → IsTracked u.allocator (pointers u.active_allocations)
    → IsTracked
        (free_at best_fit i u).allocator
        (pointers (free_at best_fit i u).active_allocations)
unfolding free_at
free_at-IsTracked i u h t =
    free-IsTracked u.allocator _ _ (
      reorder u.allocator _ _ (Perm.map (λ x. x.ptr) (swap_remove-perm u.active_allocations i h)) t)

pub best_fit_alloc :
    (s : BestFitAllocator) (size ptr : ℕ) (s' : BestFitAllocator)
    → BestFit.alloc s size ≡ some (ptr, s')
    → ◌≡◌ {A = ℕ × Option BestFitAllocator} (best_fit.alloc size (some s)) (ptr, some s')
unfolding best_fit
best_fit_alloc s size ptr s' e = rw (best_fit, e) refl

pushed :
    (v : List Allocation) (ptr size : ℕ)
    → Perm (pointers (v ++ record { ptr = ptr; size = size } ∷ [])) (ptr ∷ pointers v)
pushed v ptr size = rw map-append (rw append-nil at (perm_middle {a = ptr} (pointers v) []))

-- A tracked state is defined.
tracked_some :
    (a : Option BestFitAllocator) (live : List ℕ)
    → IsTracked a live
    → (s : BestFitAllocator) × (bs : List Block) × (a ≡ some s) × IsHeld s live bs
tracked_some none live t = absurd t
tracked_some (some s) live (bs, i) = (s, bs, refl, i)

request-IsTracked :
    (size : ℕ) (u : Usage (Option BestFitAllocator))
    → 0 < size
    → size + 39 < word
    → IsTracked u.allocator (pointers u.active_allocations)
    → IsTracked
        (request best_fit size u).allocator
        (pointers (request best_fit size u).active_allocations)
unfolding request
request-IsTracked size u pos small tracked =
    let (s, bs, is_s, i) = tracked_some u.allocator (pointers u.active_allocations) tracked in
    let ((ptr, s'), e) = alloc_answers s bs size i.valid pos small in
    let e' = best_fit_alloc s size ptr s' e in
    elim (Bool-cases (ptr == 0)) [
      | inl null ↦
          let zero_ptr : ptr ≡ 0 = ground arith in
          let same =
            refused_same s s' bs size i.valid small (e ∙ ap (λ p. some (p, s')) zero_ptr) in
          rw (is_s, e', null)
            (subst (λ t. IsTracked (some t) (pointers u.active_allocations)) same (bs, i))
      | inr granted ↦
          rw (is_s, e', granted)
            (reorder (some s') (ptr ∷ pointers u.active_allocations) _
              (pushed u.active_allocations ptr size)
              (granted-IsHeld s s' (pointers u.active_allocations) bs size ptr i pos small e
                (ground arith)))
    ]

round-IsTracked :
    (d : Draw) (u : Usage (Option BestFitAllocator))
    → 8 ≤ d.size
    → d.size ≤ 1024
    → IsTracked u.allocator (pointers u.active_allocations)
    → IsTracked (round best_fit d u).allocator (pointers (round best_fit d u).active_allocations)
unfolding round
round-IsTracked d u low high t =
    elim (Bool-cases (not (is_empty u.active_allocations) && d.below_probability)) [
      | inl frees ↦ rw frees (
          free_at-IsTracked (d.index % length u.active_allocations) u
            (index_bound u.active_allocations d.index d.below_probability frees) t)
      | inr asks ↦ rw asks (request-IsTracked d.size u (omega arith) (omega arith) t)
    ]

rounds-IsTracked :
    (ds : List Draw) (u : Usage (Option BestFitAllocator))
    → IsDrawSize ds
    → IsTracked u.allocator (pointers u.active_allocations)
    → IsTracked
        (rounds best_fit ds u).allocator
        (pointers (rounds best_fit ds u).active_allocations)
unfolding rounds
rounds-IsTracked [] u sizes t = t
rounds-IsTracked (d ∷ ds) u (low, high, sizes) t =
    rounds-IsTracked ds (round best_fit d u) sizes (round-IsTracked d u low high t)

free_all-IsTracked :
    (xs : List Allocation) (u : Usage (Option BestFitAllocator))
    → IsTracked u.allocator (pointers xs)
    → IsTracked (free_all best_fit xs u).allocator []
unfolding free_all
free_all-IsTracked [] u t = t
free_all-IsTracked (x ∷ xs) u t =
    free_all-IsTracked xs
      (record u { allocator = best_fit.free x.ptr u.allocator; freed = x.ptr ∷ u.freed })
      (free-IsTracked u.allocator x.ptr (pointers xs) t)

-- The random test with deallocations, on a valid best-fit allocator with no block in use and with
-- sizes from 8 to 1024, comes to its end with nothing undefined and leaves one free block of the whole
-- mapping, whatever the random numbers.
pub random_test-restores :
    (draws : List Draw) (s : BestFitAllocator) (bs : List Block)
    → IsDrawSize draws
    → IsHeld s [] bs
    → (t : BestFitAllocator) × ((test_random_with_deallocations best_fit draws (some s)).allocator
        ≡ some t)
      × IsValid t (unused t.total_size ∷ [])
unfolding test_random_with_deallocations
random_test-restores draws s bs sizes i =
    let u = rounds best_fit draws (fresh best_fit (some s)) in
    let (t, bs', e, i') = tracked_some _ [] (
      free_all-IsTracked u.active_allocations u
        (rounds-IsTracked draws (fresh best_fit (some s)) sizes (bs, i))) in
    (t, e, IsHeld-nothing t bs' i')
