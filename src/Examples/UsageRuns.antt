-- ===== src/Examples/UsageRuns.antt =====
-- A concrete run of the measuring loops, on an allocator that hands out a counter.
use mai_os_labs.Prelude.{ℕ, ◌+◌, true, false, List, [], ◌∷◌, arith, if◌then◌else◌, ltb, some, ◌≡◌}
use mai_os_labs.BestFit.{BestFitAllocator}
use mai_os_labs.BestFit.Blocks.{unused}
use mai_os_labs.BestFit.State.{IsValid}
use mai_os_labs.Measured.{best_fit}
use mai_os_labs.Measured.Random.{random_test-restores}
use mai_os_labs.Examples.BestFitRuns.{heap, heap-IsHeld}
use mai_os_labs.Usage.{Allocator, Draw, test_random_with_deallocations}

-- Blocks are numbered from 1 on, and those of 100 bytes and more are refused.
abbrev counter : Allocator ℕ
counter = record {
  alloc = λ size n. if ltb size 100 then (n + 1, n + 1) else (0, n);
  free = λ ptr n. n;
}

abbrev draws : List Draw
draws =
    record { below_probability = true; index = 0; size = 10 }
    ∷ record { below_probability = false; index = 0; size = 20 }
    ∷ record { below_probability = true; index = 5; size = 30 }
    ∷ record { below_probability = false; index = 0; size = 120 }
    ∷ []

abbrev small_draws : List Draw
small_draws =
    record { below_probability = false; index = 0; size = 8 }
    ∷ record { below_probability = true; index = 3; size = 1024 }
    ∷ []

random_test-restores_example :
    (t : BestFitAllocator) × ((test_random_with_deallocations best_fit small_draws
        (some heap)).allocator
      ≡ some t)
    × IsValid t (unused t.total_size ∷ [])
random_test-restores_example =
    random_test-restores small_draws heap (unused 128 ∷ [])
      (omega arith, omega arith, (omega arith, omega arith, tt)) heap-IsHeld
