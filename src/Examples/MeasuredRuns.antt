-- ===== src/Examples/MeasuredRuns.antt =====
-- The measuring programs of Labs/CP/src on concrete mappings and random numbers.
use mai_os_labs.Prelude.{ℕ, ◌*◌, ◌≡◌, refl, true, false, List, [], ◌∷◌, Option, some, arith}
use mai_os_labs.Usage.Requests.{IsDrawn}
use mai_os_labs.Usage.Contract.{IsDrawSize}
use mai_os_labs.Measured.Mapped.{IsMmap}
use mai_os_labs.Measured.Factors
use mai_os_labs.Measured.Factors.{Numbers, Totals}
use mai_os_labs.Measured.Factors.Bounds.{AreSizes, AreWithin, main_program-AreWithin}
use mai_os_labs.Measured.Benchmark
use mai_os_labs.Measured.Benchmark.{TestResult}
use mai_os_labs.Measured.Benchmark.Runs.{AreCounted, main_program-AreCounted}

-- Every mapping starts at the 16th page.
abbrev at_64k : ℕ → ℕ → Option ℕ
at_64k k len = some 65536

at_64k-IsMmap : (k : ℕ) → IsMmap Factors.memory_size (at_64k k)
at_64k-IsMmap k len h = (65536, refl, refl, omega arith, omega arith)

at_64k-IsMmap_large : (k : ℕ) → IsMmap Benchmark.memory_size (at_64k k)
at_64k-IsMmap_large k len h = (65536, refl, refl, omega arith, omega arith)

-- A round that asks for three random sizes and two powers of two, and that frees one of two blocks.
abbrev numbers : Numbers
numbers = record {
  sizes = 8 ∷ 1024 ∷ 100 ∷ [];
  powers = 3 ∷ 10 ∷ [];
  draws =
      record { below_probability = false; index = 0; size = 64 }
      ∷ record { below_probability = false; index = 0; size = 700 }
      ∷ record { below_probability = true; index = 5; size = 8 }
      ∷ [];
}

sizes-AreSizes : AreSizes numbers.sizes
sizes-AreSizes =
    (omega arith, omega arith, (omega arith, omega arith, (omega arith, omega arith, tt)))

powers-IsDrawn : IsDrawn numbers.powers
powers-IsDrawn = (omega arith, omega arith, (omega arith, omega arith, tt))

draws-IsDrawSize : IsDrawSize numbers.draws
draws-IsDrawSize =
    (omega arith, omega arith, (omega arith, omega arith, (omega arith, omega arith, tt)))

main_program-AreWithin_example :
    (m b : List Totals) × (Factors.main_program at_64k (numbers ∷ numbers ∷ []) (numbers ∷ [])
      ≡ some (m, b))
    × AreWithin (15 * 4096) m
    × AreWithin (16 * 4096) b
main_program-AreWithin_example =
    main_program-AreWithin at_64k at_64k-IsMmap (numbers ∷ numbers ∷ []) (numbers ∷ [])
      (
        sizes-AreSizes,
        powers-IsDrawn,
        draws-IsDrawSize,
        (sizes-AreSizes, powers-IsDrawn, draws-IsDrawSize, tt),
      )
      (sizes-AreSizes, powers-IsDrawn, draws-IsDrawSize, tt)

abbrev smallest : ℕ → ℕ → ℕ → ℕ → ℕ
smallest i low high k = low

main_program-AreCounted_example :
    (m1 b1 m2 b2 m3 b3 : TestResult) × (Benchmark.main_program at_64k smallest
      ≡ some ((m1, b1) ∷ (m2, b2) ∷ (m3, b3) ∷ []))
    × AreCounted at_64k smallest 0 10000 32 160 m1 b1
    × AreCounted at_64k smallest 1 1000 4096 16384 m2 b2
    × AreCounted at_64k smallest 2 10000 32 8192 m3 b3
main_program-AreCounted_example =
    main_program-AreCounted at_64k at_64k-IsMmap_large smallest (λ i low high k h. (omega arith, h))
