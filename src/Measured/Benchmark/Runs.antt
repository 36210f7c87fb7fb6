-- ===== src/Measured/Benchmark/Runs.antt =====
-- The benchmark of Labs/CP/src/cock.cpp comes to its end.
use mai_os_labs.Prelude.{
  ℕ, zero, suc, ◌+◌, ◌*◌, ◌≤◌, ◌≡◌, refl, ◌∙◌, List, [], ◌∷◌, Option, some, arith, word, length,
}
use mai_os_labs.Usage.{Allocator, run_test}
use mai_os_labs.Usage.Contract.{AreRequests, run_test-Holds}
use mai_os_labs.Usage.Answers.{Responses, refusals, granted_bytes, run_test-Responses}
use mai_os_labs.McKusick.{page_size}
use mai_os_labs.McKusick.Start.{block_pages}
use mai_os_labs.Measured.{best_fit, mckusick, make_mckusick, make_best_fit}
use mai_os_labs.Measured.Blocks.{best_fit_contract}
use mai_os_labs.Measured.Pages.{mckusick_contract}
use mai_os_labs.Measured.Mapped.{
  IsMmap, mckusick_made, best_fit_made, mckusick_defined, best_fit_defined,
}
use mai_os_labs.Measured.Benchmark.{
  TestResult, generate_test_sizes, one_test, main_program, memory_size,
}

length-generate_test_sizes :
    (count : ℕ) (draw : ℕ → ℕ) (k : ℕ) → length (generate_test_sizes count draw k) ≡ count
unfolding generate_test_sizes
length-generate_test_sizes zero draw k = refl
length-generate_test_sizes (suc count) draw k =
    omega (arith, length-generate_test_sizes count draw (k + 1))

generate_test_sizes-AreRequests :
    (count low high : ℕ) (draw : ℕ → ℕ) (k : ℕ)
    → 2 ≤ low
    → high + 4096 ≤ word
    → ((i : ℕ) → (low ≤ draw i) × (draw i ≤ high))
    → AreRequests (generate_test_sizes count draw k)
unfolding generate_test_sizes
generate_test_sizes-AreRequests zero low high draw k some_bytes no_wrap drawn = tt
generate_test_sizes-AreRequests (suc count) low high draw k some_bytes no_wrap drawn =
    let (above, below) = drawn k in
    (
      omega arith,
      omega arith,
      generate_test_sizes-AreRequests count low high draw (k + 1) some_bytes no_wrap drawn,
    )

-- What a test reports of one allocator: it counts all the requests, and those that the allocator
-- refuses, which grants no more bytes than `capacity`.
abbrev pub IsCounted :
    {State : Type 0}
    → Allocator State
    → ℕ
    → Option State
    → (count : ℕ) → List ℕ
    → TestResult
    → Type 0
IsCounted {State} a capacity made count sizes r =
    (s after : State) × (answers : List ℕ) × (made ≡ some s)
    × Responses a s sizes answers after
    × (r.operations ≡ count)
    × (r.failed_allocs ≡ refusals answers)
    × (granted_bytes sizes answers ≤ capacity)

-- Both allocators in the `i`-th test, each made anew, on the same sizes.
abbrev pub AreCounted :
    (ℕ → ℕ → Option ℕ)
    → (ℕ → ℕ → ℕ → ℕ → ℕ)
    → (i count low high : ℕ) → TestResult
    → TestResult
    → Type 0
AreCounted mmap dist i count low high m b =
    let sizes = generate_test_sizes count (dist i low high) 0 in
    IsCounted mckusick (block_pages memory_size * page_size)
      (make_mckusick (mmap (2 * i)) memory_size) count sizes m
    × IsCounted best_fit memory_size (make_best_fit (mmap (2 * i + 1)) memory_size) count sizes b

module _ (mmap : ℕ → ℕ → Option ℕ) (mapped : (k : ℕ) → IsMmap memory_size (mmap k))
    (dist : ℕ → ℕ → ℕ → ℕ → ℕ)
    (drawn : (i low high k : ℕ)
      → low ≤ high
      → (low ≤ dist i low high k) × (dist i low high k ≤ high)) where
  one_test-AreCounted :
      (i count low high : ℕ)
      → 2 ≤ low
      → low ≤ high
      → high + 4096 ≤ word
      → (m b : TestResult) × (one_test mmap dist i count low high ≡ some (m, b))
        × AreCounted mmap dist i count low high m b
  unfolding one_test
  one_test-AreCounted i count low high some_bytes ordered no_wrap =
      let sizes = generate_test_sizes count (dist i low high) 0 in
      let asked =
        generate_test_sizes-AreRequests count low high (dist i low high) 0 some_bytes no_wrap
          (λ k. drawn i low high k ordered) in
      let all = length-generate_test_sizes count (dist i low high) 0 in
      let (s, e, h) =
        mckusick_made memory_size (mmap (2 * i)) (omega arith) (omega arith) (mapped (2 * i)) in
      let (t, f, g) =
        best_fit_made memory_size (mmap (2 * i + 1)) (omega arith) (omega arith) (omega arith)
          (mapped (2 * i + 1)) in
      let m_contract = mckusick_contract (block_pages memory_size) in
      let b_contract = best_fit_contract memory_size in
      let m_left = run_test-Holds mckusick _ m_contract (omega arith) sizes s asked h in
      let b_left = run_test-Holds best_fit _ b_contract (omega arith) sizes t asked g in
      let (m_answers, m_after, m_run, m_all, m_failed, m_bytes) =
        run_test-Responses mckusick _ m_contract sizes s asked h in
      let (b_answers, b_after, b_run, b_all, b_failed, b_bytes) =
        run_test-Responses best_fit _ b_contract sizes t asked g in
      (
        record {
          operations = (run_test mckusick sizes s).1;
          failed_allocs = (run_test mckusick sizes s).2;
        },
        record {
          operations = (run_test best_fit sizes t).1;
          failed_allocs = (run_test best_fit sizes t).2;
        },
        rw (one_test, e, f, mckusick_defined _ _ m_left, best_fit_defined _ _ b_left) refl,
        (
          (s, m_after, m_answers, e, m_run, m_all ∙ all, m_failed, m_bytes),
          (t, b_after, b_answers, f, b_run, b_all ∙ all, b_failed, b_bytes),
        ),
      )

  -- Where every call of `mmap` succeeds and the distribution draws from its range, the benchmark comes to
  -- its end with nothing undefined in either allocator. Each of its three tests asks both for the same
  -- sizes one after the other, counts all 10000, 1000 and 10000 requests, and as failed just those that
  -- the allocator refuses; the first grants no more bytes than its pages have, the second none beyond
  -- its 33554432.
  pub main_program-AreCounted :
      (m1 b1 m2 b2 m3 b3 : TestResult) × (main_program mmap dist
        ≡ some ((m1, b1) ∷ (m2, b2) ∷ (m3, b3) ∷ []))
      × AreCounted mmap dist 0 10000 32 160 m1 b1
      × AreCounted mmap dist 1 1000 4096 16384 m2 b2
      × AreCounted mmap dist 2 10000 32 8192 m3 b3
  unfolding main_program
  main_program-AreCounted =
      let (m1, b1, e1, c1) =
        one_test-AreCounted 0 10000 32 160 (omega arith) (omega arith) (omega arith) in
      let (m2, b2, e2, c2) =
        one_test-AreCounted 1 1000 4096 16384 (omega arith) (omega arith) (omega arith) in
      let (m3, b3, e3, c3) =
        one_test-AreCounted 2 10000 32 8192 (omega arith) (omega arith) (omega arith) in
      (m1, b1, m2, b2, m3, b3, rw (main_program, e1, e2, e3) refl, c1, c2, c3)
