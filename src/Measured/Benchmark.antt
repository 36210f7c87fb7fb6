-- ===== src/Measured/Benchmark.antt =====
-- `main` of Labs/CP/src/cock.cpp, without the times and what is printed of them. `dist k low high` is the
-- vector's k-th draw from the range, `mmap k` is the k-th call of `mmap`, and `none` is an exception or
-- undefined behaviour.
pub mod Runs
use mai_os_labs.Prelude.{
  ℕ, zero, suc, ◌+◌, ◌*◌, List, [], ◌∷◌, Option, none, some, if◌then◌else◌, ◌/◌, ◌&&◌,
}
use mai_os_labs.BestFit
use mai_os_labs.McKusick.{◌>>=◌}
use mai_os_labs.Usage.{run_test}
use mai_os_labs.Measured.{best_fit, mckusick, make_mckusick, make_best_fit, is_some}

abbrev pub memory_size : ℕ
memory_size = 32 * 1024 * 1024

abbrev pub test_count : ℕ
test_count = 10000

pub record TestResult : Type 0 where
  pub operations : ℕ
  pub failed_allocs : ℕ

-- The loop that fills the vector: `count` draws, from the one numbered `k` on.
unfoldable pub generate_test_sizes : ℕ → (ℕ → ℕ) → ℕ → List ℕ
generate_test_sizes zero draw k = []
generate_test_sizes (suc count) draw k = draw k ∷ generate_test_sizes count draw (k + 1)

module _ (mmap : ℕ → ℕ → Option ℕ) (dist : ℕ → ℕ → ℕ → ℕ → ℕ) where
  -- The block of the `i`-th test: two allocators, and the same sizes asked of each.
  unfoldable pub one_test : ℕ → ℕ → ℕ → ℕ → Option (TestResult × TestResult)
  one_test i count min_size max_size = do
    mc_alloc ← make_mckusick (mmap (2 * i)) memory_size
    bf_alloc ← make_best_fit (mmap (2 * i + 1)) memory_size
    let sizes = generate_test_sizes count (dist i min_size max_size) 0
    let (mc_after, mc_operations, mc_failed) = run_test mckusick sizes mc_alloc
    let (bf_after, bf_operations, bf_failed) = run_test best_fit sizes bf_alloc
    if is_some mc_after && is_some bf_after
        then some (
          record { operations = mc_operations; failed_allocs = mc_failed },
          record { operations = bf_operations; failed_allocs = bf_failed },
        )
        else none

  unfoldable pub main_program : Option (List (TestResult × TestResult))
  main_program = do
    small ← one_test 0 test_count 32 160
    large ← one_test 1 (test_count / 10) 4096 16384
    mixed ← one_test 2 test_count 32 8192
    some (small ∷ large ∷ mixed ∷ [])
