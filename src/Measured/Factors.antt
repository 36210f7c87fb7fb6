-- ===== src/Measured/Factors.antt =====
-- `main` of Labs/CP/src/usage_factor.cpp, up to the quotients in floating point: the bytes that each test
-- reports. The random numbers are lists, `mmap k` is the k-th call of `mmap`, and `none` is an
-- exception or undefined behaviour.
pub mod Bounds
use mai_os_labs.Prelude.{
  ℕ, suc, ◌+◌, ◌*◌, Bool, true, false, ◌&&◌, List, [], ◌∷◌, Option, none, some, if◌then◌else◌,
  length,
}
use mai_os_labs.BestFit
use mai_os_labs.McKusick.{◌>>=◌}
use mai_os_labs.Usage.{
  Allocator, Draw, test_random_allocations, test_power_of_two_allocations,
  test_random_with_deallocations,
}
use mai_os_labs.Measured.{best_fit, mckusick, make_mckusick, make_best_fit, is_some}

abbrev pub memory_size : ℕ
memory_size = 16 * 4096

-- The random numbers of one round of the loop.
pub record Numbers : Type 0 where
  pub sizes : List ℕ
  pub powers : List ℕ
  pub draws : List Draw

-- `total_requested`, `total_requested` and `max_used` of the three tests.
pub record Totals : Type 0 where
  pub random : ℕ
  pub power : ℕ
  pub random_dealloc : ℕ

module _ {State : Type 0} (a : Allocator State) (is_defined : State → Bool)
    (make : ℕ → Option State) where
  -- One round: two tests on one allocator, and the third on another.
  unfoldable pub one_round : ℕ → Numbers → Option Totals
  one_round k t = do
    allocator ← make k
    let r = test_random_allocations a t.sizes allocator
    let p = test_power_of_two_allocations a t.powers r.allocator
    allocator_dealloc ← make (k + 1)
    let d = test_random_with_deallocations a t.draws allocator_dealloc
    if is_defined p.allocator && is_defined d.allocator
        then some (record {
          random = r.current_used;
          power = p.current_used;
          random_dealloc = d.max_used;
        })
        else none

  unfoldable pub all_rounds : ℕ → List Numbers → Option (List Totals)
  all_rounds k [] = some []
  all_rounds k (t ∷ ts) = do
    totals ← one_round k t
    rest ← all_rounds (k + 2) ts
    some (totals ∷ rest)

unfoldable pub main_program :
    (ℕ → ℕ → Option ℕ) → List Numbers → List Numbers → Option (List Totals × List Totals)
main_program mmap ms bs = do
  mckusick_totals ← all_rounds mckusick is_some (λ k. make_mckusick (mmap k) memory_size) 0 ms
  best_fit_totals ←
      all_rounds best_fit is_some (λ k. make_best_fit (mmap k) memory_size) (2 * length ms) bs
  some (mckusick_totals, best_fit_totals)
