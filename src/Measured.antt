-- ===== src/Measured.antt =====
-- The loops of Labs/CP/src/usage_factor.cpp and Labs/CP/src/cock.cpp on the two allocators.
pub mod Random
pub mod Pages
pub mod Blocks
pub mod Mapped
pub mod Factors
pub mod Benchmark
use mai_os_labs.Prelude.{ℕ, Bool, true, false, Option, none, some}
use mai_os_labs.BestFit
use mai_os_labs.BestFit.{BestFitAllocator}
use mai_os_labs.McKusick
use mai_os_labs.McKusick.{McKusickAllocator, ◌>>=◌}
use mai_os_labs.Usage.{Allocator}

-- The state `none` is undefined, or a call that has not come to its end, and it stays so: there is no
-- call on it.
unfoldable pub best_fit : Allocator (Option BestFitAllocator)
best_fit = record {
  alloc = λ size s. elim (s >>= λ t. BestFit.alloc t size) [
    | none ↦ (0, none)
    | some r ↦ (r.0, some r.1)
  ];
  free = λ ptr s. s >>= λ t. some (BestFit.free t ptr);
}

unfoldable pub mckusick : Allocator (Option McKusickAllocator)
mckusick = record {
  alloc =
      λ size s. elim (s >>= McKusick.alloc size) [ none ↦ (0, none) | some r ↦ (r.0, some r.1) ];
  free = λ ptr s. s >>= McKusick.free ptr;
}

-- An allocator of the first kind, if its constructor does not throw.
unfoldable pub make_mckusick : (ℕ → Option ℕ) → ℕ → Option (Option McKusickAllocator)
make_mckusick mmap memory_size = McKusick.init mmap memory_size >>= λ s. some (some s)

-- An allocator of the second kind, likewise.
unfoldable pub make_best_fit : (ℕ → Option ℕ) → ℕ → Option (Option BestFitAllocator)
make_best_fit mmap memory_size = BestFit.init mmap memory_size >>= λ s. some (some s)

abbrev pub is_some : {A : Type 0} → Option A → Bool
is_some none = false
is_some (some s) = true
