-- ===== src/Measured/Mapped.antt =====
-- The allocators of Labs/CP/src/usage_factor.cpp and Labs/CP/src/cock.cpp when they are made: each on a
-- mapping of its own.
use mathlib.Core.List.Perm
use mai_os_labs.Prelude.{
  ℕ, ◌+◌, ◌*◌, ◌%◌, ◌≤◌, ◌<◌, ◌≡◌, refl, ap, true, [], Option, some, arith, word, mul64,
}
use mai_os_labs.BestFit.{BestFitAllocator, clear_low_bits}
use mai_os_labs.BestFit.State.{init-IsValid, lowest_address}
use mai_os_labs.McKusick.{McKusickAllocator, page_size}
use mai_os_labs.McKusick.Start.{init-IsSound, mapped_pages, block_pages}
use mai_os_labs.Measured.{make_mckusick, make_best_fit, is_some}
use mai_os_labs.Measured.Blocks
use mai_os_labs.Measured.Blocks.{best_fit_contract}
use mai_os_labs.Measured.Pages
use mai_os_labs.Measured.Pages.{mckusick_contract}

-- What the operating system promises of a call of `mmap` that succeeds: a mapping of whole pages within
-- the address space, not at its first page.
abbrev pub IsMmap : ℕ → (ℕ → Option ℕ) → Type 0
IsMmap memory_size mmap =
    (len : ℕ)
    → len < memory_size + page_size
    → (base : ℕ) × (mmap len ≡ some base)
      × (base % page_size ≡ 0)
      × (lowest_address ≤ base)
      × (base + memory_size + page_size ≤ word)

module _ (memory_size : ℕ) (mmap : ℕ → Option ℕ) where
  pub mckusick_made :
      page_size < memory_size
      → memory_size + page_size ≤ word
      → IsMmap memory_size mmap
      → (s : Option McKusickAllocator) × (make_mckusick mmap memory_size ≡ some s)
        × (mckusick_contract (block_pages memory_size)).Holds s []
  unfolding make_mckusick
  mckusick_made large no_wrap mapped =
      let fits : mapped_pages memory_size * page_size < memory_size + page_size = omega arith in
      let (base, e, aligned, low, high) =
        mapped (mul64 (mapped_pages memory_size) page_size) (omega (arith, fits)) in
      let (owner, s, f, sound, all_pages, unowned, empty) =
        init-IsSound mmap memory_size base large no_wrap e aligned (omega (arith, fits, high)) in
      (some s, rw f refl, Pages.to_contract _ (some s) [] ∣ (owner, sound) ∣₁)

  pub best_fit_made :
      32 ≤ memory_size
      → memory_size % 8 ≡ 0
      → memory_size + page_size ≤ word
      → IsMmap memory_size mmap
      → (s : Option BestFitAllocator) × (make_best_fit mmap memory_size ≡ some s)
        × (best_fit_contract memory_size).Holds s []
  unfolding make_best_fit
  best_fit_made large whole no_wrap mapped =
      let (base, e, aligned, low, high) = mapped (clear_low_bits (memory_size + 7)) (omega arith) in
      let (s, f, v) =
        init-IsValid mmap memory_size base large (omega arith) e low (omega (arith, high)) in
      (
        some s,
        rw f refl,
        Blocks.to_contract memory_size (some s) [] ∣ (
          _,
          [],
          omega (arith, v.whole, whole),
          record { valid = v; exact = Perm.rfl; fits = tt },
        ) ∣₁,
      )

pub mckusick_defined :
    (n : ℕ) (s : Option McKusickAllocator) → (mckusick_contract n).Holds s [] → is_some s ≡ true
mckusick_defined n s h = ap is_some (Pages.contract-is_some n s h).1

pub best_fit_defined :
    (n : ℕ) (s : Option BestFitAllocator) → (best_fit_contract n).Holds s [] → is_some s ≡ true
best_fit_defined n s h = ap is_some (Blocks.contract-is_some n s h).1
