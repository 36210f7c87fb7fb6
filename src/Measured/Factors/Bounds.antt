-- ===== src/Measured/Factors/Bounds.antt =====
-- No usage factor of Labs/CP/src/usage_factor.cpp is above a hundred percent.
use native.Mathlib.Nat.{pow-le-pow_right}
use mai_os_labs.Prelude.{
  ℕ, ◌+◌, ◌*◌, ◌^◌, ◌≤◌, ◌<◌, ◌≡◌, refl, Bool, true, List, [], ◌∷◌, map, Option, some, arith, word,
  length,
}
use mai_os_labs.McKusick.{meta_pages}
use mai_os_labs.Usage.{Allocator, test_power_of_two_allocations}
use mai_os_labs.Usage.Requests.{IsDrawn, small_power}
use mai_os_labs.Usage.Contract.{
  Contract, AreRequests, IsDrawSize, random_test-Holds, random_allocations-Holds,
}
use mai_os_labs.Measured.{is_some, best_fit, mckusick}
use mai_os_labs.Measured.Blocks.{best_fit_contract}
use mai_os_labs.Measured.Pages.{mckusick_contract}
use mai_os_labs.Measured.Mapped.{
  IsMmap, mckusick_made, best_fit_made, mckusick_defined, best_fit_defined,
}
use mai_os_labs.Measured.Factors.{Numbers, Totals, one_round, all_rounds, main_program, memory_size}

-- The sizes that `dis` draws.
abbrev pub AreSizes : List ℕ → Type 0
AreSizes [] = Unit {0}
AreSizes (size ∷ sizes) = (8 ≤ size) × (size ≤ 1024) × AreSizes sizes

-- The random numbers are in the ranges of their distributions.
abbrev pub AreDrawn : List Numbers → Type 0
AreDrawn [] = Unit {0}
AreDrawn (t ∷ ts) = AreSizes t.sizes × IsDrawn t.powers × IsDrawSize t.draws × AreDrawn ts

-- No test reports more bytes than `capacity`.
abbrev pub AreWithin : ℕ → List Totals → Type 0
AreWithin capacity [] = Unit {0}
AreWithin capacity (r ∷ rs) =
    (r.random ≤ capacity)
    × (r.power ≤ capacity)
    × (r.random_dealloc ≤ capacity)
    × AreWithin capacity rs

sizes-AreRequests : (sizes : List ℕ) → AreSizes sizes → AreRequests sizes
sizes-AreRequests [] s = tt
sizes-AreRequests (size ∷ sizes) (low, high, s) =
    (omega arith, omega arith, sizes-AreRequests sizes s)

powers-AreRequests : (powers : List ℕ) → IsDrawn powers → AreRequests (map (λ p. 2 ^ p) powers)
powers-AreRequests [] d = tt
powers-AreRequests (p ∷ powers) (low, high, d) =
    let at_least : 2 ^ 3 ≤ 2 ^ p = pow-le-pow_right (omega arith) low in
    (omega arith, omega (arith, small_power p high), powers-AreRequests powers d)

module _ {State : Type 0} (a : Allocator State) (capacity : ℕ) (c : Contract a capacity)
    (small : capacity < word) (is_defined : State → Bool) (make : ℕ → Option State)
    (defined : (s : State) → c.Holds s [] → is_defined s ≡ true)
    (made : (k : ℕ) → (s : State) × (make k ≡ some s) × c.Holds s []) where
  round-AreWithin :
      (k : ℕ) (t : Numbers)
      → AreSizes t.sizes
      → IsDrawn t.powers
      → IsDrawSize t.draws
      → (r : Totals) × (one_round a is_defined make k t ≡ some r)
        × (r.random ≤ capacity)
        × (r.power ≤ capacity)
        × (r.random_dealloc ≤ capacity)
  unfolding one_round test_power_of_two_allocations
  round-AreWithin k t sizes powers draws =
      let (s, e, h) = made k in
      let (s', e', h') = made (k + 1) in
      let (held, random) =
        random_allocations-Holds a capacity c small t.sizes s (sizes-AreRequests t.sizes sizes) h in
      let (held₂, power) =
        random_allocations-Holds a capacity c small (map (λ p. 2 ^ p) t.powers) _
          (powers-AreRequests t.powers powers) held in
      let (held₃, dealloc) = random_test-Holds a capacity c small t.draws s' draws h' in
      (_, rw (one_round, e, e', defined _ held₂, defined _ held₃) refl, random, power, dealloc)

  rounds-AreWithin :
      (k : ℕ) (ts : List Numbers)
      → AreDrawn ts
      → (rs : List Totals) × (all_rounds a is_defined make k ts ≡ some rs) × AreWithin capacity rs
  unfolding all_rounds
  rounds-AreWithin k [] d = ([], refl, tt)
  rounds-AreWithin k (t ∷ ts) (sizes, powers, draws, d) =
      let (r, e, random, power, dealloc) = round-AreWithin k t sizes powers draws in
      let (rs, e', ws) = rounds-AreWithin (k + 2) ts d in
      (r ∷ rs, rw (e, e') refl, (random, power, dealloc, ws))

module _ (mmap : ℕ → ℕ → Option ℕ) (mapped : (k : ℕ) → IsMmap memory_size (mmap k)) where
  -- Where every call of `mmap` succeeds and the random numbers are in their ranges, the program comes to
  -- its end with nothing undefined; no test on the first allocator reports more than its 15 pages, and
  -- none on the second more than its 65536 bytes.
  pub main_program-AreWithin :
      (ms bs : List Numbers)
      → AreDrawn ms
      → AreDrawn bs
      → (m b : List Totals) × (main_program mmap ms bs ≡ some (m, b))
        × AreWithin (15 * 4096) m
        × AreWithin (16 * 4096) b
  unfolding main_program meta_pages
  main_program-AreWithin ms bs dm db =
      let (m, e, w) =
        rounds-AreWithin mckusick _ (mckusick_contract 15) (omega arith) is_some _
          (mckusick_defined 15)
          (λ k. mckusick_made memory_size (mmap k) (omega arith) (omega arith) (mapped k)) 0 ms
          dm in
      let (b, f, w') =
        rounds-AreWithin best_fit _ (best_fit_contract memory_size) (omega arith) is_some _
          (best_fit_defined memory_size)
          (λ k.
            best_fit_made memory_size (mmap k) (omega arith) (omega arith) (omega arith) (mapped k))
          (2 * length ms) bs db in
      (m, b, rw (main_program, e, f) refl, w, w')
