-- ===== src/Usage/Requests.antt =====
-- The loops of Labs/CP/src/usage_factor.cpp that only ask for blocks.
use mathlib.Core.List.{Perm}
use mathlib.Core.List.Perm
use native.Mathlib.Nat.{pow-le-pow_right}
use mai_os_labs.Prelude.{
  ℕ, ◌+◌, ◌^◌, ◌≤◌, ◌<◌, ◌≡◌, List, [], ◌∷◌, map, arith, word, refl, length, ◌*◌,
}
use mai_os_labs.Usage.{
  Allocator, Usage, request, requests, free_all, fresh, test_random_allocations,
  test_power_of_two_allocations,
}
use mai_os_labs.Usage.Accounts.{Balanced, request-Balanced, free_all-freed}

abbrev pub sum : List ℕ → ℕ
sum [] = 0
sum (n ∷ l) = n + sum l

-- The powers that `dis` draws.
abbrev pub IsDrawn : List ℕ → Type 0
IsDrawn [] = Unit {0}
IsDrawn (p ∷ l) = (3 ≤ p) × (p ≤ 10) × IsDrawn l

pub small_power : (p : ℕ) → p ≤ 10 → 2 ^ p ≤ 1024
small_power p h = pow-le-pow_right (omega arith) h

sum-map : (powers : List ℕ) → IsDrawn powers → sum (map (λ p. 2 ^ p) powers) ≤ length powers * 1024
sum-map [] d = omega arith
sum-map (p ∷ l) d = omega (arith, small_power p d.1, sum-map l d.2)

module _ {ℓ} {State : Type ℓ} (a : Allocator State) where
  requests-Balanced :
      (sizes : List ℕ) (u : Usage State)
      → u.max_used + sum sizes < word
      → Balanced u
      → Balanced (requests a sizes u) × ((requests a sizes u).max_used ≤ u.max_used + sum sizes)
  unfolding requests
  requests-Balanced [] u small b = (b, omega arith)
  requests-Balanced (size ∷ sizes) u small b =
      let r = request-Balanced a size u (omega arith) b in
      let rs = requests-Balanced sizes (request a size u) (omega (arith, r.1)) r.0 in
      (rs.0, omega (arith, r.1, rs.1))

  free_all_used : (xs : List _) (u : Usage State) → (free_all a xs u).current_used ≡ u.current_used
  unfolding free_all
  free_all_used [] u = refl
  free_all_used (x ∷ xs) u = free_all_used xs _

  -- With the sizes below 2^64 in total, the pointers that the test of random sizes was granted are,
  -- with repetition, those that it freed, and the total that it reports as granted is at most the
  -- total of the sizes.
  pub test_random_allocations_lem :
      (sizes : List ℕ) (s : State)
      → sum sizes < word
      → Perm (test_random_allocations a sizes s).granted (test_random_allocations a sizes s).freed
        × ((test_random_allocations a sizes s).current_used ≤ sum sizes)
  unfolding test_random_allocations
  test_random_allocations_lem sizes s small =
      let u = requests a sizes (fresh a s) in
      let r =
        requests-Balanced sizes (fresh a s) (omega (arith, small))
          (record { used = refl; peak = omega arith; books = Perm.rfl }) in
      let f = free_all-freed a u.active_allocations u in
      (
        rw f.1 (Perm.trans r.0.books f.0),
        omega (arith, free_all_used u.active_allocations u, r.0.peak, r.1),
      )

  -- With powers from 3 to 10, and fewer than 2^54 of them, the pointers that the test of powers of
  -- two was granted are, with repetition, those that it freed, and the total that it reports as
  -- granted is at most 1024 bytes for each power.
  pub test_power_of_two_allocations_lem :
      (powers : List ℕ) (s : State)
      → IsDrawn powers
      → length powers < 2 ^ 54
      → Perm
          (test_power_of_two_allocations a powers s).granted
          (test_power_of_two_allocations a powers s).freed
        × ((test_power_of_two_allocations a powers s).current_used ≤ length powers * 1024)
  unfolding test_power_of_two_allocations
  test_power_of_two_allocations_lem powers s drawn few =
      let total = sum-map powers drawn in
      let r = test_random_allocations_lem (map (λ p. 2 ^ p) powers) s (omega (arith, total)) in
      (r.0, omega (arith, total, r.1))
