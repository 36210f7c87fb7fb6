-- ===== src/Bitonic/Program/Sizes.antt =====
-- The sizes that `main` of Labs/Lab2/src/main.cpp accepts, and what it does with them.
use mathlib.Core.List.{Perm}
use mathlib.Core.List.Perm
use mai_os_labs.Prelude.{
  ℕ, zero, suc, ◌+◌, ◌-◌, ◌*◌, ◌/◌, ◌%◌, ◌^◌, ◌<◌, ◌≡◌, ◌≢◌, ◌⊎◌, inl, inr, refl, sym, ap, ◌∙◌,
  List, [], ◌∷◌, arith, length, map, ◌==◌, Bool-cases,
}
use mai_os_labs.Prelude.Int.{ℤ, pos, negsuc}
use mai_os_labs.Bitonic.{make_calculations, sorting_successful, bitonic_sort, check_sorted}
use mai_os_labs.Bitonic.Network.{pow_suc}
use mai_os_labs.Bitonic.Loops.{pow_pos}
use mai_os_labs.Bitonic.Sorted.{IsOrdered}
use mai_os_labs.Bitonic.Main.{make_calculations-succeeds}
use mai_os_labs.Bitonic.Program.{
  bit_and, and_predecessor, drawn, Outcome, calculated, not_power_of_two, bad_length, calculations,
  main_program,
}

bit_square : (b : ℕ) → b < 2 → b * b ≡ b
bit_square zero h = refl
bit_square (suc zero) h = refl
bit_square (suc (suc b)) h = absurd (omega arith)

bit_and_self : (width n : ℕ) → n < 2 ^ width → bit_and width n n ≡ n
unfolding bit_and
bit_and_self zero n h = omega arith
bit_and_self (suc width) n h = omega (
  arith,
  bit_and_self width (n / 2) (omega (arith, pow_suc width)),
  bit_square (n % 2) (omega arith),
)

bit_and_nothing : (width a : ℕ) → bit_and width a 0 ≡ 0
unfolding bit_and
bit_and_nothing zero a = refl
bit_and_nothing (suc width) a = omega (arith, bit_and_nothing width (a / 2))

nothing_bit_and : (width b : ℕ) → bit_and width 0 b ≡ 0
unfolding bit_and
nothing_bit_and zero b = refl
nothing_bit_and (suc width) b = omega (arith, nothing_bit_and width (b / 2))

odd_step :
    (width n : ℕ) → n % 2 ≡ 1 → bit_and (suc width) n (n - 1) ≡ 2 * bit_and width (n / 2) (n / 2)
unfolding bit_and
odd_step width n h =
    let half : (n - 1) / 2 ≡ n / 2 = omega arith in
    let low : (n - 1) % 2 ≡ 0 = omega arith in rw (half, low) (omega arith)

even_step :
    (width n : ℕ)
    → n % 2 ≡ 0
    → 0 < n
    → bit_and (suc width) n (n - 1) ≡ 2 * bit_and width (n / 2) (n / 2 - 1)
unfolding bit_and
even_step width n h p =
    let half : (n - 1) / 2 ≡ n / 2 - 1 = omega arith in rw (half, h) (omega arith)

parity : (n : ℕ) → (n % 2 ≡ 0) ⊎ (n % 2 ≡ 1)
parity n = ground arith

bit_and_zero :
    (width n : ℕ) → 0 < n → n < 2 ^ width → bit_and width n (n - 1) ≡ 0 → (m : ℕ) × (n ≡ 2 ^ m)
bit_and_zero zero n p h e = absurd (omega arith)
bit_and_zero (suc width) n p h e = elim (parity n) [
  | inl even ↦
      let small : n / 2 < 2 ^ width = omega (arith, pow_suc width) in
      let (m, e') =
        bit_and_zero width (n / 2) (omega arith) small (omega (arith, even_step width n even p)) in
      (suc m, omega (arith, e', pow_suc m))
  | inr odd ↦
      let small : n / 2 < 2 ^ width = omega (arith, pow_suc width) in
      (0, omega (arith, bit_and_self width (n / 2) small, odd_step width n odd))
]

bit_and-pow : (width m : ℕ) → bit_and width (2 ^ m) (2 ^ m - 1) ≡ 0
bit_and-pow zero m = unfold bit_and in refl
bit_and-pow (suc width) zero = odd_step width 1 refl ∙ ap (λ k. 2 * k) (nothing_bit_and width 0)
bit_and-pow (suc width) (suc m) =
    let half : 2 ^ suc m / 2 ≡ 2 ^ m = omega (arith, pow_suc m) in
    even_step width (2 ^ suc m) (omega (arith, pow_suc m)) (pow_pos (suc m))
    ∙ rw half (ap (λ k. 2 * k) (bit_and-pow width m))

length-drawn : (rand : ℕ → ℕ) (i n : ℕ) → length (drawn rand i n) ≡ n
unfolding drawn
length-drawn rand i zero = refl
length-drawn rand i (suc n) = ap suc (length-drawn rand (i + 1) n)

predecessor : (n : ℕ) → 0 < n → n < 2 ^ 31 → and_predecessor (pos n) ≡ bit_and 32 n (n - 1)
unfolding and_predecessor
predecessor n p h = ap (bit_and 32 n) (omega arith)

accepted_size :
    (n : ℕ) → n < 2 ^ 31 → and_predecessor (pos n) ≡ 0 → (n ≡ 0) ⊎ ((m : ℕ) × (n ≡ 2 ^ m))
accepted_size zero h e = inl refl
accepted_size (suc n) h e = inr (
    bit_and_zero 32 (suc n) (omega arith) (omega arith)
      (sym (predecessor (suc n) (omega arith) h) ∙ e))

power_accepted : (n m : ℕ) → n < 2 ^ 31 → n ≡ 2 ^ m → and_predecessor (pos n) ≡ 0
power_accepted n m h e = predecessor n (omega (arith, e, pow_pos m)) h ∙ rw e (bit_and-pow 32 m)

zero_accepted : and_predecessor (pos 0) ≡ 0
unfolding and_predecessor
zero_accepted = nothing_bit_and 32 (2 ^ 32 - 1)

-- What `main` reports on a size from 0 on: a refusal, where it is neither 0 nor a power of two, or an
-- exception, where the number of threads is negative, or success with the drawn numbers in order.
pub data Reported (n : ℕ) (max_threads : ℤ) (randoms : List ℕ) (r : Outcome) : Type 0 where
  refused_size :
      r ≡ not_power_of_two → n ≢ 0 → ((m : ℕ) → n ≢ 2 ^ m) → Reported n max_threads randoms r
  thrown :
      r ≡ bad_length
      → (n ≡ 0) ⊎ ((m : ℕ) × (n ≡ 2 ^ m))
      → (k : ℕ) → max_threads ≡ negsuc k
      → Reported n max_threads randoms r
  sorted_size :
      (arr : List ℕ)
      → r ≡ calculated arr sorting_successful
      → (n ≡ 0) ⊎ ((m : ℕ) × (n ≡ 2 ^ m))
      → (k : ℕ) → max_threads ≡ pos k
      → IsOrdered 1 arr
      → Perm arr (map (λ k. k % 1000) randoms)
      → Reported n max_threads randoms r

calculations_succeed :
    (n max_threads : ℕ) (randoms : List ℕ)
    → length randoms ≡ n
    → (n ≡ 0) ⊎ ((m : ℕ) × (n ≡ 2 ^ m))
    → let r = make_calculations max_threads randoms in
      (r.1 ≡ sorting_successful) × IsOrdered 1 r.0 × Perm r.0 (map (λ k. k % 1000) randoms)
calculations_succeed n max_threads [] len (inl e) =
    unfold make_calculations bitonic_sort check_sorted in (refl, tt, Perm.rfl)
calculations_succeed n max_threads (x ∷ randoms) len (inl e) = absurd (omega arith)
calculations_succeed n max_threads randoms len (inr (m, e)) =
    make_calculations-succeeds m max_threads randoms (len ∙ e)

accepted_outcome :
    (n : ℕ) (max_threads : ℤ) (rand : ℕ → ℕ)
    → (n ≡ 0) ⊎ ((m : ℕ) × (n ≡ 2 ^ m))
    → Reported n max_threads (drawn rand 0 n) (calculations (pos n) max_threads rand)
unfolding calculations
accepted_outcome n (negsuc k) rand size = thrown refl size k refl
accepted_outcome n (pos k) rand size =
    let (success, ordered, perm) =
      calculations_succeed n k (drawn rand 0 n) (length-drawn rand 0 n) size in
    let r = make_calculations k (drawn rand 0 n) in
    sorted_size r.0 (ap (calculated r.0) success) size k refl ordered perm

-- With two arguments, the first a size that is not negative and fits an `int`, the program refuses
-- just the sizes that are neither 0 nor a power of two. On the others it ends with an exception, if the
-- number of threads is negative, and otherwise sorts the numbers that it draws and reports success.
pub main_program-Reported :
    (n : ℕ) (max_threads : ℤ) (rand : ℕ → ℕ)
    → n < 2 ^ 31
    → Reported n max_threads (drawn rand 0 n) (main_program 3 (pos n) max_threads rand)
unfolding main_program
main_program-Reported n max_threads rand h = elim (Bool-cases (and_predecessor (pos n) == 0)) [
  | inl accepted ↦
      rw accepted (accepted_outcome n max_threads rand (accepted_size n h (ground arith)))
  | inr refused ↦ rw refused (
      refused_size refl (λ e. absurd (ground (arith, zero_accepted)))
        (λ m e. absurd (ground (arith, power_accepted n m h e))))
]
