-- ===== src/Bitonic/Program.antt =====
-- `main` of Labs/Lab2/src/main.cpp: the arguments and the test for a power of two. An `int` is its
-- 32 bits. The numbers that `rand` gives are a function of how many were drawn before. With a
-- negative `max_threads`, `new pthread_t[max_threads]` throws, and so does the vector of a negative size.
pub mod Sizes
use mai_os_labs.Prelude.{
  ℕ, zero, suc, ◌+◌, ◌-◌, ◌*◌, ◌/◌, ◌%◌, ◌^◌, List, [], ◌∷◌, ◌==◌, if◌then◌else◌,
}
use mai_os_labs.Prelude.Int.{ℤ, pos, negsuc}
use mai_os_labs.Bitonic.{Verdict, make_calculations}

-- The bits of an `int`, read as a number.
abbrev pub bits_of : ℤ → ℕ
bits_of (pos n) = n
bits_of (negsuc n) = 2 ^ 32 - (n + 1)

-- `a & b`, on the lowest `width` bits.
unfoldable pub bit_and : ℕ → ℕ → ℕ → ℕ
bit_and zero a b = 0
bit_and (suc width) a b = 2 * bit_and width (a / 2) (b / 2) + a % 2 * (b % 2)

-- `n & (n - 1)`, where the difference does not overflow.
unfoldable pub and_predecessor : ℤ → ℕ
and_predecessor n = bit_and 32 (bits_of n) ((bits_of n + (2 ^ 32 - 1)) % 2 ^ 32)

-- The numbers that the loop of `make_calculations` draws.
unfoldable pub drawn : (ℕ → ℕ) → ℕ → ℕ → List ℕ
drawn rand i zero = []
drawn rand i (suc n) = rand i ∷ drawn rand (i + 1) n

pub data Outcome : Type 0 where
  wrong_usage not_power_of_two bad_length : Outcome
  calculated : List ℕ → Verdict → Outcome

-- The exceptions of `make_calculations`, and its result otherwise.
unfoldable pub calculations : ℤ → ℤ → (ℕ → ℕ) → Outcome
calculations n (negsuc k) rand = bad_length
calculations (negsuc i) (pos k) rand = bad_length
calculations (pos i) (pos k) rand =
    let r = make_calculations k (drawn rand 0 i) in calculated r.0 r.1

unfoldable pub main_program : ℕ → ℤ → ℤ → (ℕ → ℕ) → Outcome
unfolding calculations
main_program argc n max_threads rand =
    if argc == 3
    then (if and_predecessor n == 0 then calculations n max_threads rand else not_power_of_two)
    else wrong_usage
