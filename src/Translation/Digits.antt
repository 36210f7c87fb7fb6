-- ===== src/Translation/Digits.antt =====
-- What a text of digits of Labs/Lab4/src/tr_bin.cpp and Labs/Lab4/src/tr_tri.cpp stands for.
use mai_os_labs.Prelude.{
  ℕ, ◌+◌, ◌-◌, ◌*◌, ◌^◌, ◌≤◌, ◌<◌, ◌≡◌, List, [], ◌∷◌, arith, length, length-append, Bool, true,
  false, ◌≢◌, if◌then◌else◌,
}
use mai_os_labs.Translation.{Buffer, with_sign}

-- The number that a list of digits in base `b` stands for, the first digit the highest.
abbrev pub value : ℕ → List ℕ → ℕ
value b [] = 0
value b (c ∷ l) = (c - b'0') * b ^ length l + value b l

-- Digits of base `b`, with no zero in front.
abbrev pub AreDigits : ℕ → List ℕ → Type 0
AreDigits b [] = Unit {0}
AreDigits b (c ∷ l) = (b'0' ≤ c) × (c < b'0' + b) × AreDigits b l

-- The first digit of a text, if it has one, is not a zero.
abbrev pub NoLeadingZero : List ℕ → Type 0
NoLeadingZero [] = Unit {0}
NoLeadingZero (c ∷ l) = c ≢ b'0'

-- A text of `digits` behind the sign, with the final zero, in a buffer of just its size.
pub record Prints (negative : Bool) (b n : ℕ) (r : Buffer) (digits : List ℕ) : Type 0 where
  pub text : r.bytes ≡ with_sign negative digits
  pub fits : r.size ≡ length r.bytes
  pub digit : AreDigits b digits
  pub number : value b digits ≡ n
  pub no_zero : NoLeadingZero digits

pub length-with_sign :
    (negative : Bool) (digits : List ℕ)
    → length (with_sign negative digits) ≡ length digits + (if negative then 2 else 1)
length-with_sign true digits = omega (arith, length-append digits (0 ∷ []))
length-with_sign false digits = omega (arith, length-append digits (0 ∷ []))
