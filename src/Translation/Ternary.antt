-- ===== src/Translation/Ternary.antt =====
-- `Translation` of Labs/Lab4/src/tr_tri.cpp.
use native.Mathlib.Nat.{pow-suc}
use mai_os_labs.Prelude.{
  ℕ, zero, suc, ◌+◌, ◌-◌, ◌*◌, ◌/◌, ◌%◌, ◌^◌, ◌≤◌, ◌<◌, ◌≡◌, inl, inr, refl, ap, Bool, true, false,
  List, [], ◌∷◌, some, arith, length, ◌==◌, if◌then◌else◌, Bool-cases,
}
use mai_os_labs.Prelude.Int.{pos, negsuc}
use mai_os_labs.Translation.{Buffer, max_digits, ternary_digits, translation_tri, with_sign}
use mai_os_labs.Translation.Digits.{value, AreDigits, NoLeadingZero, Prints, length-with_sign}

-- What the loop leaves in `temp`: `x` in front of the digits that were there, in `r` more entries
-- at most.
record Written (r x : ℕ) (temp digits : List ℕ) : Type 0 where
  number : value 3 digits ≡ x * 3 ^ length temp + value 3 temp
  digit : AreDigits 3 digits
  no_zero : NoLeadingZero digits
  short : length digits ≤ r + length temp

stopped :
    (r x : ℕ) (temp : List ℕ)
    → x ≡ 0
    → AreDigits 3 temp
    → (x ≡ 0 → NoLeadingZero temp)
    → Written r x temp temp
stopped r x temp z ok nz = record {
  number = rw z (omega arith);
  digit = ok;
  no_zero = nz z;
  short = omega arith;
}

ternary_digits_lem :
    (r room x : ℕ) (temp : List ℕ)
    → x < 3 ^ r
    → r ≤ room
    → AreDigits 3 temp
    → (x ≡ 0 → NoLeadingZero temp)
    → (digits : List ℕ) × (ternary_digits room x temp ≡ some digits) × Written r x temp digits
unfolding ternary_digits
ternary_digits_lem zero zero x temp h le ok nz =
    (temp, ground arith, stopped 0 x temp (omega arith) ok nz)
ternary_digits_lem zero (suc room) x temp h le ok nz =
    (temp, ground arith, stopped 0 x temp (omega arith) ok nz)
ternary_digits_lem (suc r) zero x temp h le ok nz = absurd (omega arith)
ternary_digits_lem (suc r) (suc room) x temp h le ok nz = elim (Bool-cases (x == 0)) [
  | inl z ↦ (temp, rw z refl, stopped (suc r) x temp (ground arith) ok nz)
  | inr z ↦
      let p = 3 ^ length temp in
      let split : x ≡ 3 * (x / 3) + x % 3 = omega arith in
      let digit : x % 3 + b'0' - b'0' ≡ x % 3 = omega arith in
      let (digits, e, w) =
        ternary_digits_lem r room (x / 3) ((x % 3 + b'0') ∷ temp) (omega (arith, pow-suc 3 r))
          (omega arith) (omega arith, omega arith, ok) (λ q. ground arith) in
      (
        digits,
        rw z e,
        record {
          number = omega (
            arith,
            w.number,
            ap (λ (t : ℕ). t * p) split,
            ap (λ (t : ℕ). (x / 3) * t) (pow-suc 3 (length temp)),
            ap (λ (t : ℕ). t * p) digit,
          );
          digit = w.digit;
          no_zero = w.no_zero;
          short = omega (arith, w.short);
        },
      )
]

-- What is printed for an absolute value `x`.
Prints-digits :
    (negative : Bool) (x : ℕ)
    → 0 < x
    → x < 2 ^ 63
    → (digits : List ℕ) × (ternary_digits max_digits x [] ≡ some digits)
      × Prints negative 3 x
          (record {
            size = length digits + (if negative then 2 else 1);
            bytes = with_sign negative digits;
          })
          digits
      × (length digits ≤ 40)
Prints-digits negative x lo hi =
    let (digits, e, w) =
      ternary_digits_lem 40 42 x [] (omega arith) (omega arith) tt (λ z. absurd (omega arith)) in
    (
      digits,
      e,
      record {
        text = refl;
        fits = omega (arith, length-with_sign negative digits);
        digit = w.digit;
        number = omega (arith, w.number);
        no_zero = w.no_zero;
      },
      omega (arith, w.short),
    )

tri_negative :
    (k x : ℕ) (digits : List ℕ)
    → k + 1 ≡ x
    → x < 2 ^ 63
    → ternary_digits max_digits x [] ≡ some digits
    → translation_tri (negsuc k)
      ≡ some (record { size = length digits + 2; bytes = with_sign true digits })
unfolding translation_tri
tri_negative k x digits back hi e =
    let stays : (k + 1 == 2 ^ 63) ≡ false = ground arith in rw (translation_tri, stays, back, e)

-- Every `long` but 0 and the least one is printed in base 3 with its sign: the digits stand for
-- its absolute value, no zero stands in front, 40 of the 42 entries of `temp` are enough, and the
-- text fills the allocated buffer.
pub translation_tri-Prints :
    (x : ℕ)
    → 0 < x
    → x < 2 ^ 63
    → ((r : Buffer) × (digits : List ℕ) × (translation_tri (pos x) ≡ some r)
        × Prints false 3 x r digits
        × (length digits ≤ 40))
      × ((r : Buffer) × (digits : List ℕ) × (translation_tri (negsuc (x - 1)) ≡ some r)
          × Prints true 3 x r digits
          × (length digits ≤ 40))
unfolding translation_tri
translation_tri-Prints zero lo hi = absurd (omega arith)
translation_tri-Prints (suc n) lo hi =
    let (digits, e, p, short) = Prints-digits false (suc n) lo hi in
    let (digits', e', p', short') = Prints-digits true (suc n) lo hi in
    (
      (_, digits, rw (translation_tri, e), p, short),
      (_, digits', tri_negative (suc n - 1) (suc n) digits' (omega arith) hi e', p', short'),
    )

-- The least `long` has no negative: a minus sign is printed, and no digit.
pub translation_tri-least :
    translation_tri (negsuc (2 ^ 63 - 1)) ≡ some (record { size = 2; bytes = b'-' ∷ 0 ∷ [] })
unfolding translation_tri ternary_digits
translation_tri-least = refl
