-- ===== src/Translation/Binary.antt =====
-- `Translation` of Labs/Lab4/src/tr_bin.cpp.
use native.Mathlib.Nat.{pow-suc}
use mai_os_labs.Prelude.{
  ℕ, zero, suc, ◌+◌, ◌-◌, ◌*◌, ◌/◌, ◌%◌, ◌^◌, ◌≤◌, ◌<◌, ◌≡◌, ◌≢◌, inl, inr, refl, ap, ◌∙◌, Bool,
  true, false, List, [], ◌∷◌, arith, length, drop, length-drop, ◌==◌, if◌then◌else◌, Bool-cases,
}
use mai_os_labs.Prelude.Int.{pos, negsuc}
use mai_os_labs.Translation.{bits, fill_bits, first_digit, flip, translation_bin, with_sign}
use mai_os_labs.Translation.Digits.{value, AreDigits, NoLeadingZero, Prints, length-with_sign}

length-fill_bits :
    (n x : ℕ) (negative : Bool) (temp : List ℕ)
    → length (fill_bits n x negative temp) ≡ n + length temp
unfolding fill_bits
length-fill_bits zero x negative temp = omega arith
length-fill_bits (suc n) x negative temp = omega (
  arith,
  length-fill_bits n (x / 2) negative
      ((if negative then flip (x % 2) + b'0' else x % 2 + b'0') ∷ temp),
)

digit_value : (d : ℕ) → d + b'0' - b'0' ≡ d
digit_value d = omega arith

flip_value : (d : ℕ) → d < 2 → flip d + d ≡ 1
flip_value d h = ground arith

-- A non-negative number is written as itself.
value-fill_bits :
    (n x : ℕ) (temp : List ℕ)
    → x < 2 ^ n
    → value 2 (fill_bits n x false temp) ≡ x * 2 ^ length temp + value 2 temp
unfolding fill_bits
value-fill_bits zero x temp h = grind arith
value-fill_bits (suc n) x temp h =
    let p = 2 ^ length temp in
    let split : x ≡ 2 * (x / 2) + x % 2 = omega arith in
    omega (
      arith,
      value-fill_bits n (x / 2) ((x % 2 + b'0') ∷ temp) (omega (arith, pow-suc 2 n)),
      pow-suc 2 (length temp),
      ap (λ (t : ℕ). t * p) split,
      ap (λ (t : ℕ). (x / 2) * t) (pow-suc 2 (length temp)),
      ap (λ (t : ℕ). t * p) (digit_value (x % 2)),
    )

-- For a negative number the bits of `x` are turned over: together with `x + 1` they make 2 ^ n.
value-fill_bits_flipped :
    (n x : ℕ) (temp : List ℕ)
    → x < 2 ^ n
    → value 2 (fill_bits n x true temp) + (x + 1) * 2 ^ length temp
      ≡ 2 ^ n * 2 ^ length temp + value 2 temp
unfolding fill_bits
value-fill_bits_flipped zero x temp h = grind arith
value-fill_bits_flipped (suc n) x temp h =
    let p = 2 ^ length temp in
    let split : x + 2 ≡ 2 * (x / 2 + 1) + x % 2 = omega arith in
    omega (
      arith,
      value-fill_bits_flipped n (x / 2) ((flip (x % 2) + b'0') ∷ temp) (omega (arith, pow-suc 2 n)),
      ap (λ (t : ℕ). t * p) split,
      ap (λ (t : ℕ). (x / 2 + 1) * t) (pow-suc 2 (length temp)),
      ap (λ (t : ℕ). 2 ^ n * t) (pow-suc 2 (length temp)),
      ap (λ (t : ℕ). t * p) (pow-suc 2 n),
      ap (λ (t : ℕ). t * p) (digit_value (flip (x % 2))),
      ap (λ (t : ℕ). t * p) (flip_value (x % 2) (omega arith)),
    )

AreDigits-fill_bits :
    (n x : ℕ) (negative : Bool) (temp : List ℕ)
    → AreDigits 2 temp
    → AreDigits 2 (fill_bits n x negative temp)
unfolding fill_bits
AreDigits-fill_bits zero x negative temp h = h
AreDigits-fill_bits (suc n) x negative temp h =
    AreDigits-fill_bits n (x / 2) negative _ (ground arith, ground arith, h)

-- Dropping the leading zeros keeps the value.
value-drop : (temp : List ℕ) → value 2 (drop (first_digit temp) temp) ≡ value 2 temp
unfolding first_digit
value-drop [] = refl
value-drop (c ∷ temp) = elim (Bool-cases (c == b'0')) [
  | inl z ↦ rw z (value-drop temp ∙ grind arith)
  | inr z ↦ rw z
]

first_digit-le : (temp : List ℕ) → first_digit temp ≤ length temp
unfolding first_digit
first_digit-le [] = omega arith
first_digit-le (c ∷ temp) = ground (arith, first_digit-le temp)

first_digit-lt : (temp : List ℕ) → value 2 temp ≢ 0 → first_digit temp < length temp
unfolding first_digit
first_digit-lt [] h = absurd (h refl)
first_digit-lt (c ∷ temp) h = elim (Bool-cases (c == b'0')) [
  | inl z ↦ rw z (omega (arith, first_digit-lt temp (λ (e : value 2 temp ≡ 0). h (grind arith))))
  | inr z ↦ rw z (omega arith)
]

AreDigits-drop : (b n : ℕ) (temp : List ℕ) → AreDigits b temp → AreDigits b (drop n temp)
AreDigits-drop b zero temp h = h
AreDigits-drop b (suc n) [] h = tt
AreDigits-drop b (suc n) (c ∷ temp) h = AreDigits-drop b n temp h.2

-- The digits that are copied: those behind the leading zeros.
first : List ℕ → ℕ
first temp = let counted = first_digit temp in if counted == bits then counted - 1 else counted

NoLeadingZero-drop : (temp : List ℕ) → NoLeadingZero (drop (first_digit temp) temp)
unfolding first_digit
NoLeadingZero-drop [] = tt
NoLeadingZero-drop (c ∷ temp) = elim (Bool-cases (c == b'0')) [
  | inl z ↦ rw z (NoLeadingZero-drop temp)
  | inr z ↦ rw z (ground arith)
]

-- The text that is made of the 64 bits in `temp`.
Prints-temp :
    (negative : Bool) (n : ℕ) (temp : List ℕ)
    → length temp ≡ bits
    → AreDigits 2 temp
    → value 2 temp ≡ n
    → n ≢ 0
    → Prints negative 2 n
        (record {
          size = bits - first temp + (if negative then 2 else 1);
          bytes = with_sign negative (drop (first temp) temp);
        })
        (drop (first_digit temp) temp)
unfolding first
Prints-temp negative n temp len ok e ne =
    let short = first_digit-lt temp (rw e ne) in
    let stays : (first_digit temp == bits) ≡ false = ground arith in
    rw stays (record {
      text = refl;
      fits = omega (
        arith,
        length-with_sign negative (drop (first_digit temp) temp),
        length-drop (first_digit temp) temp,
      );
      digit = AreDigits-drop 2 (first_digit temp) temp ok;
      number = value-drop temp ∙ e;
      no_zero = NoLeadingZero-drop temp;
    })

-- A positive `long` is printed in base 2: the digits stand for it, with no zero in front, and the
-- text fills the allocated buffer.
pub translation_bin-positive :
    (n : ℕ)
    → 0 < n
    → n < 2 ^ 63
    → (digits : List ℕ) × Prints false 2 n (translation_bin (pos n)) digits
unfolding translation_bin first_digit first
translation_bin-positive zero lo hi = absurd (omega arith)
translation_bin-positive (suc n) lo hi =
    let temp = fill_bits bits (suc n) false [] in
    let number : value 2 temp ≡ suc n =
      omega (arith, value-fill_bits bits (suc n) [] (omega arith)) in
    (
      drop (first_digit temp) temp,
      Prints-temp false (suc n) temp (length-fill_bits bits (suc n) false [])
          (AreDigits-fill_bits bits (suc n) false [] tt) number (omega arith),
    )

-- For a negative `long` the digits behind the minus sign do not stand for its absolute value, but
-- for 2 ^ 64 less that value.
pub translation_bin-negative :
    (n : ℕ)
    → n < 2 ^ 63
    → (digits : List ℕ) × Prints true 2 (2 ^ 64 - (n + 1)) (translation_bin (negsuc n)) digits
unfolding translation_bin first_digit first
translation_bin-negative n hi =
    let temp = fill_bits bits n true [] in
    let number : value 2 temp ≡ 2 ^ 64 - (n + 1) =
      omega (arith, value-fill_bits_flipped bits n [] (omega arith)) in
    (
      drop (first_digit temp) temp,
      Prints-temp true (2 ^ 64 - (n + 1)) temp (length-fill_bits bits n true [])
          (AreDigits-fill_bits bits n true [] tt) number (omega arith),
    )
