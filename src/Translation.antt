-- ===== src/Translation.antt =====
-- Labs/Lab4/src/tr_bin.cpp and tr_tri.cpp: the two versions of `Translation`, which prints a `long` in
-- base 2 or in base 3. The result is the allocated size and the bytes that are written into it.
pub mod Digits
pub mod Binary
pub mod Ternary
use mai_os_labs.Prelude.{
  ℕ, zero, suc, ◌+◌, ◌-◌, ◌/◌, ◌%◌, ◌^◌, Bool, true, false, ◌&&◌, List, [], ◌∷◌, ◌++◌, Option, none,
  some, ltb, ◌==◌, if◌then◌else◌, length, drop,
}
use mai_os_labs.Prelude.Int.{ℤ, pos, negsuc, pos_part}

pub record Buffer : Type 0 where
  pub size : ℕ
  pub bytes : List ℕ

-- The text "0", which both versions give for 0.
abbrev pub zero_text : Buffer
zero_text = record { size = 2; bytes = b'0' ∷ 0 ∷ [] }

-- `x < 0`
abbrev pub is_negative : ℤ → Bool
is_negative (pos n) = false
is_negative (negsuc n) = true

-- The bytes of the result: the sign, the digits and the final zero.
abbrev pub with_sign : Bool → List ℕ → List ℕ
with_sign true digits = b'-' ∷ (digits ++ 0 ∷ [])
with_sign false digits = digits ++ 0 ∷ []

abbrev pub bits : ℕ
bits = 64

-- `-(x + 1)` for a negative `x`, and `x` itself otherwise.
abbrev pub fold_sign : ℤ → ℕ
fold_sign (pos n) = n
fold_sign (negsuc n) = n

-- `b ^ 1` for a bit.
abbrev pub flip : ℕ → ℕ
flip b = if b == 0 then 1 else 0

-- The loop of tr_bin.cpp that fills `temp` from its last entry to its first, for `n` more entries.
unfoldable pub fill_bits : ℕ → ℕ → Bool → List ℕ → List ℕ
fill_bits zero x negative temp = temp
fill_bits (suc n) x negative temp =
    fill_bits n (x / 2) negative ((if negative then flip (x % 2) + b'0' else x % 2 + b'0') ∷ temp)

-- The loop that passes over leading zeros.
unfoldable pub first_digit : List ℕ → ℕ
first_digit [] = 0
first_digit (c ∷ temp) = if c == b'0' then suc (first_digit temp) else 0

unfoldable pub translation_bin : ℤ → Buffer
translation_bin (pos zero) = zero_text
translation_bin x =
    let temp = fill_bits bits (fold_sign x) (is_negative x) [] in
    let counted = first_digit temp in
    let first = if counted == bits then counted - 1 else counted in
    record {
      size = bits - first + (if is_negative x then 2 else 1);
      bytes = with_sign (is_negative x) (drop first temp);
    }

abbrev pub max_digits : ℕ
max_digits = 42

-- `-x` of a `long`: the least one has no negative and comes back.
abbrev pub negate : ℤ → ℤ
negate (pos zero) = pos 0
negate (pos (suc n)) = negsuc n
negate (negsuc n) = if n + 1 == 2 ^ 63 then negsuc n else pos (n + 1)

-- The loop of tr_tri.cpp, with the room left in `temp` as fuel; `none` is a write behind its end.
-- The digits stand in `temp` with the last one first, the order in which they are copied.
unfoldable pub ternary_digits : ℕ → ℕ → List ℕ → Option (List ℕ)
ternary_digits zero x temp = if x == 0 then some temp else none
ternary_digits (suc room) x temp =
    let rest = ternary_digits room (x / 3) ((x % 3 + b'0') ∷ temp) in
    if x == 0 then some temp else rest

unfoldable pub translation_tri : ℤ → Option Buffer
translation_tri (pos zero) = some zero_text
translation_tri x =
    elim (ternary_digits max_digits (pos_part (if is_negative x then negate x else x)) []) [
      | none ↦ none
      | some digits ↦ some (record {
        size = length digits + (if is_negative x then 2 else 1);
        bytes = with_sign (is_negative x) digits;
      })
    ]
