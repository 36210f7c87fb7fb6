-- ===== src/Pipes/Input.antt =====
-- What Labs/Lab1/src reads with `fgets` and `scanf`.
use mai_os_labs.Prelude.{
  ℕ, zero, suc, ◌-◌, ◌≤◌, ◌≡◌, refl, ap, Bool, ◌&&◌, ◌||◌, List, [], ◌∷◌, ◌++◌, Option, none, some,
  length, leb, ◌==◌, if◌then◌else◌, arith, Bool-cases, inl, inr,
}

-- Up to `n` bytes, a newline being the last of them, and what is left.
unfoldable pub line_bytes : ℕ → List ℕ → List ℕ × List ℕ
line_bytes zero input = ([], input)
line_bytes (suc n) [] = ([], [])
line_bytes (suc n) (c ∷ input) =
    let (line, rest) = line_bytes n input in if c == 10 then (c ∷ [], input) else (c ∷ line, rest)

-- `fgets` into an array of `n` bytes: `none` at the end of the input.
unfoldable pub fgets : ℕ → List ℕ → Option (List ℕ × List ℕ)
fgets n [] = none
fgets n (c ∷ input) = some (line_bytes (n - 1) (c ∷ input))

abbrev pub is_space : ℕ → Bool
is_space c = c == 32 || (leb 9 c && leb c 13)

unfoldable pub skip_spaces : List ℕ → List ℕ
skip_spaces [] = []
skip_spaces (c ∷ input) = if is_space c then skip_spaces input else c ∷ input

unfoldable pub word_bytes : ℕ → List ℕ → List ℕ × List ℕ
word_bytes zero input = ([], input)
word_bytes (suc n) [] = ([], [])
word_bytes (suc n) (c ∷ input) =
    let (w, rest) = word_bytes n input in if is_space c then ([], c ∷ input) else (c ∷ w, rest)

-- `scanf` of `%255s`: `none` where the input ends before a word.
unfoldable pub scanf_word : ℕ → List ℕ → Option (List ℕ × List ℕ)
scanf_word n input = elim (skip_spaces input) [
  | [] ↦ none
  | c ∷ rest ↦ some (word_bytes n (c ∷ rest))
]

pub line_bytes-append :
    (n : ℕ) (input : List ℕ) → (line_bytes n input).0 ++ (line_bytes n input).1 ≡ input
unfolding line_bytes
line_bytes-append zero input = refl
line_bytes-append (suc n) [] = refl
line_bytes-append (suc n) (c ∷ input) = elim (Bool-cases (c == 10)) [
  | inl newline ↦ rw (line_bytes, newline) refl
  | inr other ↦ rw (line_bytes, other) (ap (◌∷◌ c) (line_bytes-append n input))
]

pub length-line_bytes : (n : ℕ) (input : List ℕ) → length (line_bytes n input).0 ≤ n
unfolding line_bytes
length-line_bytes zero input = omega arith
length-line_bytes (suc n) [] = omega arith
length-line_bytes (suc n) (c ∷ input) = elim (Bool-cases (c == 10)) [
  | inl newline ↦ rw (line_bytes, newline) (omega arith)
  | inr other ↦ rw (line_bytes, other) (omega (arith, length-line_bytes n input))
]

line_bytes_rest : (n : ℕ) (input : List ℕ) → length (line_bytes n input).1 ≤ length input
unfolding line_bytes
line_bytes_rest zero input = omega arith
line_bytes_rest (suc n) [] = omega arith
line_bytes_rest (suc n) (c ∷ input) = elim (Bool-cases (c == 10)) [
  | inl newline ↦ rw (line_bytes, newline) (omega arith)
  | inr other ↦ rw (line_bytes, other) (omega (arith, line_bytes_rest n input))
]

pub line_bytes_fewer :
    (n c : ℕ) (input : List ℕ) → length (line_bytes (suc n) (c ∷ input)).1 ≤ length input
unfolding line_bytes
line_bytes_fewer n c input = elim (Bool-cases (c == 10)) [
  | inl newline ↦ rw (line_bytes, newline) (omega arith)
  | inr other ↦ rw (line_bytes, other) (line_bytes_rest n input)
]
