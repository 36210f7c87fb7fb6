-- ===== src/Pipes.antt =====
-- Labs/Lab1/src/parent.c and its children child1.c and child2.c, which are the same text: the parent
-- hands each line of its input to one of the children through a pipe, and a child writes what it reads
-- to its file without the vowels. `true` is the first child and its pipe. `removeVowels` and `isVowel`
-- of Labs/Lab3 are `remove_vowels` and `is_vowel` here, word for word.
pub mod Input
pub mod Table
pub mod Launch
pub mod System
pub mod Files
pub mod Invariant
pub mod Progress
pub mod Program
use mai_os_labs.Prelude.{
  ℕ, zero, suc, ◌+◌, Bool, true, false, List, [], ◌∷◌, ◌++◌, Option, none, some, length, drop, ◌==◌,
  if◌then◌else◌,
}
use mai_os_labs.Channel.{remove_vowels, c_string}
use mai_os_labs.Pipes.Input.{fgets}

abbrev pub max_line : ℕ
max_line = 1000

-- How a child ends: the last is what it has written to its file.
pub data Ending : Type 0 where
  usage_error : Ending
  open_error : Ending
  finished : List ℕ → Ending

-- The array `line` with what `fgets` puts there.
abbrev pub filled : List ℕ → List ℕ → List ℕ
filled line array = line ++ 0 ∷ drop (suc (length line)) array

-- The child's loop, with the array's bytes, which start as anything.
unfoldable pub filter_lines : ℕ → List ℕ → List ℕ → List ℕ
filter_lines zero array input = []
filter_lines (suc fuel) array input = elim (fgets max_line input) [
  | none ↦ []
  | some (line, rest) ↦
      let cleaned = remove_vowels (filled line array) in
      c_string cleaned ++ filter_lines fuel cleaned rest
]

-- `main` of a child. `opened` says whether `fopen` gives a file; each turn of the loop takes a byte.
unfoldable pub child_main : ℕ → Bool → List ℕ → List ℕ → Ending
child_main argc opened array input =
    if argc == 2
    then (if opened then finished (filter_lines (suc (length input)) array input) else open_error)
    else usage_error

-- The parent's loop: the pipe and the bytes of each `write`. `choose k` says whether the k-th random
-- number is below the probability of the first pipe.
unfoldable pub send_lines : ℕ → (ℕ → Bool) → ℕ → List ℕ → List ℕ → List (Bool × List ℕ)
send_lines zero choose k array input = []
send_lines (suc fuel) choose k array input = elim (fgets max_line input) [
  | none ↦ []
  | some (line, rest) ↦
      (choose k, c_string (filled line array))
      ∷ send_lines fuel choose (k + 1) (filled line array) rest
]
