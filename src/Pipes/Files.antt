-- ===== src/Pipes/Files.antt =====
-- What the loops of Labs/Lab1/src make of their input.
use mai_os_labs.Prelude.{
  ℕ, zero, suc, ◌+◌, ◌*◌, length-append, ◌≤◌, ◌<◌, ◌≡◌, refl, sym, ap, subst, ◌∙◌, Bool, true, List,
  [], ◌∷◌, ◌++◌, none, some, length, drop, arith, Bool-cases, inl, inr,
}
use mai_os_labs.Channel.{remove_vowels, is_vowel, HasNoZero}
use mai_os_labs.Channel.Vowels.{without_vowels, c_string-text, remove_vowels-without_vowels}
use mai_os_labs.Pipes.{filter_lines, child_main, send_lines, finished, filled, max_line}
use mai_os_labs.Pipes.Input.{fgets, line_bytes-append, length-line_bytes, line_bytes_fewer}

pub without_vowels-append :
    (a b : List ℕ) → without_vowels (a ++ b) ≡ without_vowels a ++ without_vowels b
without_vowels-append [] b = refl
without_vowels-append (c ∷ a) b = elim (Bool-cases (is_vowel c)) [
  | inl vowel ↦ rw vowel (without_vowels-append a b)
  | inr kept ↦ rw kept (ap (◌∷◌ c) (without_vowels-append a b))
]

pub HasNoZero-parts : (a b : List ℕ) → HasNoZero (a ++ b) → HasNoZero a × HasNoZero b
HasNoZero-parts [] b h = (tt, h)
HasNoZero-parts (c ∷ a) b (ne, h) = let (ha, hb) = HasNoZero-parts a b h in ((ne, ha), hb)

-- One call of `fgets` on an input that has not ended.
fgets_parts :
    (c : ℕ) (input : List ℕ)
    → HasNoZero (c ∷ input)
    → (line rest : List ℕ) × (fgets max_line (c ∷ input) ≡ some (line, rest))
      × (line ++ rest ≡ c ∷ input)
      × HasNoZero line
      × HasNoZero rest
      × (length line < max_line)
      × (length rest ≤ length input)
unfolding fgets
fgets_parts c input h =
    let together = line_bytes-append 999 (c ∷ input) in
    let (hl, hr) = HasNoZero-parts _ _ (subst HasNoZero (sym together) h) in
    (
      _,
      _,
      refl,
      together,
      hl,
      hr,
      omega (arith, length-line_bytes 999 (c ∷ input)),
      line_bytes_fewer 998 c input,
    )

fgets_end : fgets max_line [] ≡ none
unfolding fgets
fgets_end = refl

filter_lines_lem :
    (fuel : ℕ) (array input : List ℕ)
    → HasNoZero input
    → length input < fuel
    → filter_lines fuel array input ≡ without_vowels input
unfolding filter_lines
filter_lines_lem zero array input h enough = absurd (omega arith)
filter_lines_lem (suc fuel) array [] h enough = rw (filter_lines, fgets_end) refl
filter_lines_lem (suc fuel) array (c ∷ input) h enough =
    let (line, rest, e, together, hl, hr, short, fewer) = fgets_parts c input h in
    let cleaned = remove_vowels (filled line array) in
    rw (filter_lines, e)
      (ap (λ k. k ++ filter_lines fuel cleaned rest)
          (remove_vowels-without_vowels line (drop (suc (length line)) array) hl)
        ∙ ap (λ k. without_vowels line ++ k) (filter_lines_lem fuel cleaned rest hr (omega arith))
        ∙ sym (without_vowels-append line rest)
        ∙ ap without_vowels together)

-- A child that is started with one argument, whose file opens and whose input has no zero byte, leaves
-- in its file the input without its vowels, in order, however long the lines are.
pub child_main-without_vowels :
    (array input : List ℕ)
    → HasNoZero input
    → child_main 2 true array input ≡ finished (without_vowels input)
unfolding child_main
child_main-without_vowels array input h =
    ap finished (filter_lines_lem (suc (length input)) array input h (omega arith))

-- The bytes of all writes, in order.
abbrev pub all_bytes : List (Bool × List ℕ) → List ℕ
all_bytes [] = []
all_bytes ((b, bytes) ∷ lines) = bytes ++ all_bytes lines

-- Each write has some byte and fewer than the array holds.
abbrev pub AreShort : List (Bool × List ℕ) → Type 0
AreShort [] = Unit {0}
AreShort ((b, bytes) ∷ lines) = (length bytes < max_line) × AreShort lines

-- From an input with no zero byte the parent writes each byte once, in order, and no call of `write`
-- has more than 999 of them.
pub send_lines-all_bytes :
    (fuel : ℕ) (choose : ℕ → Bool) (k : ℕ) (array input : List ℕ)
    → HasNoZero input
    → length input < fuel
    → (all_bytes (send_lines fuel choose k array input) ≡ input)
      × AreShort (send_lines fuel choose k array input)
unfolding send_lines
send_lines-all_bytes zero choose k array input h enough = absurd (omega arith)
send_lines-all_bytes (suc fuel) choose k array [] h enough = rw (send_lines, fgets_end) (refl, tt)
send_lines-all_bytes (suc fuel) choose k array (c ∷ input) h enough =
    let (line, rest, e, together, hl, hr, short, fewer) = fgets_parts c input h in
    let (all, shorts) =
      send_lines-all_bytes fuel choose (k + 1) (filled line array) rest hr (omega arith) in
    let same = c_string-text line (drop (suc (length line)) array) hl in
    rw (send_lines, e, same, all) (together, (short, shorts))

-- A step for each write and each byte that is read.
abbrev pub work : List (Bool × List ℕ) → ℕ
work [] = 0
work ((b, bytes) ∷ lines) = suc (length bytes) + work lines

-- A step for each write and each byte is at most two for each byte of the input.
pub work-send_lines :
    (fuel : ℕ) (choose : ℕ → Bool) (k : ℕ) (array input : List ℕ)
    → HasNoZero input
    → length input < fuel
    → work (send_lines fuel choose k array input) ≤ 2 * length input
unfolding send_lines
work-send_lines zero choose k array input h enough = absurd (omega arith)
work-send_lines (suc fuel) choose k array [] h enough = rw (send_lines, fgets_end) (omega arith)
work-send_lines (suc fuel) choose k array (c ∷ input) h enough =
    let (line, rest, e, together, hl, hr, short, fewer) = fgets_parts c input h in
    let later = work-send_lines fuel choose (k + 1) (filled line array) rest hr (omega arith) in
    let same = c_string-text line (drop (suc (length line)) array) hl in
    rw (send_lines, e, same)
      (omega (arith, later, fewer, length-append line rest, ap (λ (l : List ℕ). length l) together))
