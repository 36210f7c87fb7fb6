-- ===== src/Channel/Vowels.antt =====
-- `removeVowels` of Labs/Lab3/src/child1.cpp against the text without its vowels.
use mai_os_labs.Prelude.{
  ℕ, zero, suc, ◌+◌, ◌<◌, ◌≡◌, ◌≢◌, ◌∙◌, refl, sym, ap, false, List, [], ◌∷◌, ◌++◌, arith, length,
  get_or, set, length-append, length-set, append_assoc, append-nil, Bool-cases, inl, inr, ◌==◌,
  if◌then◌else◌,
}
use mai_os_labs.Channel.{is_vowel, remove_loop, remove_vowels, c_string, HasNoZero}

abbrev pub without_vowels : List ℕ → List ℕ
without_vowels [] = []
without_vowels (c ∷ l) = if is_vowel c then without_vowels l else c ∷ without_vowels l

get_or-append : (ps : List ℕ) (x : ℕ) (rest : List ℕ) → get_or (ps ++ x ∷ rest) (length ps) 0 ≡ x
get_or-append [] x rest = refl
get_or-append (p ∷ ps) x rest = get_or-append ps x rest

pub set-append :
    (ps : List ℕ) (x v : ℕ) (rest : List ℕ) → set (ps ++ x ∷ rest) (length ps) v ≡ ps ++ v ∷ rest
set-append [] x v rest = refl
set-append (p ∷ ps) x v rest = ap (◌∷◌ p) (set-append ps x v rest)

pub c_string-text : (text rest : List ℕ) → HasNoZero text → c_string (text ++ 0 ∷ rest) ≡ text
unfolding c_string
c_string-text [] rest h = refl
c_string-text (c ∷ text) rest (ne, h) = ground (arith, c_string-text text rest h)

HasNoZero-append : (l : List ℕ) (c : ℕ) → HasNoZero l → c ≢ 0 → HasNoZero (l ++ c ∷ [])
HasNoZero-append [] c h n = (n, tt)
HasNoZero-append (d ∷ l) c (m, h) n = (m, HasNoZero-append l c h n)

-- The bytes that were copied, those that were passed over, and what is left of the text.
abbrev layout : List ℕ → List ℕ → List ℕ → List ℕ → List ℕ
layout out gap text rest = out ++ (gap ++ (text ++ 0 ∷ rest))

at_text :
    (out gap : List ℕ) (c : ℕ) (l : List ℕ)
    → get_or (out ++ (gap ++ c ∷ l)) (length out + length gap) 0 ≡ c
at_text out gap c l =
    ap (λ k. get_or k (length out + length gap) 0) (sym (append_assoc out gap (c ∷ l)))
    ∙ ap (λ k. get_or (out ++ gap ++ c ∷ l) k 0) (sym (length-append out gap))
    ∙ get_or-append (out ++ gap) c l

-- The byte behind what was copied is overwritten by the next byte of the text.
copy_byte :
    (out gap : List ℕ) (c : ℕ) (l : List ℕ)
    → (gap' : List ℕ) × (length gap' ≡ length gap)
      × (set (out ++ (gap ++ c ∷ l)) (length out) c ≡ (out ++ c ∷ []) ++ (gap' ++ l))
copy_byte out [] c l = ([], refl, set-append out c c l ∙ sym (append_assoc out (c ∷ []) l))
copy_byte out (g ∷ gap) c l = (
  gap ++ c ∷ [],
  omega (arith, length-append gap (c ∷ [])),
  set-append out g c (gap ++ c ∷ l)
      ∙ ap (λ k. out ++ c ∷ k) (sym (append_assoc gap (c ∷ []) l))
      ∙ sym (append_assoc out (c ∷ []) (gap ++ c ∷ [] ++ l)),
)

end_byte :
    (out gap rest : List ℕ)
    → (rest' : List ℕ) × (set (out ++ (gap ++ 0 ∷ rest)) (length out) 0 ≡ out ++ 0 ∷ rest')
end_byte out [] rest = (rest, set-append out 0 0 rest)
end_byte out (g ∷ gap) rest = (gap ++ 0 ∷ rest, set-append out g 0 (gap ++ 0 ∷ rest))

remove_loop_lem :
    (fuel : ℕ) (out gap text rest : List ℕ)
    → HasNoZero out
    → HasNoZero text
    → length text < fuel
    → c_string (remove_loop fuel (length out + length gap) (length out) (layout out gap text rest))
      ≡ out ++ without_vowels text
unfolding remove_loop c_string
remove_loop_lem zero out gap text rest ho ht h = absurd (omega arith)
remove_loop_lem (suc fuel) out gap [] rest ho ht h =
    let (rest', e) = end_byte out gap rest in
    rw (remove_loop, at_text out gap 0 rest, e) (c_string-text out rest' ho ∙ sym (append-nil out))
remove_loop_lem (suc fuel) out gap (c ∷ text) rest ho (ne, ht) h =
    let at = at_text out gap c (text ++ 0 ∷ rest) in
    let not_end : (c == 0) ≡ false = ground arith in
    elim (Bool-cases (is_vowel c)) [
      | inl vowel ↦
          let next = remove_loop_lem fuel out (gap ++ c ∷ []) text rest ho ht (omega arith) in
          let len : length out + length (gap ++ c ∷ []) ≡ length out + length gap + 1 =
            omega (arith, length-append gap (c ∷ [])) in
          rw (remove_loop, at, not_end, vowel)
            (rw (len, append_assoc gap (c ∷ []) (text ++ 0 ∷ rest)) at next)
      | inr kept ↦
          let (gap', same, e) = copy_byte out gap c (text ++ 0 ∷ rest) in
          let next =
            remove_loop_lem fuel (out ++ c ∷ []) gap' text rest (HasNoZero-append out c ho ne) ht
              (omega arith) in
          let len : length (out ++ c ∷ []) ≡ length out + 1 =
            omega (arith, length-append out (c ∷ [])) in
          let len' : length out + 1 + length gap' ≡ length out + length gap + 1 =
            omega (arith, same) in
          rw (remove_loop, at, not_end, kept, e)
            (rw (len, len') at next ∙ append_assoc out (c ∷ []) (without_vowels text))
    ]

-- On an array that holds a text without a zero byte, and a zero byte behind it, `removeVowels`
-- leaves the text without its vowels, in order, whatever lies behind.
pub remove_vowels-without_vowels :
    (text rest : List ℕ)
    → HasNoZero text
    → c_string (remove_vowels (text ++ 0 ∷ rest)) ≡ without_vowels text
unfolding remove_vowels
remove_vowels-without_vowels text rest h =
    remove_loop_lem (length (text ++ 0 ∷ rest)) [] [] text rest tt h
      (omega (arith, length-append text (0 ∷ rest)))

length-remove_loop : (fuel i j : ℕ) (str : List ℕ) → length (remove_loop fuel i j str) ≡ length str
unfolding remove_loop
length-remove_loop zero i j str = refl
length-remove_loop (suc fuel) i j str =
    let c = get_or str i 0 in
    ground (
      arith,
      length-set str j 0,
      length-set str j c,
      length-remove_loop fuel (i + 1) j str,
      length-remove_loop fuel (i + 1) (j + 1) (set str j c),
    )

pub length-remove_vowels : (str : List ℕ) → length (remove_vowels str) ≡ length str
unfolding remove_vowels
length-remove_vowels str = length-remove_loop (length str) 0 0 str
