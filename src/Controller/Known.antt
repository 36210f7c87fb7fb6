-- ===== src/Controller/Known.antt =====
-- The nodes that the controller of Labs/Lab5/src/control.cpp knows, sends to and waits for.
use mai_os_labs.Prelude.{
  ℕ, ◌≡◌, refl, true, false, ◌||◌, List, [], ◌∷◌, ◌++◌, map, arith, Bool-cases, inl, inr,
}
use mai_os_labs.Prelude.Int.{ℤ, pos, negsuc}
use mai_os_labs.Nodes.{CommandType, same_int, Child}
use mai_os_labs.Nodes.Answers.{same_int_refl, same_int_sound}
use mai_os_labs.Controller.{
  PendingMessage, has_id, insert_id, answers, erase_answered, check_entries, is_overdue, Line,
}

-- Every id of the list is one of `ids`.
abbrev pub AllIn : List ℤ → List ℤ → Type 0
AllIn ids [] = Unit {0}
AllIn ids (x ∷ xs) = (has_id x ids ≡ true) × AllIn ids xs

abbrev pub NoRepeat : List ℤ → Type 0
NoRepeat [] = Unit {0}
NoRepeat (x ∷ xs) = (has_id x xs ≡ false) × NoRepeat xs

abbrev pub ids_of : List Child → List ℤ
ids_of = map λ k. k.id

abbrev pub targets : List PendingMessage → List ℤ
targets = map λ p. p.body.id

pub same_int_comm : (a b : ℤ) → same_int a b ≡ same_int b a
same_int_comm (pos a) (pos b) = ground arith
same_int_comm (negsuc a) (negsuc b) = ground arith
same_int_comm (pos a) (negsuc b) = refl
same_int_comm (negsuc a) (pos b) = refl

pub has_id-append : (x : ℤ) (xs ys : List ℤ) → has_id x (xs ++ ys) ≡ (has_id x xs || has_id x ys)
unfolding has_id
has_id-append x [] ys = refl
has_id-append x (y ∷ xs) ys = ground (arith, has_id-append x xs ys)

pub has_id-insert_id :
    (x y : ℤ) (ids : List ℤ) → has_id x ids ≡ true → has_id x (insert_id y ids) ≡ true
unfolding insert_id
has_id-insert_id x y ids h = ground (arith, has_id-append x ids (y ∷ []))

pub insert_id_self : (y : ℤ) (ids : List ℤ) → has_id y (insert_id y ids) ≡ true
unfolding insert_id has_id
insert_id_self y ids = ground (arith, has_id-append y ids (y ∷ []), same_int_refl y)

pub AllIn-insert_id : (y : ℤ) (ids xs : List ℤ) → AllIn ids xs → AllIn (insert_id y ids) xs
AllIn-insert_id y ids [] a = tt
AllIn-insert_id y ids (x ∷ xs) (h, a) = (has_id-insert_id x y ids h, AllIn-insert_id y ids xs a)

pub AllIn-append :
    (ids xs : List ℤ) (y : ℤ) → AllIn ids xs → has_id y ids ≡ true → AllIn ids (xs ++ y ∷ [])
AllIn-append ids [] y a h = (h, tt)
AllIn-append ids (x ∷ xs) y (k, a) h = (k, AllIn-append ids xs y a h)

pub not_in_part :
    (y : ℤ) (ids xs : List ℤ) → AllIn ids xs → has_id y ids ≡ false → has_id y xs ≡ false
unfolding has_id
not_in_part y ids [] a h = refl
not_in_part y ids (x ∷ xs) (k, a) h = elim (Bool-cases (same_int y x)) [
  | inl same ↦ absurd (ground (arith, rw (same_int_sound y x same) at h))
  | inr other ↦ rw (other, not_in_part y ids xs a h)
]

pub NoRepeat-append :
    (xs : List ℤ) (y : ℤ) → NoRepeat xs → has_id y xs ≡ false → NoRepeat (xs ++ y ∷ [])
unfolding has_id
NoRepeat-append [] y n h = (refl, tt)
NoRepeat-append (x ∷ xs) y (k, n) h = (
  ground (arith, has_id-append x xs (y ∷ []), same_int_comm x y),
  NoRepeat-append xs y n (ground arith),
)

pub NoRepeat-insert_id : (y : ℤ) (ids : List ℤ) → NoRepeat ids → NoRepeat (insert_id y ids)
unfolding insert_id
NoRepeat-insert_id y ids n = elim (Bool-cases (has_id y ids)) [
  | inl old ↦ rw old n
  | inr new ↦ rw new (NoRepeat-append ids y n new)
]

pub AllIn-erase_answered :
    (ids : List ℤ) (cmd : CommandType) (id : ℤ) (ps : List PendingMessage)
    → AllIn ids (targets ps)
    → AllIn ids (targets (erase_answered cmd id ps))
unfolding erase_answered
AllIn-erase_answered ids cmd id [] a = tt
AllIn-erase_answered ids cmd id (p ∷ ps) (h, a) = elim (Bool-cases (answers cmd id p.body)) [
  | inl hit ↦ rw hit a
  | inr miss ↦ rw miss (h, AllIn-erase_answered ids cmd id ps a)
]

pub AllIn-check_entries :
    (ids : List ℤ) (now : ℕ) (ps : List PendingMessage) (lines : List Line)
    → AllIn ids (targets ps)
    → AllIn ids (targets (check_entries now ps lines).0)
unfolding check_entries
AllIn-check_entries ids now [] lines a = tt
AllIn-check_entries ids now (p ∷ ps) lines (h, a) = elim (Bool-cases (is_overdue now p)) [
  | inl late ↦ rw late (AllIn-check_entries ids now ps _ a)
  | inr early ↦ rw early (h, AllIn-check_entries ids now ps _ a)
]
