-- ===== src/Bitonic/ZeroOne.antt =====
-- The network of Labs/Lab2/src/main.cpp on lists of Booleans, where `&&` is the minimum and `||` the
-- maximum.
use mai_os_labs.Prelude.{
  ℕ, zero, suc, ◌+◌, ◌^◌, ◌≤◌, ◌≡◌, ◌≢◌, ◌⊎◌, inl, inr, refl, sym, subst, Bool, true, false, ◌&&◌,
  ◌||◌, List, [], ◌∷◌, ◌++◌, arith, length, take, drop, take-append-drop, append-nil, if◌then◌else◌,
  ◌==◌,
}
use mai_os_labs.Bitonic.Network.{
  zip_with, merge_with, length-zip_with, length-take_half, length-drop_half,
}

abbrev pub differ : Bool → Bool → ℕ
differ true true = 0
differ true false = 1
differ false true = 1
differ false false = 0

-- How often neighbours differ in `p ∷ l`.
abbrev pub changes : Bool → List Bool → ℕ
changes p [] = 0
changes p (x ∷ l) = differ p x + changes x l

abbrev pub final : Bool → List Bool → Bool
final p [] = p
final p (x ∷ l) = final x l

-- At most two changes: the list, closed to a ring, rises and falls once.
abbrev pub IsBitonic : List Bool → Type 0
IsBitonic [] = Unit {0}
IsBitonic (p ∷ l) = changes p l ≤ 2

-- `false` before `true`.
abbrev pub IsRising : List Bool → Type 0
IsRising [] = Unit {0}
IsRising (p ∷ l) = changes p l ≤ (if p then 0 else 1)

abbrev pub IsFalling : List Bool → Type 0
IsFalling [] = Unit {0}
IsFalling (p ∷ l) = changes p l ≤ (if p then 1 else 0)

abbrev pub AllAre : Bool → List Bool → Type 0
AllAre b [] = Unit {0}
AllAre b (x ∷ l) = (x ≡ b) × AllAre b l

changes-append :
    (p : Bool) (l : List Bool) (q : Bool) (r : List Bool)
    → changes p (l ++ q ∷ r) ≡ changes p l + differ (final p l) q + changes q r
changes-append p [] q r = omega arith
changes-append p (x ∷ l) q r = omega (arith, changes-append x l q r)

-- A list without a change ends as it begins, and one with a single change does not.
final_same : (p : Bool) (l : List Bool) → changes p l ≡ 0 → final p l ≡ p
final_same p [] e = refl
final_same p (x ∷ l) e = ground (arith, final_same x l)

final_other : (p : Bool) (l : List Bool) → changes p l ≡ 1 → final p l ≢ p
final_other p [] e = absurd (omega arith)
final_other p (x ∷ l) e = ground (arith, final_other x l, final_same x l)

-- Whether the pair `(b, b)` stands in two lists at one index.
both_are : Bool → Bool → Bool → List Bool → List Bool → Bool
both_are b p q [] ys = differ p b + differ q b == 0
both_are b p q (x ∷ xs) [] = differ p b + differ q b == 0
both_are b p q (x ∷ xs) (y ∷ ys) = differ p b + differ q b == 0 || both_are b x y xs ys

module _ (b : Bool) where
  -- To reach the pair from another value takes a change.
  reach_left :
      (p q : Bool) (xs ys : List Bool) → both_are b p q xs ys ≡ true → p ≢ b → 1 ≤ changes p xs
  unfolding both_are
  reach_left p q [] ys e ne = ground arith
  reach_left p q (x ∷ xs) [] e ne = ground arith
  reach_left p q (x ∷ xs) (y ∷ ys) e ne = ground (arith, reach_left x y xs ys)

  reach_right :
      (p q : Bool) (xs ys : List Bool) → both_are b p q xs ys ≡ true → q ≢ b → 1 ≤ changes q ys
  unfolding both_are
  reach_right p q [] ys e ne = ground arith
  reach_right p q (x ∷ xs) [] e ne = ground arith
  reach_right p q (x ∷ xs) (y ∷ ys) e ne = ground (arith, reach_right x y xs ys)

-- Where both pairs stand and neither list changes twice, the lists begin alike.
begin_alike :
    (p q : Bool) (xs ys : List Bool)
    → both_are true p q xs ys ≡ true
    → both_are false p q xs ys ≡ true
    → changes p xs ≤ 1
    → changes q ys ≤ 1
    → p ≡ q
unfolding both_are
begin_alike p q [] ys t f cx cy = ground arith
begin_alike p q (x ∷ xs) [] t f cx cy = ground arith
begin_alike p q (x ∷ xs) (y ∷ ys) t f cx cy = ground (
  arith,
  begin_alike x y xs ys,
  reach_left true x y xs ys,
  reach_right true x y xs ys,
  reach_left false x y xs ys,
  reach_right false x y xs ys,
)

-- Where both pairs stand, each list changes.
both_change :
    (p q : Bool) (xs ys : List Bool)
    → both_are true p q xs ys ≡ true
    → both_are false p q xs ys ≡ true
    → (1 ≤ changes p xs) × (1 ≤ changes q ys)
unfolding both_are
both_change p q [] ys t f = ground arith
both_change p q (x ∷ xs) [] t f = ground arith
both_change p q (x ∷ xs) (y ∷ ys) t f = ground (
  arith,
  both_change x y xs ys,
  reach_left true x y xs ys,
  reach_right true x y xs ys,
  reach_left false x y xs ys,
  reach_right false x y xs ys,
)

-- In the halves of a list with at most two changes one of the pairs is missing.
one_missing :
    (p q : Bool) (xs ys : List Bool)
    → changes p (xs ++ q ∷ ys) ≤ 2
    → (both_are true p q xs ys ≡ false) ⊎ (both_are false p q xs ys ≡ false)
one_missing p q xs ys h = ground (
  arith,
  changes-append p xs q ys,
  begin_alike p q xs ys,
  both_change p q xs ys,
  final_other p xs,
)

zip_and_false :
    (p q : Bool) (xs ys : List Bool)
    → both_are true p q xs ys ≡ false
    → AllAre false (zip_with ◌&&◌ (p ∷ xs) (q ∷ ys))
unfolding both_are
zip_and_false p q [] ys e = ground arith
zip_and_false p q (x ∷ xs) [] e = ground arith
zip_and_false p q (x ∷ xs) (y ∷ ys) e = ground (arith, zip_and_false x y xs ys)

zip_or_true :
    (p q : Bool) (xs ys : List Bool)
    → both_are false p q xs ys ≡ false
    → AllAre true (zip_with ◌||◌ (p ∷ xs) (q ∷ ys))
unfolding both_are
zip_or_true p q [] ys e = ground arith
zip_or_true p q (x ∷ xs) [] e = ground arith
zip_or_true p q (x ∷ xs) (y ∷ ys) e = ground (arith, zip_or_true x y xs ys)

-- The minimum and the maximum change no more than both lists together.
changes-and :
    (p q : Bool) (xs ys : List Bool)
    → changes (p && q) (zip_with ◌&&◌ xs ys) ≤ changes p xs + changes q ys
changes-and p q [] ys = omega arith
changes-and p q (x ∷ xs) [] = omega arith
changes-and p q (x ∷ xs) (y ∷ ys) = ground (arith, changes-and x y xs ys)

changes-or :
    (p q : Bool) (xs ys : List Bool)
    → changes (p || q) (zip_with ◌||◌ xs ys) ≤ changes p xs + changes q ys
changes-or p q [] ys = omega arith
changes-or p q (x ∷ xs) [] = omega arith
changes-or p q (x ∷ xs) (y ∷ ys) = ground (arith, changes-or x y xs ys)

-- Comparing the halves leaves two such lists, with nothing to sort in one of them.
pub compare-IsBitonic :
    (xs ys : List Bool)
    → IsBitonic (xs ++ ys)
    → IsBitonic (zip_with ◌&&◌ xs ys)
      × IsBitonic (zip_with ◌||◌ xs ys)
      × (AllAre false (zip_with ◌&&◌ xs ys) ⊎ AllAre true (zip_with ◌||◌ xs ys))
compare-IsBitonic [] ys h = (tt, tt, inl tt)
compare-IsBitonic (p ∷ xs) [] h = (tt, tt, inl tt)
compare-IsBitonic (p ∷ xs) (q ∷ ys) h =
    let sums = changes-append p xs q ys in
    (
      omega (arith, sums, changes-and p q xs ys),
      omega (arith, sums, changes-or p q xs ys),
      elim (one_missing p q xs ys h) [
        | inl e ↦ inl (zip_and_false p q xs ys e)
        | inr e ↦ inr (zip_or_true p q xs ys e)
      ],
    )

module _ (b : Bool) where
  AllAre-append : (xs ys : List Bool) → AllAre b xs → AllAre b ys → AllAre b (xs ++ ys)
  AllAre-append [] ys p q = q
  AllAre-append (x ∷ xs) ys p q = (p.0, AllAre-append xs ys p.1 q)

  AllAre-take : (n : ℕ) (l : List Bool) → AllAre b l → AllAre b (take n l)
  AllAre-take zero l p = tt
  AllAre-take (suc n) [] p = tt
  AllAre-take (suc n) (x ∷ l) p = (p.0, AllAre-take n l p.1)

  AllAre-drop : (n : ℕ) (l : List Bool) → AllAre b l → AllAre b (drop n l)
  AllAre-drop zero l p = p
  AllAre-drop (suc n) [] p = tt
  AllAre-drop (suc n) (x ∷ l) p = AllAre-drop n l p.1

  AllAre-zip_with :
      (f : Bool → Bool → Bool) (xs ys : List Bool)
      → f b b ≡ b
      → AllAre b xs
      → AllAre b ys
      → AllAre b (zip_with f xs ys)
  AllAre-zip_with f [] ys e p q = tt
  AllAre-zip_with f (x ∷ xs) [] e p q = tt
  AllAre-zip_with f (x ∷ xs) (y ∷ ys) e p q = (rw (p.0, q.0) e, AllAre-zip_with f xs ys e p.1 q.1)

  AllAre-merge :
      (m : ℕ) (l : List Bool)
      → (b && b) ≡ b
      → (b || b) ≡ b
      → AllAre b l
      → AllAre b (merge_with ◌&&◌ ◌||◌ m l)
  unfolding merge_with
  AllAre-merge zero l e e' p = p
  AllAre-merge (suc m) l e e' p =
      let l1 = AllAre-take (2 ^ m) l p in
      let l2 = AllAre-drop (2 ^ m) l p in
      AllAre-append _ _ (AllAre-merge m _ e e' (AllAre-zip_with ◌&&◌ _ _ e l1 l2))
        (AllAre-merge m _ e e' (AllAre-zip_with ◌||◌ _ _ e' l1 l2))

-- `false`s in front of a rising list, and `true`s behind it.
IsRising-below : (xs ys : List Bool) → AllAre false xs → IsRising ys → IsRising (xs ++ ys)
IsRising-below [] ys a r = r
IsRising-below (x ∷ []) [] a r = ground arith
IsRising-below (x ∷ []) (y ∷ ys) a r = ground arith
IsRising-below (x ∷ x' ∷ xs) ys a r = ground (arith, IsRising-below (x' ∷ xs) ys a.1 r)

changes-true : (l : List Bool) → AllAre true l → changes true l ≡ 0
changes-true [] a = refl
changes-true (x ∷ l) a = ground (arith, changes-true l a.1)

IsRising-above : (xs ys : List Bool) → IsRising xs → AllAre true ys → IsRising (xs ++ ys)
IsRising-above [] [] r a = tt
IsRising-above [] (y ∷ ys) r a = ground (arith, changes-true ys a.1)
IsRising-above (x ∷ []) [] r a = omega arith
IsRising-above (x ∷ []) (y ∷ ys) r a = ground (arith, changes-true ys a.1)
IsRising-above (x ∷ x' ∷ xs) ys r a = ground (arith, IsRising-above (x' ∷ xs) ys)

-- The merge network turns every list of `2 ^ m` entries with at most two changes into a rising
-- one.
pub merge-IsRising :
    (m : ℕ) (l : List Bool) → length l ≡ 2 ^ m → IsBitonic l → IsRising (merge_with ◌&&◌ ◌||◌ m l)
unfolding merge_with
merge-IsRising zero [] e h = tt
merge-IsRising zero (p ∷ []) e h = omega arith
merge-IsRising zero (p ∷ q ∷ l) e h = absurd (omega arith)
merge-IsRising (suc m) l e h =
    let nx = length-take_half m l e in
    let ny = length-drop_half m l e in
    let (lo, hi, sides) =
      compare-IsBitonic (take (2 ^ m) l) (drop (2 ^ m) l)
        (subst IsBitonic (sym (take-append-drop (2 ^ m) l)) h) in
    let low = merge-IsRising m _ (length-zip_with ◌&&◌ (2 ^ m) _ _ nx ny) lo in
    let high = merge-IsRising m _ (length-zip_with ◌||◌ (2 ^ m) _ _ nx ny) hi in
    elim sides [
      | inl a ↦ IsRising-below _ _ (AllAre-merge false m _ refl refl a) high
      | inr a ↦ IsRising-above _ _ low (AllAre-merge true m _ refl refl a)
    ]

-- A rising list and a falling one make a list with at most two changes.
pub rising-falling : (xs ys : List Bool) → IsRising xs → IsFalling ys → IsBitonic (xs ++ ys)
rising-falling [] [] r f = tt
rising-falling [] (q ∷ ys) r f = ground arith
rising-falling (p ∷ xs) [] r f = ground (arith, append-nil xs)
rising-falling (p ∷ xs) (q ∷ ys) r f =
    ground (arith, changes-append p xs q ys, final_same p xs, final_other p xs)
