-- ===== src/Bitonic/Network.antt =====
-- The sorting network of Labs/Lab2/src/main.cpp, on lists, two halves at a time.
use native.Mathlib.Nat.{pow-suc}
use mai_os_labs.Prelude.{
  ℕ, zero, suc, ◌+◌, ◌^◌, ◌≡◌, ap, List, [], ◌∷◌, ◌++◌, arith, ltb, ◌==◌, if◌then◌else◌, length,
  take, drop, length-take, length-drop, length-append,
}
use mai_os_labs.Bitonic.{int_of}

-- What stands at the lower and at the higher index after a comparison.
abbrev pub lower : ℕ → ℕ → ℕ → ℕ
lower dir x y = if dir == int_of (ltb y x) then y else x

abbrev pub upper : ℕ → ℕ → ℕ → ℕ
upper dir x y = if dir == int_of (ltb y x) then x else y

abbrev pub zip_with {ℓ} : {A B : Type ℓ} → (A → A → B) → List A → List A → List B
zip_with f [] ys = []
zip_with f (x ∷ xs) [] = []
zip_with f (x ∷ xs) (y ∷ ys) = f x y ∷ zip_with f xs ys

module _ {ℓ} {A : Type ℓ} where
  -- Compare the halves of `2 ^ suc m` entries, then merge each.
  unfoldable pub merge_with : (low high : A → A → A) → ℕ → List A → List A
  merge_with low high zero l = l
  merge_with low high (suc m) l =
      merge_with low high m (zip_with low (take (2 ^ m) l) (drop (2 ^ m) l))
      ++ merge_with low high m (zip_with high (take (2 ^ m) l) (drop (2 ^ m) l))

-- `bitonicMerge` and `bitonicSort` on `2 ^ m` entries.
abbrev pub merge_net : ℕ → ℕ → List ℕ → List ℕ
merge_net dir = merge_with (lower dir) (upper dir)

unfoldable pub sort_net : ℕ → ℕ → List ℕ → List ℕ
sort_net dir zero l = l
sort_net dir (suc m) l =
    merge_net dir (suc m) (sort_net 1 m (take (2 ^ m) l) ++ sort_net 0 m (drop (2 ^ m) l))

pub length-zip_with {ℓ} :
    {A B : Type ℓ} (f : A → A → B) (n : ℕ) (xs ys : List A)
    → length xs ≡ n
    → length ys ≡ n
    → length (zip_with f xs ys) ≡ n
length-zip_with f n [] ys p q = p
length-zip_with f n (x ∷ xs) [] p q = absurd (omega arith)
length-zip_with f zero (x ∷ xs) (y ∷ ys) p q = absurd (omega arith)
length-zip_with f (suc n) (x ∷ xs) (y ∷ ys) p q =
    ap suc (length-zip_with f n xs ys (omega arith) (omega arith))

pub pow_suc : (m : ℕ) → 2 ^ suc m ≡ 2 ^ m + 2 ^ m
pow_suc m = omega (arith, pow-suc 2 m)

pub length-take_half {ℓ} :
    {A : Type ℓ} (m : ℕ) (l : List A) → length l ≡ 2 ^ suc m → length (take (2 ^ m) l) ≡ 2 ^ m
length-take_half m l e = omega (arith, length-take (2 ^ m) l, pow_suc m)

pub length-drop_half {ℓ} :
    {A : Type ℓ} (m : ℕ) (l : List A) → length l ≡ 2 ^ suc m → length (drop (2 ^ m) l) ≡ 2 ^ m
length-drop_half m l e = omega (arith, length-drop (2 ^ m) l, pow_suc m)

module _ {ℓ} {A : Type ℓ} (low high : A → A → A) where
  pub length-merge_with :
      (m : ℕ) (l : List A) → length l ≡ 2 ^ m → length (merge_with low high m l) ≡ 2 ^ m
  unfolding merge_with
  length-merge_with zero l e = e
  length-merge_with (suc m) l e =
      let p = length-take_half m l e in
      let q = length-drop_half m l e in
      omega (
        arith,
        pow_suc m,
        length-append (merge_with low high m (zip_with low (take (2 ^ m) l) (drop (2 ^ m) l)))
            (merge_with low high m (zip_with high (take (2 ^ m) l) (drop (2 ^ m) l))),
        length-merge_with m _ (length-zip_with low (2 ^ m) _ _ p q),
        length-merge_with m _ (length-zip_with high (2 ^ m) _ _ p q),
      )

pub length-sort_net :
    (dir m : ℕ) (l : List ℕ) → length l ≡ 2 ^ m → length (sort_net dir m l) ≡ 2 ^ m
unfolding sort_net
length-sort_net dir zero l e = e
length-sort_net dir (suc m) l e = length-merge_with (lower dir) (upper dir) (suc m) _ (
    omega (
      arith,
      pow_suc m,
      length-append (sort_net 1 m (take (2 ^ m) l)) (sort_net 0 m (drop (2 ^ m) l)),
      length-sort_net 1 m _ (length-take_half m l e),
      length-sort_net 0 m _ (length-drop_half m l e),
    ))
