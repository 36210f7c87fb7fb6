-- ===== src/Bitonic/Sorted.antt =====
-- The order of the vector of Labs/Lab2/src/main.cpp, read through thresholds: every threshold gives
-- a list of Booleans.
use mai_os_labs.Prelude.{
  ℕ, zero, suc, ◌^◌, ◌≤◌, ◌≡◌, ◌∙◌, refl, ap, Bool, not, ◌&&◌, ◌||◌, List, [], ◌∷◌, ◌++◌, map,
  arith, length, length-map, length-append, take, drop, leb, ltb,
}
use mathlib.Core.List.{map-append}
use mai_os_labs.Bitonic.Network.{
  lower, upper, zip_with, merge_with, merge_net, sort_net, length-sort_net, length-take_half,
  length-drop_half, pow_suc,
}
use mai_os_labs.Bitonic.ZeroOne.{
  IsBitonic, IsRising, IsFalling, changes, merge-IsRising, rising-falling,
}

-- `dir` 1 asks for an ascending vector and `dir` 0 for a descending one.
pub data IsDir : ℕ → Type 0 where
  up : IsDir 1
  down : IsDir 0

abbrev pub InOrder : ℕ → ℕ → ℕ → Type 0
InOrder zero x y = y ≤ x
InOrder (suc dir) x y = x ≤ y

abbrev pub IsOrdered : ℕ → List ℕ → Type 0
IsOrdered dir [] = Unit {0}
IsOrdered dir (x ∷ []) = Unit {0}
IsOrdered dir (x ∷ y ∷ l) = InOrder dir x y × IsOrdered dir (y ∷ l)

-- Whether an entry stands behind the threshold `t`.
abbrev key : ℕ → ℕ → ℕ → Bool
key zero t x = ltb x t
key (suc dir) t x = leb t x

key-lower :
    {dir : ℕ} (t x y : ℕ) → IsDir dir → key dir t (lower dir x y) ≡ (key dir t x && key dir t y)
key-lower t x y up = ground arith
key-lower t x y down = ground arith

key-upper :
    {dir : ℕ} (t x y : ℕ) → IsDir dir → key dir t (upper dir x y) ≡ (key dir t x || key dir t y)
key-upper t x y up = ground arith
key-upper t x y down = ground arith

map-take {ℓ κ} :
    {A : Type ℓ} {B : Type κ} (f : A → B) (n : ℕ) (l : List A) → map f (take n l) ≡ take n (map f l)
map-take f zero l = refl
map-take f (suc n) [] = refl
map-take f (suc n) (x ∷ l) = ap (◌∷◌ (f x)) (map-take f n l)

map-drop {ℓ κ} :
    {A : Type ℓ} {B : Type κ} (f : A → B) (n : ℕ) (l : List A) → map f (drop n l) ≡ drop n (map f l)
map-drop f zero l = refl
map-drop f (suc n) [] = refl
map-drop f (suc n) (x ∷ l) = map-drop f n l

map-zip_with :
    (f : ℕ → Bool) (g : ℕ → ℕ → ℕ) (h : Bool → Bool → Bool) (xs ys : List ℕ)
    → ((x y : ℕ) → f (g x y) ≡ h (f x) (f y))
    → map f (zip_with g xs ys) ≡ zip_with h (map f xs) (map f ys)
map-zip_with f g h [] ys e = refl
map-zip_with f g h (x ∷ xs) [] e = refl
map-zip_with f g h (x ∷ xs) (y ∷ ys) e = rw (e x y, map-zip_with f g h xs ys e)

-- A threshold turns the network on numbers into the one on Booleans.
map-merge_net :
    {dir : ℕ} (t m : ℕ) (l : List ℕ)
    → IsDir dir
    → map (key dir t) (merge_net dir m l) ≡ merge_with ◌&&◌ ◌||◌ m (map (key dir t) l)
unfolding merge_with
map-merge_net t zero l d = refl
map-merge_net {dir} t (suc m) l d = rw (
  map-append,
  map-merge_net t m (zip_with (lower dir) (take (2 ^ m) l) (drop (2 ^ m) l)) d,
  map-merge_net t m (zip_with (upper dir) (take (2 ^ m) l) (drop (2 ^ m) l)) d,
  map-zip_with (key dir t) (lower dir) ◌&&◌ (take (2 ^ m) l) (drop (2 ^ m) l)
      (λ x y. key-lower t x y d),
  map-zip_with (key dir t) (upper dir) ◌||◌ (take (2 ^ m) l) (drop (2 ^ m) l)
      (λ x y. key-upper t x y d),
  map-take (key dir t) (2 ^ m) l,
  map-drop (key dir t) (2 ^ m) l,
)

-- A list is in order if all its images are rising.
IsOrdered-of_rising :
    {dir : ℕ} (l : List ℕ) → IsDir dir → ((t : ℕ) → IsRising (map (key dir t) l)) → IsOrdered dir l
IsOrdered-of_rising [] d h = tt
IsOrdered-of_rising (x ∷ []) d h = tt
IsOrdered-of_rising (x ∷ y ∷ l) up h =
    (ground (arith, h x), IsOrdered-of_rising (y ∷ l) up (λ t. ground (arith, h t)))
IsOrdered-of_rising (x ∷ y ∷ l) down h =
    (ground (arith, h (suc x)), IsOrdered-of_rising (y ∷ l) down (λ t. ground (arith, h t)))

changes-not : (p : Bool) (l : List Bool) → changes (not p) (map not l) ≡ changes p l
changes-not p [] = refl
changes-not p (x ∷ l) = ground (arith, changes-not x l)

IsBitonic-not : (l : List Bool) → IsBitonic l → IsBitonic (map not l)
IsBitonic-not [] h = tt
IsBitonic-not (p ∷ l) h = omega (arith, changes-not p l)

IsFalling-not : (l : List Bool) → IsRising l → IsFalling (map not l)
IsFalling-not [] h = tt
IsFalling-not (p ∷ l) h = ground (arith, changes-not p l)

map-key_down : (t : ℕ) (l : List ℕ) → map (key 0 t) l ≡ map not (map (key 1 t) l)
map-key_down t [] = refl
map-key_down t (x ∷ l) = ground (arith, map-key_down t l)

map-key_up : (t : ℕ) (l : List ℕ) → map (key 1 t) l ≡ map not (map (key 0 t) l)
map-key_up t [] = refl
map-key_up t (x ∷ l) = ground (arith, map-key_up t l)

-- An ascending list and a descending one make a bitonic one, whichever way it is looked at.
halves_up :
    (t : ℕ) (xs ys : List ℕ)
    → IsRising (map (key 1 t) xs)
    → IsRising (map (key 0 t) ys)
    → IsBitonic (map (key 1 t) (xs ++ ys))
halves_up t xs ys r f =
    rw (map-append, map-key_up t ys)
      (rising-falling (map (key 1 t) xs) _ r (IsFalling-not (map (key 0 t) ys) f))

halves-IsBitonic :
    {dir : ℕ} (t : ℕ) (xs ys : List ℕ)
    → IsDir dir
    → IsRising (map (key 1 t) xs)
    → IsRising (map (key 0 t) ys)
    → IsBitonic (map (key dir t) (xs ++ ys))
halves-IsBitonic t xs ys up r f = halves_up t xs ys r f
halves-IsBitonic t xs ys down r f =
    rw (map-key_down t (xs ++ ys)) (IsBitonic-not _ (halves_up t xs ys r f))

sort_net-IsRising :
    (m : ℕ) {dir : ℕ} (t : ℕ) (l : List ℕ)
    → IsDir dir
    → length l ≡ 2 ^ m
    → IsRising (map (key dir t) (sort_net dir m l))
unfolding sort_net
sort_net-IsRising zero t [] d e = tt
sort_net-IsRising zero t (x ∷ []) d e = omega arith
sort_net-IsRising zero t (x ∷ y ∷ l) d e = absurd (omega arith)
sort_net-IsRising (suc m) {dir} t l d e =
    let nx = length-take_half m l e in
    let ny = length-drop_half m l e in
    let left = sort_net 1 m (take (2 ^ m) l) in
    let right = sort_net 0 m (drop (2 ^ m) l) in
    rw (map-merge_net t (suc m) (left ++ right) d) (
      merge-IsRising (suc m) _
        (length-map (left ++ right) (key dir t)
          ∙ omega (
            arith,
            length-append left right,
            length-sort_net 1 m _ nx,
            length-sort_net 0 m _ ny,
            pow_suc m,
          ))
        (halves-IsBitonic t left right d (sort_net-IsRising m t _ up nx)
          (sort_net-IsRising m t _ down ny)))

-- The network puts every list of `2 ^ m` numbers in order.
pub sort_net-IsOrdered :
    {dir : ℕ} (m : ℕ) (l : List ℕ) → IsDir dir → length l ≡ 2 ^ m → IsOrdered dir (sort_net dir m l)
sort_net-IsOrdered m l d e = IsOrdered-of_rising _ d (λ t. sort_net-IsRising m t l d e)
