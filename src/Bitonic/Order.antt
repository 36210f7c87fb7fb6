-- ===== src/Bitonic/Order.antt =====
-- The entries of the vector of Labs/Lab2/src/main.cpp, without their order.
use mathlib.Core.List.{Perm, perm_middle}
use mathlib.Core.List.Perm
use mai_os_labs.Prelude.{
  ℕ, zero, suc, ◌^◌, ◌≡◌, ◌∙◌, sym, List, [], ◌∷◌, ◌++◌, arith, length, take, drop,
  take-append-drop, length-append, inl, inr, Bool-cases, ◌==◌, ltb,
}
use mai_os_labs.Bitonic.{int_of}
use mai_os_labs.Bitonic.Network.{
  lower, upper, zip_with, merge_with, merge_net, sort_net, length-zip_with, length-take_half,
  length-drop_half, length-sort_net, pow_suc,
}

pair-perm : (dir x y : ℕ) → Perm (lower dir x y ∷ upper dir x y ∷ []) (x ∷ y ∷ [])
pair-perm dir x y = elim (Bool-cases (dir == int_of (ltb y x))) [
  | inl e ↦ rw e (Perm.swap x y [])
  | inr e ↦ rw e Perm.rfl
]

zip_with-perm :
    (dir : ℕ) (xs ys : List ℕ)
    → length xs ≡ length ys
    → Perm (zip_with (lower dir) xs ys ++ zip_with (upper dir) xs ys) (xs ++ ys)
zip_with-perm dir [] [] e = Perm.rfl
zip_with-perm dir [] (y ∷ ys) e = absurd (omega arith)
zip_with-perm dir (x ∷ xs) [] e = absurd (omega arith)
zip_with-perm dir (x ∷ xs) (y ∷ ys) e =
    let rest = zip_with-perm dir xs ys (omega arith) in
    let lo = zip_with (lower dir) xs ys in
    let hi = zip_with (upper dir) xs ys in
    let both = Perm.append (pair-perm dir x y) rest in
    Perm.trans (Perm.cons _ (perm_middle lo hi))
      (Perm.trans both (Perm.cons x (Perm.symm (perm_middle xs ys))))

merge_net-perm : (dir m : ℕ) (l : List ℕ) → length l ≡ 2 ^ m → Perm (merge_net dir m l) l
unfolding merge_with
merge_net-perm dir zero l e = Perm.rfl
merge_net-perm dir (suc m) l e =
    let nx = length-take_half m l e in
    let ny = length-drop_half m l e in
    Perm.trans
      (Perm.append (merge_net-perm dir m _ (length-zip_with (lower dir) (2 ^ m) _ _ nx ny))
        (merge_net-perm dir m _ (length-zip_with (upper dir) (2 ^ m) _ _ nx ny)))
      (rw take-append-drop at (zip_with-perm dir (take (2 ^ m) l) (drop (2 ^ m) l) (nx ∙ sym ny)))

pub sort_net-perm : (dir m : ℕ) (l : List ℕ) → length l ≡ 2 ^ m → Perm (sort_net dir m l) l
unfolding sort_net
sort_net-perm dir zero l e = Perm.rfl
sort_net-perm dir (suc m) l e =
    let nx = length-take_half m l e in
    let ny = length-drop_half m l e in
    Perm.trans
      (merge_net-perm dir (suc m) _ (
        omega (
          arith,
          pow_suc m,
          length-append (sort_net 1 m (take (2 ^ m) l)) (sort_net 0 m (drop (2 ^ m) l)),
          length-sort_net 1 m _ nx,
          length-sort_net 0 m _ ny,
        )))
      (rw take-append-drop at (
        Perm.append (sort_net-perm 1 m (take (2 ^ m) l) nx)
          (sort_net-perm 0 m (drop (2 ^ m) l) ny)))
