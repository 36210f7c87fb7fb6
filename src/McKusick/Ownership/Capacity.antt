-- ===== src/McKusick/Ownership/Capacity.antt =====
-- Blocks that have no byte in common do not have more bytes in total than the range that they lie in.
use mai_os_labs.Prelude.{
  ℕ, zero, suc, ◌+◌, ◌*◌, ◌≤◌, ◌≡◌, inl, inr, refl, ap, if◌then◌else◌, Bool, true, false, not, List,
  [], ◌∷◌, arith, length, leb, Bool-cases,
}
use mai_os_labs.McKusick.{page_size}
use mai_os_labs.McKusick.Ownership.{Allocation, Every}
use mai_os_labs.McKusick.Ownership.Regions.{IsDisjoint, AreDisjoint, IsInside}
use mai_os_labs.Usage.Accounts.{total_size}

-- The entries that a test accepts.
unfoldable chosen : (Allocation → Bool) → List Allocation → List Allocation
chosen t [] = []
chosen t (h ∷ l) = let rest = chosen t l in if t h then h ∷ rest else rest

module _ (t : Allocation → Bool) where
  kept : (h : Allocation) (l : List Allocation) → t h ≡ true → chosen t (h ∷ l) ≡ h ∷ chosen t l
  unfolding chosen
  kept h l y = rw y

  dropped : (h : Allocation) (l : List Allocation) → t h ≡ false → chosen t (h ∷ l) ≡ chosen t l
  unfolding chosen
  dropped h l n = rw n

  chosen-Every : (P : Allocation → Type 0) (l : List Allocation) → Every P l → Every P (chosen t l)
  unfolding chosen
  chosen-Every P [] e = tt
  chosen-Every P (h ∷ l) (p, e) = elim (Bool-cases (t h)) [
    | inl y ↦ rw (kept h l y) (p, chosen-Every P l e)
    | inr n ↦ rw (dropped h l n) (chosen-Every P l e)
  ]

  chosen-AreDisjoint : (l : List Allocation) → AreDisjoint l → AreDisjoint (chosen t l)
  unfolding chosen
  chosen-AreDisjoint [] d = tt
  chosen-AreDisjoint (h ∷ l) (p, d) = elim (Bool-cases (t h)) [
    | inl y ↦ rw (kept h l y) (chosen-Every (IsDisjoint h) l p, chosen-AreDisjoint l d)
    | inr n ↦ rw (dropped h l n) (chosen-AreDisjoint l d)
  ]

  length-chosen : (l : List Allocation) → length (chosen t l) ≤ length l
  unfolding chosen
  length-chosen [] = omega arith
  length-chosen (h ∷ l) = elim (Bool-cases (t h)) [
    | inl y ↦ rw (kept h l y) (omega (arith, length-chosen l))
    | inr n ↦ rw (dropped h l n) (omega (arith, length-chosen l))
  ]

  -- A test splits what holds of all entries.
  Every-chosen :
      (P Q : Allocation → Type 0) (l : List Allocation)
      → ((h : Allocation) → P h → t h ≡ true → Q h)
      → Every P l
      → Every Q (chosen t l)
  unfolding chosen
  Every-chosen P Q [] f e = tt
  Every-chosen P Q (h ∷ l) f (p, e) = elim (Bool-cases (t h)) [
    | inl y ↦ rw (kept h l y) (f h p y, Every-chosen P Q l f e)
    | inr n ↦ rw (dropped h l n) (Every-chosen P Q l f e)
  ]

total_size-chosen :
    (t : Allocation → Bool) (l : List Allocation)
    → total_size l ≡ total_size (chosen t l) + total_size (chosen (λ h. not (t h)) l)
unfolding chosen
total_size-chosen t [] = refl
total_size-chosen t (h ∷ l) = elim (Bool-cases (t h)) [
  | inl y ↦
      rw (kept t h l y, dropped (λ k. not (t k)) h l (ap not y))
        (omega (arith, total_size-chosen t l))
  | inr n ↦
      rw (dropped t h l n, kept (λ k. not (t k)) h l (ap not n))
        (omega (arith, total_size-chosen t l))
]

abbrev IsWithin : ℕ → ℕ → Allocation → Type 0
IsWithin lo hi h = (lo ≤ h.ptr) × (h.ptr + h.size ≤ hi)

both :
    (P Q : Allocation → Type 0) (l : List Allocation)
    → Every P l
    → Every Q l
    → Every (λ h. P h × Q h) l
both P Q [] p q = tt
both P Q (h ∷ l) (p, ps) (q, qs) = ((p, q), both P Q l ps qs)

packed :
    (fuel : ℕ) (lo hi : ℕ) (l : List Allocation)
    → length l ≤ fuel
    → lo ≤ hi
    → Every (IsWithin lo hi) l
    → AreDisjoint l
    → lo + total_size l ≤ hi
packed fuel lo hi [] few h i d = omega arith
packed zero lo hi (x ∷ l) few h i d = absurd (omega arith)
packed (suc fuel) lo hi (x ∷ l) few h ((low, high), i) (apart, d) =
    let t : Allocation → Bool = λ k. leb (k.ptr + k.size) x.ptr in
    let entries = both _ _ l i apart in
    let below : Every (IsWithin lo x.ptr) (chosen t l) =
      Every-chosen t _ _ l (λ k p y. (p.0.0, ground arith)) entries in
    let above : Every (IsWithin (x.ptr + x.size) hi) (chosen (λ k. not (t k)) l) =
      Every-chosen (λ k. not (t k)) _ _ l (λ k p n. (ground arith, p.0.1)) entries in
    let left =
      packed fuel lo x.ptr (chosen t l) (omega (arith, length-chosen t l)) low below
        (chosen-AreDisjoint t l d) in
    let right =
      packed fuel (x.ptr + x.size) hi (chosen (λ k. not (t k)) l)
        (omega (arith, length-chosen (λ k. not (t k)) l)) high above
        (chosen-AreDisjoint (λ k. not (t k)) l d) in
    omega (arith, left, right, total_size-chosen t l)

pub total_size-packed :
    (base n : ℕ) (l : List Allocation)
    → Every (IsInside base n) l
    → AreDisjoint l
    → total_size l ≤ n * page_size
total_size-packed base n l i d =
    omega (arith, packed (length l) base (base + n * page_size) l (omega arith) (omega arith) i d)
