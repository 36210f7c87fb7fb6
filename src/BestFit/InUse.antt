-- ===== src/BestFit/InUse.antt =====
-- The blocks in use of the allocator of Labs/CP/src/list_of_free_blocks.cpp as a list, and requests that
-- they hold.
use mathlib.Core.List.{Mem, not-mem-nil, mem-cons}
use mathlib.Core.Path.{ap₂}
use mathlib.Core.Logic.Or
use mathlib.Core.Logic.{∥∥₁_prop}
use mai_os_labs.Prelude.{
  ℕ, ◌+◌, ◌≤◌, ◌≡◌, ◌≢◌, inl, inr, refl, ap, ◌∙◌, true, false, List, [], ◌∷◌, ◌++◌, arith,
  Bool-cases, ℕ_discrete, ◌⊎◌,
}
use mai_os_labs.BestFit.{header_size}
use mai_os_labs.BestFit.Segments.{Block, end_of, total}
use mai_os_labs.BestFit.Blocks.{used, given, remainder, join, settle}
use mai_os_labs.Usage.{Allocation}
use mai_os_labs.Usage.Accounts.{total_size}

abbrev pub block_at : ℕ → ℕ → Allocation
block_at a n = record { ptr = a + header_size; size = n }

-- The pointers to the blocks in use, with the sizes of the blocks.
abbrev pub used_blocks : ℕ → List Block → List Allocation
used_blocks a [] = []
used_blocks a (b ∷ bs) = elim b.is_free [
  | true ↦ used_blocks (a + b.size) bs
  | false ↦ block_at a b.size ∷ used_blocks (a + b.size) bs
]

pub used_blocks-append :
    (a : ℕ) (xs ys : List Block)
    → used_blocks a (xs ++ ys) ≡ used_blocks a xs ++ used_blocks (end_of a xs) ys
used_blocks-append a [] ys = refl
used_blocks-append a (x ∷ xs) ys = elim (Bool-cases x.is_free) [
  | inl fr ↦ rw fr (used_blocks-append (a + x.size) xs ys)
  | inr us ↦ rw us (ap (◌∷◌ (block_at a x.size)) (used_blocks-append (a + x.size) xs ys))
]

used_blocks-join :
    (a : ℕ) (b : Block) (bs : List Block) → used_blocks a (join b bs) ≡ used_blocks a (b ∷ bs)
used_blocks-join a b [] = refl
used_blocks-join a b (c ∷ bs) = ground arith

pub used_blocks-settle : (a : ℕ) (bs : List Block) → used_blocks a (settle bs) ≡ used_blocks a bs
unfolding settle
used_blocks-settle a [] = refl
used_blocks-settle a (b ∷ bs) =
    used_blocks-join a b (settle bs) ∙ ground (arith, used_blocks-settle (a + b.size) bs)

used_blocks-remainder :
    (a wanted n : ℕ) (ys : List Block)
    → wanted ≤ n
    → used_blocks (a + given wanted n) (remainder wanted n ++ ys) ≡ used_blocks (a + n) ys
unfolding given remainder
used_blocks-remainder a wanted n ys fits = ground arith

pub total_size-used_blocks : (a : ℕ) (bs : List Block) → total_size (used_blocks a bs) ≤ total bs
total_size-used_blocks a [] = omega arith
total_size-used_blocks a (b ∷ bs) = elim (Bool-cases b.is_free) [
  | inl fr ↦ rw fr (omega (arith, total_size-used_blocks (a + b.size) bs))
  | inr us ↦ rw us (omega (arith, total_size-used_blocks (a + b.size) bs))
]

same_or_other : (x y : Allocation) → (x ≡ y) ⊎ (x ≢ y)
same_or_other x y = elim (ℕ_discrete x.ptr y.ptr) [
  | yes e ↦ elim (ℕ_discrete x.size y.size) [
    | yes f ↦ inl (ap₂ (λ p n. record { ptr = p; size = n }) e f)
    | no ne ↦ inr λ f. ne (ap (λ z. z.size) f)
  ]
  | no ne ↦ inr λ f. ne (ap (λ z. z.ptr) f)
]

-- The block in use that an entry names.
pub find_used :
    (a : ℕ) (x : Allocation) (bs : List Block)
    → Mem x (used_blocks a bs)
    → (xs : List Block) × (ys : List Block) × (bs ≡ xs ++ used x.size ∷ ys)
      × (x.ptr ≡ end_of a xs + header_size)
find_used a x [] m = absurd (not-mem-nil m)
find_used a x (b ∷ bs) m = elim (Bool-cases b.is_free) [
  | inl fr ↦
      let (xs, ys, e, at) = find_used (a + b.size) x bs (rw fr at m) in
      (b ∷ xs, ys, ap (◌∷◌ b) e, at)
  | inr us ↦ elim (same_or_other x (block_at a b.size)) [
    | inl here ↦ ([], bs, ground (arith, ap (λ y. y.size) here), ap (λ y. y.ptr) here)
    | inr further ↦
        let (xs, ys, e, at) =
          find_used (a + b.size) x bs
            (Or.elim ∥∥₁_prop (mem-cons.0 (rw us at m)) (λ here. absurd (further here)) (λ r. r)) in
        (b ∷ xs, ys, ap (◌∷◌ b) e, at)
  ]
]

pub used_blocks-given :
    (a : ℕ) (xs : List Block) (wanted n : ℕ) (ys : List Block)
    → wanted ≤ n
    → used_blocks a (xs ++ used (given wanted n) ∷ (remainder wanted n ++ ys))
      ≡ used_blocks a xs
        ++ block_at (end_of a xs) (given wanted n) ∷ used_blocks (end_of a xs + n) ys
used_blocks-given a xs wanted n ys fits =
    used_blocks-append a xs _
    ∙ ap (λ l. used_blocks a xs ++ block_at (end_of a xs) (given wanted n) ∷ l)
        (used_blocks-remainder (end_of a xs) wanted n ys fits)

pub given_large : (wanted n : ℕ) → wanted ≤ n → wanted ≤ given wanted n
unfolding given
given_large wanted n h = ground arith

-- Each request has the pointer of its block, which has room for it and a header.
abbrev pub Fits : List Allocation → List Allocation → Type 0
Fits [] [] = Unit {0}
Fits [] (t ∷ ts) = ⊥
Fits (h ∷ hs) [] = ⊥
Fits (h ∷ hs) (t ∷ ts) = (h.ptr ≡ t.ptr) × (h.size + header_size ≤ t.size) × Fits hs ts

pub total_size-Fits : (hs ts : List Allocation) → Fits hs ts → total_size hs ≤ total_size ts
total_size-Fits [] [] f = omega arith
total_size-Fits [] (t ∷ ts) f = absurd f
total_size-Fits (h ∷ hs) [] f = absurd f
total_size-Fits (h ∷ hs) (t ∷ ts) (e, low, f) = omega (arith, total_size-Fits hs ts f)
