-- ===== src/BestFit/Segments.antt =====
-- What the linked headers of Labs/CP/src/list_of_free_blocks.cpp stand for: the sizes and states of
-- the blocks, in address order.
use mai_os_labs.Prelude.{
  ℕ, ◌+◌, ◌%◌, ◌≤◌, ◌<◌, ◌≡◌, ◌≢◌, ◌⊎◌, inl, inr, refl, ap, List, [], ◌∷◌, ◌++◌, Bool, arith, ◌∙◌,
}
use mai_os_labs.BestFit.{BlockHeader, Memory, header_size}

pub record Block : Type 0 where
  pub size : ℕ
  pub is_free : Bool

abbrev pub total : List Block → ℕ
total [] = 0
total (b ∷ bs) = b.size + total bs

-- The address behind the blocks `bs`, which begin at `a`.
abbrev pub end_of : ℕ → List Block → ℕ
end_of a [] = a
end_of a (b ∷ bs) = end_of (a + b.size) bs

-- The address of the first block of `bs`, or `after` where there is none.
abbrev pub next_of : ℕ → List Block → ℕ → ℕ
next_of a [] after = after
next_of a (b ∷ bs) after = a

-- The address of the last block of `bs`, or `before` where there is none.
abbrev pub last_of : ℕ → ℕ → List Block → ℕ
last_of before a [] = before
last_of before a (b ∷ bs) = last_of a (a + b.size) bs

abbrev pub IsBlockSize : ℕ → Type 0
IsBlockSize n = (header_size ≤ n) × (n % 8 ≡ 0)

abbrev pub header : Block → ℕ → ℕ → BlockHeader
header b next prev = record { size = b.size; is_free = b.is_free; next = next; prev = prev }

-- From the address `a` on lie the blocks `bs`, back to back; `before` is the first one's `prev`,
-- and `after` the last one's `next`.
abbrev pub Seg : Memory → ℕ → ℕ → List Block → ℕ → Type 0
Seg m before a [] after = Unit {0}
Seg m before a (b ∷ bs) after =
    IsBlockSize b.size
    × (m a ≡ header b (next_of (a + b.size) bs after) before)
    × Seg m a (a + b.size) bs after

pub end_of-eq : (a : ℕ) (bs : List Block) → end_of a bs ≡ a + total bs
end_of-eq a [] = omega arith
end_of-eq a (b ∷ bs) = omega (arith, end_of-eq (a + b.size) bs)

pub next_of-append :
    (a : ℕ) (xs ys : List Block) (after : ℕ)
    → next_of a (xs ++ ys) after ≡ next_of a xs (next_of (end_of a xs) ys after)
next_of-append a [] ys after = refl
next_of-append a (x ∷ xs) ys after = refl

pub last_of-append :
    (before a : ℕ) (xs ys : List Block)
    → last_of before a (xs ++ ys) ≡ last_of (last_of before a xs) (end_of a xs) ys
last_of-append before a [] ys = refl
last_of-append before a (x ∷ xs) ys = last_of-append a (a + x.size) xs ys

pub end_of-append : (a : ℕ) (xs ys : List Block) → end_of a (xs ++ ys) ≡ end_of (end_of a xs) ys
end_of-append a [] ys = refl
end_of-append a (x ∷ xs) ys = end_of-append (a + x.size) xs ys

pub total-append : (xs ys : List Block) → total (xs ++ ys) ≡ total xs + total ys
total-append [] ys = omega arith
total-append (x ∷ xs) ys = omega (arith, total-append xs ys)

module _ (m : Memory) where
  pub Seg-split :
      (before a : ℕ) (xs ys : List Block) (after : ℕ)
      → Seg m before a (xs ++ ys) after
      → Seg m before a xs (next_of (end_of a xs) ys after)
        × Seg m (last_of before a xs) (end_of a xs) ys after
  Seg-split before a [] ys after s = (tt, s)
  Seg-split before a (x ∷ xs) ys after s =
      let (left, right) = Seg-split a (a + x.size) xs ys after s.2 in
      ((s.0, rw (next_of-append (a + x.size) xs ys after) at s.1, left), right)

  pub Seg-join :
      (before a : ℕ) (xs ys : List Block) (after : ℕ)
      → Seg m before a xs (next_of (end_of a xs) ys after)
      → Seg m (last_of before a xs) (end_of a xs) ys after
      → Seg m before a (xs ++ ys) after
  Seg-join before a [] ys after l r = r
  Seg-join before a (x ∷ xs) ys after l r = (
    l.0,
    rw (next_of-append (a + x.size) xs ys after) l.1,
    Seg-join a (a + x.size) xs ys after l.2 r,
  )

  -- Blocks take room.
  pub Seg-length :
      (before a : ℕ) (xs : List Block) (after : ℕ) → Seg m before a xs after → a ≤ end_of a xs
  Seg-length before a [] after s = omega arith
  Seg-length before a (x ∷ xs) after s = omega (arith, Seg-length a (a + x.size) xs after s.2)

-- A change of the memory outside the blocks leaves them.
pub Seg-frame :
    (m g : Memory) (before a : ℕ) (xs : List Block) (after : ℕ)
    → ((q : ℕ) → a ≤ q → q < end_of a xs → g q ≡ m q)
    → Seg m before a xs after
    → Seg g before a xs after
Seg-frame m g before a [] after same s = tt
Seg-frame m g before a (x ∷ xs) after same s = (
  s.0,
  same a (omega arith) (omega (arith, Seg-length m a (a + x.size) xs after s.2)) ∙ s.1,
  Seg-frame m g a (a + x.size) xs after (λ q lo hi. same q (omega arith) hi) s.2,
)

abbrev with_prev : ℕ → BlockHeader → BlockHeader
with_prev p h = record h { prev = p }

-- The first block gets another `prev`; what lies behind its header stays.
pub Seg-reprev :
    (m g : Memory) (before before' a : ℕ) (ys : List Block)
    → (next_of a ys 0 ≢ 0 → g (next_of a ys 0) ≡ record (m (next_of a ys 0)) { prev = before' })
    → ((q : ℕ) → a < q → g q ≡ m q)
    → 0 < a
    → Seg m before a ys 0
    → Seg g before' a ys 0
Seg-reprev m g before before' a [] first same pos s = tt
Seg-reprev m g before before' a (y ∷ ys) first same pos s =
    let e : g a ≡ record (m a) { prev = before' } = first (omega arith) in
    (
      s.0,
      e ∙ ap (with_prev before') s.1,
      Seg-frame m g a (a + y.size) ys 0 (λ q lo hi. same q (omega arith)) s.2,
    )

-- The successor of a block in front of `a` is `nullptr` or lies further up.
pub next_of-ahead :
    (c a : ℕ) (ys : List Block) → c < a → (next_of a ys 0 ≡ 0) ⊎ (c < next_of a ys 0)
next_of-ahead c a [] h = inl refl
next_of-ahead c a (y ∷ ys) h = inr h

pub next_of-apart :
    (q a : ℕ) (ys : List Block) → q ≢ a → (next_of a ys 0 ≡ 0) ⊎ (q ≢ next_of a ys 0)
next_of-apart q a [] h = inl refl
next_of-apart q a (y ∷ ys) h = inr h
