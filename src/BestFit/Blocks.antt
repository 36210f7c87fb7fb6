-- ===== src/BestFit/Blocks.antt =====
-- The allocator of Labs/CP/src/list_of_free_blocks.cpp seen as a list of blocks: what its operations
-- do to the list, and when it has no two free neighbours.
use mai_os_labs.Prelude.{
  ℕ, ◌+◌, ◌-◌, ◌≤◌, ◌≡◌, refl, ap, ◌∙◌, sym, true, false, Bool, List, [], ◌∷◌, ◌++◌, arith, leb,
  ◌&&◌, if◌then◌else◌, inl, inr, ◌⊎◌, Bool-cases,
}
use mai_os_labs.BestFit.{minimum_block_size}
use mai_os_labs.BestFit.Segments.{Block, total}

abbrev pub used : ℕ → Block
used n = record { size = n; is_free = false }

abbrev pub unused : ℕ → Block
unused n = record { size = n; is_free = true }

-- What a free block of `n` bytes gives to a request of `wanted` bytes: all of it, unless enough
-- for another block would be left.
unfoldable pub given : ℕ → ℕ → ℕ
given wanted n = if leb (wanted + minimum_block_size) n then wanted else n

-- The free block that is left of it, if any.
unfoldable pub remainder : ℕ → ℕ → List Block
remainder wanted n = if leb (wanted + minimum_block_size) n then unused (n - wanted) ∷ [] else []

-- A block in front of the blocks `bs`, joined with the first of them if both are free.
abbrev pub join : Block → List Block → List Block
join b [] = b ∷ []
join b (c ∷ bs) = if b.is_free && c.is_free then unused (b.size + c.size) ∷ bs else b ∷ c ∷ bs

-- All free neighbours joined.
unfoldable pub settle : List Block → List Block
settle [] = []
settle (b ∷ bs) = join b (settle bs)

-- No two neighbours are free; `f` tells whether the block in front is.
abbrev pub Settled : Bool → List Block → Type 0
Settled f [] = Unit {0}
Settled f (b ∷ bs) = ((f && b.is_free) ≡ false) × Settled b.is_free bs

-- Whether the last block of `bs` is free, `f` for none.
abbrev pub last_free : Bool → List Block → Bool
last_free f [] = f
last_free f (b ∷ bs) = last_free b.is_free bs

pub Settled-split :
    (f : Bool) (xs ys : List Block)
    → Settled f (xs ++ ys)
    → Settled f xs × Settled (last_free f xs) ys
Settled-split f [] ys s = (tt, s)
Settled-split f (x ∷ xs) ys s = let (l, r) = Settled-split x.is_free xs ys s.1 in ((s.0, l), r)

pub Settled-join :
    (f : Bool) (xs ys : List Block)
    → Settled f xs
    → Settled (last_free f xs) ys
    → Settled f (xs ++ ys)
Settled-join f [] ys l r = r
Settled-join f (x ∷ xs) ys l r = (l.0, Settled-join x.is_free xs ys l.1 r)

Settled-weaken : (f : Bool) (bs : List Block) → Settled f bs → Settled false bs
Settled-weaken f [] s = tt
Settled-weaken f (b ∷ bs) s = (refl, s.1)

-- Taking a block keeps the neighbours of free blocks in use.
pub given-Settled :
    (f : Bool) (xs ys : List Block) (wanted n : ℕ)
    → Settled f (xs ++ unused n ∷ ys)
    → Settled f (xs ++ used (given wanted n) ∷ (remainder wanted n ++ ys))
unfolding remainder
given-Settled f xs ys wanted n s =
    let (l, r) = Settled-split f xs (unused n ∷ ys) s in
    Settled-join f xs (used (given wanted n) ∷ (remainder wanted n ++ ys)) l
      (elim (Bool-cases (leb (wanted + minimum_block_size) n)) [
        | inl split ↦ rw split (ground arith, (refl, r.1))
        | inr whole ↦ rw whole (ground arith, Settled-weaken true ys r.1)
      ])

-- A list with no two free neighbours is left alone.
pub settle-Settled_eq : (f : Bool) (bs : List Block) → Settled f bs → settle bs ≡ bs
unfolding settle
settle-Settled_eq f [] s = refl
settle-Settled_eq f (b ∷ []) s = refl
settle-Settled_eq f (b ∷ c ∷ bs) s = rw (settle-Settled_eq b.is_free (c ∷ bs) s.1) (ground arith)

join-Settled :
    (f : Bool) (b : Block) (bs : List Block)
    → (f && b.is_free) ≡ false
    → Settled false bs
    → Settled f (join b bs)
join-Settled f b [] h s = (h, tt)
join-Settled f b (c ∷ bs) h s = ground arith

pub settle-Settled : (bs : List Block) → Settled false (settle bs)
unfolding settle
settle-Settled [] = tt
settle-Settled (b ∷ bs) = join-Settled false b (settle bs) refl (settle-Settled bs)

pub join-total : (b : Block) (bs : List Block) → total (join b bs) ≡ b.size + total bs
join-total b [] = refl
join-total b (c ∷ bs) = ground arith

pub settle-total : (bs : List Block) → total (settle bs) ≡ total bs
unfolding settle
settle-total [] = refl
settle-total (b ∷ bs) = omega (arith, join-total b (settle bs), settle-total bs)

pub given-total : (wanted n : ℕ) → wanted ≤ n → given wanted n + total (remainder wanted n) ≡ n
unfolding given remainder
given-total wanted n h = ground arith

join-pair :
    (a b : ℕ) (bs : List Block) → join (unused a) (join (unused b) bs) ≡ join (unused (a + b)) bs
join-pair a b [] = refl
join-pair a b (c ∷ bs) = ground arith

-- Two free neighbours are as good as one free block of their sizes.
pub settle-pair :
    (a b : ℕ) (ys : List Block) → settle (unused a ∷ unused b ∷ ys) ≡ settle (unused (a + b) ∷ ys)
unfolding settle
settle-pair a b ys = join-pair a b (settle ys)

-- What a request took from a block comes back to it.
pub settle-given :
    (wanted n : ℕ) (ys : List Block)
    → wanted ≤ n
    → settle (unused (given wanted n) ∷ (remainder wanted n ++ ys)) ≡ settle (unused n ∷ ys)
unfolding given remainder
settle-given wanted n ys h = elim (Bool-cases (leb (wanted + minimum_block_size) n)) [
  | inl split ↦
      rw split (settle-pair wanted (n - wanted) ys ∙ ap (λ k. settle (unused k ∷ ys)) (omega arith))
  | inr whole ↦ rw whole
]

-- Joining a settled tail first changes nothing.
pub settle-append : (xs ys : List Block) → settle (xs ++ settle ys) ≡ settle (xs ++ ys)
unfolding settle
settle-append [] ys = settle-Settled_eq false (settle ys) (settle-Settled ys)
settle-append (x ∷ xs) ys = ap (join x) (settle-append xs ys)

pub settle-congr :
    (xs ys zs : List Block) → settle ys ≡ settle zs → settle (xs ++ ys) ≡ settle (xs ++ zs)
settle-congr xs ys zs e =
    sym (settle-append xs ys) ∙ ap (λ l. settle (xs ++ l)) e ∙ settle-append xs zs

-- A freed block joined with what follows it in a settled list.
pub join-unused :
    (f : Bool) (n : ℕ) (ys : List Block)
    → Settled f ys
    → (n' : ℕ) × (zs : List Block) × (join (unused n) ys ≡ unused n' ∷ zs) × Settled true zs
join-unused f n [] s = (n, [], refl, tt)
join-unused f n (y ∷ ys) s = elim (Bool-cases y.is_free) [
  | inl fr ↦ (n + y.size, ys, rw fr, rw fr at s.1)
  | inr us ↦ (n, y ∷ ys, rw us, (us, s.1))
]

-- A list ends in its last block.
pub last-cases :
    (xs : List Block) → (xs ≡ []) ⊎ ((front : List Block) × (x : Block) × (xs ≡ front ++ x ∷ []))
last-cases [] = inl refl
last-cases (x ∷ xs) = elim (last-cases xs) [
  | inl e ↦ inr ([], x, ap (◌∷◌ x) e)
  | inr (front, y, e) ↦ inr (x ∷ front, y, ap (◌∷◌ x) e)
]

-- Freeing a block of a settled list joins it with what follows.
pub settle-joined :
    (f : Bool) (n n' : ℕ) (ys zs : List Block)
    → Settled f ys
    → join (unused n) ys ≡ unused n' ∷ zs
    → Settled true zs
    → settle (unused n ∷ ys) ≡ settle (unused n' ∷ zs)
unfolding settle
settle-joined f n n' ys zs sy e sz =
    ap (join (unused n)) (settle-Settled_eq f ys sy)
    ∙ e
    ∙ sym (settle-Settled_eq false (unused n' ∷ zs) (refl, sz))
