-- ===== src/BestFit/Search.antt =====
-- The search loop in `alloc` of Labs/CP/src/list_of_free_blocks.cpp.
use mai_os_labs.Prelude.{
  ℕ, zero, suc, ◌+◌, ◌≤◌, ◌<◌, ◌≡◌, ◌≢◌, inl, inr, refl, ap, true, List, [], ◌∷◌, ◌++◌, some, arith,
  length, Bool-cases, if◌then◌else◌,
}
use mai_os_labs.BestFit.{BlockHeader, Memory, find_best, improves}
use mai_os_labs.BestFit.Segments.{Block, Seg, next_of, end_of, header}

-- Every free block of at least `wanted` bytes has at least `least` bytes.
abbrev pub AtLeast : ℕ → ℕ → List Block → Type 0
AtLeast wanted least [] = Unit {0}
AtLeast wanted least (b ∷ bs) =
    (b.is_free ≡ true → wanted ≤ b.size → least ≤ b.size) × AtLeast wanted least bs

-- `b` is the first of the smallest blocks of `xs ++ b ∷ ys` that serve `wanted` bytes.
pub record IsBestFit (wanted : ℕ) (xs : List Block) (b : Block) (ys : List Block) : Type 0 where
  pub unused : b.is_free ≡ true
  pub large : wanted ≤ b.size
  pub earlier : AtLeast wanted (suc b.size) xs
  pub later : AtLeast wanted b.size ys

-- What the loop, begun at `current` with the choice `best` of size `least`, ends with.
pub data Found (wanted least current : ℕ) (rest : List Block) (best r : ℕ) : Type 0 where
  kept : r ≡ best → AtLeast wanted least rest → Found wanted least current rest best r
  found :
      (xs : List Block) (b : Block) (ys : List Block)
      → rest ≡ xs ++ b ∷ ys
      → r ≡ end_of current xs
      → b.size < least
      → IsBestFit wanted xs b ys
      → Found wanted least current rest best r

better :
    (wanted least current best r : ℕ) (b : Block) (rest : List Block)
    → b.is_free ≡ true
    → wanted ≤ b.size
    → b.size < least
    → Found wanted b.size (current + b.size) rest current r
    → Found wanted least current (b ∷ rest) best r
better wanted least current best r b rest fr fits lt (kept e all) =
    found [] b rest refl e lt (record { unused = fr; large = fits; earlier = tt; later = all })
better wanted least current best r b rest fr fits lt (found xs c ys e e' lt' f) =
    found (b ∷ xs) c ys (ap (◌∷◌ b) e) e' (omega arith) (record {
      unused = f.unused;
      large = f.large;
      earlier = ((λ _ _. lt'), f.earlier);
      later = f.later;
    })

no_better :
    (wanted least current best r : ℕ) (b : Block) (rest : List Block)
    → (b.is_free ≡ true → wanted ≤ b.size → least ≤ b.size)
    → Found wanted least (current + b.size) rest best r
    → Found wanted least current (b ∷ rest) best r
no_better wanted least current best r b rest no_gain (kept e all) = kept e (no_gain, all)
no_better wanted least current best r b rest no_gain (found xs c ys e e' lt' f) =
    found (b ∷ xs) c ys (ap (◌∷◌ b) e) e' lt' (record {
      unused = f.unused;
      large = f.large;
      earlier = ((λ fr fits. omega (arith, no_gain fr fits)), f.earlier);
      later = f.later;
    })

-- One round of the loop at a block.
find_best_round :
    (fuel : ℕ) (m : Memory) (wanted current best least : ℕ) (h : BlockHeader)
    → current ≢ 0
    → m current ≡ h
    → find_best (suc fuel) m wanted current best least
      ≡ find_best fuel m wanted h.next
          (if improves h wanted least then current else best)
          (if improves h wanted least then h.size else least)
unfolding find_best
find_best_round fuel m wanted current best least h some_block e = rw e (ground arith)

find_best_end :
    (fuel : ℕ) (m : Memory) (wanted best least : ℕ)
    → find_best (suc fuel) m wanted 0 best least ≡ some best
unfolding find_best
find_best_end fuel m wanted best least = refl

-- With more fuel than blocks the loop ends.
pub find_best_lem :
    (fuel : ℕ) (m : Memory) (wanted before current : ℕ) (rest : List Block) (best least : ℕ)
    → Seg m before current rest 0
    → 0 < current
    → length rest < fuel
    → (r : ℕ) × (find_best fuel m wanted (next_of current rest 0) best least ≡ some r)
      × Found wanted least current rest best r
find_best_lem zero m wanted before current rest best least s pos enough = elim enough [ ]
find_best_lem (suc fuel) m wanted before current [] best least s pos enough =
    (best, find_best_end fuel m wanted best least, kept refl tt)
find_best_lem (suc fuel) m wanted before current (b ∷ rest) best least s pos enough =
    rw (find_best_round fuel m wanted current best least _ (omega arith) s.1)
      (elim (Bool-cases (improves (header b 0 0) wanted least)) [
        | inl gain ↦ rw gain (
            let (r, e, f) =
              find_best_lem fuel m wanted current (current + b.size) rest current b.size s.2
                (omega arith) (omega arith) in
            (
              r,
              e,
              better wanted least current best r b rest (ground arith) (ground arith) (ground arith)
                  f,
            ))
        | inr no_gain ↦ rw no_gain (
            let (r, e, f) =
              find_best_lem fuel m wanted current (current + b.size) rest best least s.2
                (omega arith) (omega arith) in
            (r, e, no_better wanted least current best r b rest (λ fr fits. ground arith) f))
      ])
