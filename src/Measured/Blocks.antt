-- ===== src/Measured/Blocks.antt =====
-- The loops of Labs/CP/src/usage_factor.cpp and Labs/CP/src/cock.cpp on a `BestFitAllocator`.
use mathlib.Core.List.{Perm}
use mathlib.Core.List.Perm
use mathlib.Core.Logic.{∥∥₁_elim, ∥∥₁_map, ∥∥₁_prop}
use native.Mathlib.Bridge.{le_prop}
use mai_os_labs.Prelude.{
  ℕ, ◌+◌, ◌≤◌, ◌≡◌, ◌≢◌, refl, sym, ap, subst, ◌∙◌, List, [], ◌∷◌, Option, none, some, arith, word,
}
use mai_os_labs.BestFit
use mai_os_labs.BestFit.{BestFitAllocator}
use mai_os_labs.BestFit.Segments.{Block}
use mai_os_labs.BestFit.Session.{refused_same}
use mai_os_labs.BestFit.InUse.{total_size-used_blocks, total_size-Fits}
use mai_os_labs.BestFit.Taken.{
  IsTaken, granted-IsTaken, freed-IsTaken, alloc-total_size, free-total_size, Fits-perm,
}
use mai_os_labs.Usage.{Allocation}
use mai_os_labs.Usage.Accounts.{total_size, total_size-perm}
use mai_os_labs.Usage.Contract.{Contract}
use mai_os_labs.Measured.{best_fit}
use mai_os_labs.Measured.Random.{alloc_answers, best_fit_alloc}

module _ (n : ℕ) where
  -- The blocks in use of an allocator of `n` bytes are what was asked for.
  abbrev IsTakenOf : BestFitAllocator → List Allocation → Type 0
  IsTakenOf s held =
      (bs : List Block) × (taken : List Allocation) × (s.total_size ≡ n) × IsTaken s held bs taken

  -- The state is defined, and the allocator is valid.
  abbrev pub IsInUse : Option BestFitAllocator → List Allocation → Type 0
  IsInUse none held = ⊥
  IsInUse (some s) held = ∥ IsTakenOf s held ∥₁

  IsInUse-prop : (s : Option BestFitAllocator) (held : List Allocation) → IsProp (IsInUse s held)
  IsInUse-prop none held i j = absurd i
  IsInUse-prop (some s) held i j = ∥∥₁_prop i j

  reorder :
      (s : Option BestFitAllocator) (held held' : List Allocation)
      → Perm held held'
      → IsInUse s held
      → IsInUse s held'
  reorder none held held' p i = i
  reorder (some s) held held' p i = ∥∥₁_elim p ∥∥₁_prop λ d. ∥∥₁_map i λ (bs, taken, same, o).
      let (taken', d', f) = Fits-perm taken d o.fits in
      (
        bs,
        taken',
        same,
        record { valid = o.valid; exact = Perm.trans (Perm.symm ∣ d' ∣₁) o.exact; fits = f },
      )

  refused :
      (s : Option BestFitAllocator) (held : List Allocation) (size : ℕ)
      → IsInUse s held
      → 2 ≤ size
      → size + 4096 ≤ word
      → (best_fit.alloc size s).0 ≡ 0
      → IsInUse (best_fit.alloc size s).1 held
  refused none held size i low high null = absurd i
  refused (some s) held size i low high null = ∥∥₁_elim i (IsInUse-prop _ _) λ (bs, taken, same, o).
      let ((ptr, t), e) = alloc_answers s bs size o.valid (omega arith) (omega arith) in
      let e' = best_fit_alloc s size ptr t e in
      let zero_ptr : ptr ≡ 0 = sym (ap (λ (r : ℕ × Option BestFitAllocator). r.0) e') ∙ null in
      let kept =
        refused_same s t bs size o.valid (omega arith) (e ∙ ap (λ p. some (p, t)) zero_ptr) in
      rw e' (subst (λ u. IsInUse (some u) held) kept i)

  granted :
      (s : Option BestFitAllocator) (held : List Allocation) (size : ℕ)
      → IsInUse s held
      → 2 ≤ size
      → size + 4096 ≤ word
      → (best_fit.alloc size s).0 ≢ 0
      → IsInUse
          (best_fit.alloc size s).1
          (record { ptr = (best_fit.alloc size s).0; size = size } ∷ held)
  granted none held size i low high given = absurd i
  granted (some s) held size i low high given =
      ∥∥₁_elim i (IsInUse-prop _ _) λ (bs, taken, same, o).
        let ((ptr, t), e) = alloc_answers s bs size o.valid (omega arith) (omega arith) in
        let e' = best_fit_alloc s size ptr t e in
        let given' : ptr ≢ 0 = λ z. given (ap (λ (r : ℕ × Option BestFitAllocator). r.0) e' ∙ z) in
        let (bs', taken', o') =
          granted-IsTaken s t held bs taken size ptr o (omega arith) (omega arith) e given' in
        rw e' (
          ∣ (
            bs',
            taken',
            alloc-total_size s t bs size ptr o.valid (omega arith) (omega arith) e ∙ same,
            o',
          ) ∣₁)

  freed_one :
      (s : BestFitAllocator) (h : Allocation) (held : List Allocation)
      → IsTakenOf s (h ∷ held)
      → IsTakenOf (BestFit.free s h.ptr) held
  freed_one s h held (bs, [], same, o) = absurd o.fits
  freed_one s h held (bs, t ∷ taken, same, o) =
      let (bs', o') = freed-IsTaken s h held bs t taken o in
      (bs', taken, free-total_size s h.ptr ∙ same, o')

  freed :
      (s : Option BestFitAllocator) (h : Allocation) (held : List Allocation)
      → IsInUse s (h ∷ held)
      → IsInUse (best_fit.free h.ptr s) held
  unfolding best_fit
  freed none h held i = i
  freed (some s) h held i = ∥∥₁_map i λ o. freed_one s h held o

  within :
      (s : Option BestFitAllocator) (held : List Allocation) → IsInUse s held → total_size held ≤ n
  within none held i = absurd i
  within (some s) held i = ∥∥₁_elim i le_prop λ (bs, taken, same, o). omega (
    arith,
    total_size-Fits held taken o.fits,
    total_size-perm o.exact,
    total_size-used_blocks s.head bs,
    o.valid.whole,
    same,
  )

  -- The allocator keeps the contract, with the bytes of its mapping as capacity.
  pub best_fit_contract : Contract best_fit n
  best_fit_contract = record {
    Holds = IsInUse;
    reorder = reorder;
    refused = refused;
    granted = granted;
    freed = freed;
    within = within;
  }

  pub to_contract :
      (s : Option BestFitAllocator) (held : List Allocation)
      → IsInUse s held
      → best_fit_contract.Holds s held
  unfolding best_fit_contract
  to_contract s held i = i

  pub contract-is_some :
      (s : Option BestFitAllocator)
      → best_fit_contract.Holds s []
      → (t : BestFitAllocator) × (s ≡ some t)
  unfolding best_fit_contract
  contract-is_some none i = absurd i
  contract-is_some (some s) i = (s, refl)
