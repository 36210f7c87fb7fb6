-- ===== src/Measured/Pages.antt =====
-- The loops of Labs/CP/src/usage_factor.cpp and Labs/CP/src/cock.cpp on a `McKusickAllocator`.
use mathlib.Core.List.{Perm}
use mathlib.Core.Logic.{∥∥₁_elim, ∥∥₁_map, ∥∥₁_prop}
use native.Mathlib.Bridge.{le_prop}
use mai_os_labs.Prelude.{
  ℕ, ◌+◌, ◌*◌, ◌≤◌, ◌≡◌, ◌≢◌, inl, inr, refl, sym, ap, ◌∙◌, List, [], ◌∷◌, Option, none, some,
  arith, word,
}
use mai_os_labs.McKusick
use mai_os_labs.McKusick.{McKusickAllocator, page_size}
use mai_os_labs.McKusick.Ownership.{Owners, Allocation, IsSound}
use mai_os_labs.McKusick.Ownership.Capacity.{total_size-packed}
use mai_os_labs.McKusick.Ownership.Order.{IsSound-perm}
use mai_os_labs.McKusick.Session.{answered, released, IsSound-AreDisjoint}
use mai_os_labs.Usage.Accounts.{total_size}
use mai_os_labs.Usage.Contract.{Contract}
use mai_os_labs.Measured.{mckusick}

module _ (n : ℕ) where
  -- The state is defined, and the allocator is sound.
  abbrev pub IsInOrder : Option McKusickAllocator → List Allocation → Type 0
  IsInOrder none held = ⊥
  IsInOrder (some s) held = ∥ ((owner : Owners) × IsSound n owner s held) ∥₁

  IsInOrder-prop :
      (s : Option McKusickAllocator) (held : List Allocation) → IsProp (IsInOrder s held)
  IsInOrder-prop none held i j = absurd i
  IsInOrder-prop (some s) held i j = ∥∥₁_prop i j

  reorder :
      (s : Option McKusickAllocator) (held held' : List Allocation)
      → Perm held held'
      → IsInOrder s held
      → IsInOrder s held'
  reorder none held held' p i = i
  reorder (some s) held held' p i =
      ∥∥₁_elim p ∥∥₁_prop λ d. ∥∥₁_map i λ o. (o.0, IsSound-perm n o.0 s d o.1)

  allocated :
      (s t : McKusickAllocator) (size ptr : ℕ)
      → McKusick.alloc size s ≡ some (ptr, t)
      → ◌≡◌ {A = ℕ × Option McKusickAllocator} (mckusick.alloc size (some s)) (ptr, some t)
  unfolding mckusick
  allocated s t size ptr e = rw (mckusick, e) refl

  refused :
      (s : Option McKusickAllocator) (held : List Allocation) (size : ℕ)
      → IsInOrder s held
      → 2 ≤ size
      → size + page_size ≤ word
      → (mckusick.alloc size s).0 ≡ 0
      → IsInOrder (mckusick.alloc size s).1 held
  refused none held size i low high null = absurd i
  refused (some s) held size i low high null = ∥∥₁_elim i (IsInOrder-prop _ _) λ o.
      elim (answered n o.0 s held size o.1 (omega arith) high) [
        | inl e ↦ rw (allocated s s size 0 e) i
        | inr (ptr, t, owner, e, ne, sound) ↦ absurd (
            ne (
              sym (ap (λ (r : ℕ × Option McKusickAllocator). r.0) (allocated s t size ptr e))
              ∙ null))
      ]

  granted :
      (s : Option McKusickAllocator) (held : List Allocation) (size : ℕ)
      → IsInOrder s held
      → 2 ≤ size
      → size + page_size ≤ word
      → (mckusick.alloc size s).0 ≢ 0
      → IsInOrder
          (mckusick.alloc size s).1
          (record { ptr = (mckusick.alloc size s).0; size = size } ∷ held)
  granted none held size i low high given = absurd i
  granted (some s) held size i low high given = ∥∥₁_elim i (IsInOrder-prop _ _) λ o.
      elim (answered n o.0 s held size o.1 (omega arith) high) [
        | inl e ↦
            absurd (given (ap (λ (r : ℕ × Option McKusickAllocator). r.0) (allocated s s size 0 e)))
        | inr (ptr, t, owner, e, ne, sound) ↦ rw (allocated s t size ptr e) (∣ (owner, sound) ∣₁)
      ]

  freed :
      (s : Option McKusickAllocator) (h : Allocation) (held : List Allocation)
      → IsInOrder s (h ∷ held)
      → IsInOrder (mckusick.free h.ptr s) held
  unfolding mckusick
  freed none h held i = i
  freed (some s) h held i = ∥∥₁_elim i (IsInOrder-prop _ _) λ o.
      let (owner, t, e, sound) = released n o.0 s [] h held o.1 in
      rw (mckusick, e) (∣ (owner, sound) ∣₁)

  within :
      (s : Option McKusickAllocator) (held : List Allocation)
      → IsInOrder s held
      → total_size held ≤ n * page_size
  within none held i = absurd i
  within (some s) held i = ∥∥₁_elim i le_prop λ o.
      let (inside, apart) = IsSound-AreDisjoint n o.0 s held o.1 in
      total_size-packed s.initial_memory n held inside apart

  -- The allocator keeps the contract, with the bytes of its pages as capacity.
  pub mckusick_contract : Contract mckusick (n * page_size)
  mckusick_contract = record {
    Holds = IsInOrder;
    reorder = reorder;
    refused = refused;
    granted = granted;
    freed = freed;
    within = within;
  }

  pub to_contract :
      (s : Option McKusickAllocator) (held : List Allocation)
      → IsInOrder s held
      → mckusick_contract.Holds s held
  unfolding mckusick_contract
  to_contract s held i = i

  pub contract-is_some :
      (s : Option McKusickAllocator)
      → mckusick_contract.Holds s []
      → (t : McKusickAllocator) × (s ≡ some t)
  unfolding mckusick_contract
  contract-is_some none i = absurd i
  contract-is_some (some s) i = (s, refl)
