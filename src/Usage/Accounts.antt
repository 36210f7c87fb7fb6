-- ===== src/Usage/Accounts.antt =====
-- The books of the measuring loops of Labs/CP/src/usage_factor.cpp and Labs/CP/src/cock.cpp.
use mathlib.Core.List.{Perm, Permᴰ, perm_middle}
use mathlib.Core.Logic.{∥∥₁_elim}
use native.Mathlib.Nat.{ℕ_set}
use mathlib.Core.List.Perm
use mai_os_labs.Prelude.{
  ℕ, zero, suc, ◌+◌, ◌-◌, ◌≤◌, ◌<◌, ◌≡◌, ◌≢◌, inl, inr, refl, sym, ap, subst, ◌∙◌, Bool, true, List,
  [], ◌∷◌, ◌++◌, map, arith, length, length-append, get_or, set, take, word, Bool-cases, ◌==◌,
  append-nil, append_assoc, ◌%◌, ◌&&◌, not,
}
use mathlib.Core.List.{map-append}
use mai_os_labs.Usage.{
  Allocator, Allocation, Draw, Usage, swap_remove, free_at, request, round, rounds, free_all, fresh,
  test_random_with_deallocations, run_requests, is_empty,
}

abbrev pub pointers : List Allocation → List ℕ
pointers = map λ x. x.ptr

abbrev pub total_size : List Allocation → ℕ
total_size [] = 0
total_size (x ∷ xs) = x.size + total_size xs

-- The bytes that the draws ask for.
abbrev pub total_drawn : List Draw → ℕ
total_drawn [] = 0
total_drawn (d ∷ ds) = d.size + total_drawn ds

pub total_size-append :
    (xs ys : List Allocation) → total_size (xs ++ ys) ≡ total_size xs + total_size ys
total_size-append [] ys = omega arith
total_size-append (x ∷ xs) ys = omega (arith, total_size-append xs ys)

abbrev pub nothing : Allocation
nothing = record { ptr = 0; size = 0 }

-- A vector and its last entry.
last-split :
    (v : List Allocation)
    → 0 < length v
    → (front : List Allocation) × (x : Allocation) × (v ≡ front ++ x ∷ [])
last-split [] h = absurd (omega arith)
last-split (x ∷ []) h = ([], x, refl)
last-split (x ∷ y ∷ v) h =
    let (front, z, e) = last-split (y ∷ v) (omega arith) in (x ∷ front, z, ap (◌∷◌ x) e)

get_or-last :
    (front : List Allocation) (x : Allocation) → get_or (front ++ x ∷ []) (length front) nothing ≡ x
get_or-last [] x = refl
get_or-last (y ∷ front) x = get_or-last front x

take-front :
    (front : List Allocation) (x : Allocation) → take (length front) (front ++ x ∷ []) ≡ front
take-front [] x = refl
take-front (y ∷ front) x = ap (◌∷◌ y) (take-front front x)

-- Overwriting the entry at `i` with the last one and dropping that one takes out the entry at `i`.
swap_remove-front :
    (front : List Allocation) (x : Allocation) (i : ℕ)
    → i < length front + 1
    → Perm
        (get_or (front ++ x ∷ []) i nothing ∷ take (length front) (set (front ++ x ∷ []) i x))
        (front ++ x ∷ [])
swap_remove-front [] x zero h = Perm.rfl
swap_remove-front [] x (suc i) h = absurd (omega arith)
swap_remove-front (y ∷ front) x zero h =
    rw (take-front front x)
      (Perm.cons y (Perm.symm (rw append-nil at (perm_middle {a = x} front []))))
swap_remove-front (y ∷ front) x (suc i) h =
    Perm.trans (Perm.swap _ _ _) (Perm.cons y (swap_remove-front front x i (omega arith)))

pub swap_remove-perm :
    (v : List Allocation) (i : ℕ) → i < length v → Perm (get_or v i nothing ∷ swap_remove v i) v
unfolding swap_remove
swap_remove-perm v i h =
    let (front, x, e) = last-split v (omega arith) in
    let len : length (front ++ x ∷ []) - 1 ≡ length front =
      omega (arith, length-append front (x ∷ [])) in
    subst (λ w. Perm (get_or w i nothing ∷ swap_remove w i) w) (sym e)
      (rw (swap_remove, len, get_or-last front x)
        (swap_remove-front front x i (omega (arith, ap length e, length-append front (x ∷ [])))))

total_size-permᴰ : {xs ys : List Allocation} → Permᴰ xs ys → total_size xs ≡ total_size ys
total_size-permᴰ Permᴰ.nil = refl
total_size-permᴰ (Permᴰ.cons e p) = omega (arith, ap (λ x. x.size) e, total_size-permᴰ p)
total_size-permᴰ (Permᴰ.swap e e') = omega (arith, ap (λ x. x.size) e, ap (λ x. x.size) e')
total_size-permᴰ (Permᴰ.trans p q) = total_size-permᴰ p ∙ total_size-permᴰ q

pub total_size-perm : {xs ys : List Allocation} → Perm xs ys → total_size xs ≡ total_size ys
total_size-perm p = ∥∥₁_elim p (ℕ_set _ _) total_size-permᴰ

-- The counters and the pointers agree: what is in use is what the vector holds, the maximum is not
-- below it, and every granted pointer is in the vector or was freed.
pub record Balanced {ℓ} {State : Type ℓ} (u : Usage State) : Type 0 where
  pub used : u.current_used ≡ total_size u.active_allocations
  pub peak : u.current_used ≤ u.max_used
  pub books : Perm u.granted (pointers u.active_allocations ++ u.freed)

abbrev pub NoNull : List ℕ → Type 0
NoNull [] = Unit {0}
NoNull (p ∷ ps) = (p ≢ 0) × NoNull ps

NoNull-append : (ps : List ℕ) (q : ℕ) → NoNull ps → q ≢ 0 → NoNull (ps ++ q ∷ [])
NoNull-append [] q h n = (n, tt)
NoNull-append (p ∷ ps) q h n = (h.0, NoNull-append ps q h.1 n)

pub index_bound :
    (v : List Allocation) (i : ℕ)
    → (c : Bool) → not (is_empty v) && c ≡ true
    → i % length v < length v
index_bound [] i c h = ground arith
index_bound (x ∷ v) i c h = ground arith

module _ {ℓ} {State : Type ℓ} (a : Allocator State) where
  free_at-Balanced :
      (i : ℕ) (u : Usage State)
      → i < length u.active_allocations
      → u.max_used < word
      → Balanced u
      → Balanced (free_at a i u) × ((free_at a i u).max_used ≤ u.max_used)
  unfolding free_at
  free_at-Balanced i u h small b =
      let p = swap_remove-perm u.active_allocations i h in
      let t = total_size-perm p in
      (
        record {
          used = omega (arith, t, b.used);
          peak = omega (arith, t, b.used, b.peak);
          books = Perm.trans b.books (
              Perm.trans (Perm.append_right u.freed (Perm.symm (Perm.map (λ x. x.ptr) p)))
                (Perm.symm (perm_middle (pointers (swap_remove u.active_allocations i)) u.freed)));
        },
        omega arith,
      )

  pub request-Balanced :
      (size : ℕ) (u : Usage State)
      → u.max_used + size < word
      → Balanced u
      → Balanced (request a size u) × ((request a size u).max_used ≤ u.max_used + size)
  unfolding request
  request-Balanced size u small b = elim (Bool-cases ((a.alloc size u.allocator).0 == 0)) [
    | inl null ↦ rw null (record { used = b.used; peak = b.peak; books = b.books }, omega arith)
    | inr granted ↦ rw granted (
      record {
        used = omega (
          arith,
          b.used,
          total_size-append u.active_allocations
              (record { ptr = (a.alloc size u.allocator).0; size = size } ∷ []),
        );
        peak = omega (arith, b.peak);
        books =
            rw (map-append, append_assoc)
              (Perm.trans (Perm.cons (a.alloc size u.allocator).0 b.books)
                (Perm.symm (perm_middle (pointers u.active_allocations) u.freed)));
      },
      omega (arith, b.peak),
    )
  ]

  round-Balanced :
      (d : Draw) (u : Usage State)
      → u.max_used + d.size < word
      → Balanced u
      → Balanced (round a d u) × ((round a d u).max_used ≤ u.max_used + d.size)
  unfolding round
  round-Balanced d u small b =
      elim (Bool-cases (not (is_empty u.active_allocations) && d.below_probability)) [
        | inl frees ↦ rw frees (
            let r =
              free_at-Balanced (d.index % length u.active_allocations) u (index-bound frees)
                (omega arith) b in
            (r.0, omega (arith, r.1)))
        | inr asks ↦ rw asks (request-Balanced d.size u small b)
      ]
    where
      index-bound :
          not (is_empty u.active_allocations) && d.below_probability ≡ true
          → d.index % length u.active_allocations < length u.active_allocations
      index-bound h = index_bound u.active_allocations d.index d.below_probability h

  rounds-Balanced :
      (ds : List Draw) (u : Usage State)
      → u.max_used + total_drawn ds < word
      → Balanced u
      → Balanced (rounds a ds u) × ((rounds a ds u).max_used ≤ u.max_used + total_drawn ds)
  unfolding rounds
  rounds-Balanced [] u small b = (b, omega arith)
  rounds-Balanced (d ∷ ds) u small b =
      let r = round-Balanced d u (omega arith) b in
      let rs = rounds-Balanced ds (round a d u) (omega (arith, r.1)) r.0 in
      (rs.0, omega (arith, r.1, rs.1))

  pub free_all-freed :
      (xs : List Allocation) (u : Usage State)
      → Perm (pointers xs ++ u.freed) (free_all a xs u).freed
        × ((free_all a xs u).granted ≡ u.granted)
        × ((free_all a xs u).max_used ≡ u.max_used)
  unfolding free_all
  free_all-freed [] u = (Perm.rfl, refl, refl)
  free_all-freed (x ∷ xs) u =
      let r =
        free_all-freed xs
          (record u { allocator = a.free x.ptr u.allocator; freed = x.ptr ∷ u.freed }) in
      (Perm.trans (Perm.symm (perm_middle (pointers xs) u.freed)) r.0, r.1, r.2)

  -- With the requested sizes below 2^64 in total, the pointers that the test was granted are, with
  -- repetition, the pointers that it freed, and the maximum that it reports is at most the total.
  pub test_random_with_deallocations_lem :
      (draws : List Draw) (s : State)
      → total_drawn draws < word
      → Perm
          (test_random_with_deallocations a draws s).granted
          (test_random_with_deallocations a draws s).freed
        × ((test_random_with_deallocations a draws s).max_used ≤ total_drawn draws)
  unfolding test_random_with_deallocations
  test_random_with_deallocations_lem draws s small =
      let r =
        rounds-Balanced draws (fresh a s) (omega (arith, small))
          (record { used = refl; peak = omega arith; books = Perm.rfl }) in
      let f =
        free_all-freed (rounds a draws (fresh a s)).active_allocations
          (rounds a draws (fresh a s)) in
      (rw f.1 (Perm.trans r.0.books f.0), omega (arith, f.2, r.1))

  -- Every request of the benchmark's loop is counted once: as a pointer of the vector or as failed.
  -- No null pointer enters the vector.
  pub run_requests-accounts :
      (sizes : List ℕ) (s : State) (ptrs : List ℕ) (failed : ℕ)
      → NoNull ptrs
      → (let (after, all, refused) = run_requests a sizes s ptrs failed in
          NoNull all × (length all + refused ≡ length ptrs + failed + length sizes))
  unfolding run_requests
  run_requests-accounts [] s ptrs failed h = (h, omega arith)
  run_requests-accounts (size ∷ sizes) s ptrs failed h =
      elim (Bool-cases ((a.alloc size s).0 == 0)) [
        | inl null ↦
            rw (run_requests, null)
              (let r = run_requests-accounts sizes (a.alloc size s).1 ptrs (failed + 1) h in
                (r.0, omega (arith, r.1)))
        | inr granted ↦
            rw (run_requests, granted)
              (let r =
                  run_requests-accounts sizes (a.alloc size s).1 (ptrs ++ (a.alloc size s).0 ∷ [])
                    failed (NoNull-append ptrs (a.alloc size s).0 h (ground arith)) in
                (r.0, omega (arith, r.1, length-append ptrs ((a.alloc size s).0 ∷ []))))
      ]
