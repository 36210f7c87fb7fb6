-- ===== src/Usage/Answers.antt =====
-- What an allocator answers to the requests of `run_test` of Labs/CP/src/cock.cpp.
use mathlib.Core.List.{perm_middle, map-append}
use mathlib.Core.List.Perm
use mai_os_labs.Prelude.{
  ℕ, ◌+◌, ◌≤◌, ◌≡◌, refl, true, false, List, [], ◌∷◌, ◌++◌, arith, length, ◌==◌, Bool-cases, inl,
  inr, append-nil, if◌then◌else◌,
}
use mai_os_labs.Usage.{Allocator, Allocation, run_requests, run_test}
use mai_os_labs.Usage.Accounts.{pointers, total_size, total_size-append}
use mai_os_labs.Usage.Contract.{Contract, AreRequests}

-- `Responses a s sizes answers t`: asked for the sizes one after the other, the allocator gives these
-- pointers, 0 for a refusal, and goes from the first state to the last.
pub data Responses {State : Type 0} (a : Allocator State)
    : State → List ℕ → List ℕ → State → Type 0 where
  no_request : {s : State} → Responses a s [] [] s
  next_request :
      {s t after : State} {size ptr : ℕ} {sizes answers : List ℕ}
      → a.alloc size s ≡ (ptr, t)
      → Responses a t sizes answers after
      → Responses a s (size ∷ sizes) (ptr ∷ answers) after

-- How many of the answers are refusals.
abbrev pub refusals : List ℕ → ℕ
refusals [] = 0
refusals (ptr ∷ answers) = if ptr == 0 then refusals answers + 1 else refusals answers

-- The bytes of the requests that are not refused.
abbrev pub granted_bytes : List ℕ → List ℕ → ℕ
granted_bytes [] answers = 0
granted_bytes (size ∷ sizes) [] = 0
granted_bytes (size ∷ sizes) (ptr ∷ answers) =
    if ptr == 0 then granted_bytes sizes answers else size + granted_bytes sizes answers

module _ {State : Type 0} (a : Allocator State) (capacity : ℕ) (c : Contract a capacity) where
  -- A run of the loop of the requests: what it was answered, what it keeps and its count of refusals.
  abbrev IsAnswered : State → List ℕ → List Allocation → ℕ → State × List ℕ × ℕ → Type 0
  IsAnswered s sizes held failed (after, all, refused) =
      (answers : List ℕ) × (left : List Allocation) × Responses a s sizes answers after
      × (all ≡ pointers left)
      × c.Holds after left
      × (refused ≡ failed + refusals answers)
      × (total_size left ≡ total_size held + granted_bytes sizes answers)

  refused_first :
      (size : ℕ) (sizes : List ℕ) (s : State) (held : List Allocation) (failed : ℕ)
      → (r : State × List ℕ × ℕ) → (a.alloc size s).0 == 0 ≡ true
      → IsAnswered (a.alloc size s).1 sizes held (failed + 1) r
      → IsAnswered s (size ∷ sizes) held failed r
  refused_first size sizes s held failed (after, all, refused) null
        (answers, left, run, same, kept, count, bytes) =
      (
        (a.alloc size s).0 ∷ answers,
        left,
        next_request refl run,
        same,
        kept,
        rw null (omega (arith, count)),
        rw null bytes,
      )

  granted_first :
      (size : ℕ) (sizes : List ℕ) (s : State) (held : List Allocation) (failed : ℕ)
      → (r : State × List ℕ × ℕ) → (a.alloc size s).0 == 0 ≡ false
      → IsAnswered
          (a.alloc size s).1
          sizes
          (held ++ record { ptr = (a.alloc size s).0; size = size } ∷ [])
          failed
          r
      → IsAnswered s (size ∷ sizes) held failed r
  granted_first size sizes s held failed (after, all, refused) given
        (answers, left, run, same, kept, count, bytes) =
      let new : Allocation = record { ptr = (a.alloc size s).0; size = size } in
      (
        (a.alloc size s).0 ∷ answers,
        left,
        next_request refl run,
        same,
        kept,
        rw given count,
        rw given (omega (arith, bytes, total_size-append held (new ∷ []))),
      )

  run_requests-IsAnswered :
      (sizes : List ℕ) (s : State) (held : List Allocation) (failed : ℕ)
      → AreRequests sizes
      → c.Holds s held
      → IsAnswered s sizes held failed (run_requests a sizes s (pointers held) failed)
  unfolding run_requests
  run_requests-IsAnswered [] s held failed r h =
      ([], held, no_request, refl, h, omega arith, omega arith)
  run_requests-IsAnswered (size ∷ sizes) s held failed (low, high, r) h =
      elim (Bool-cases ((a.alloc size s).0 == 0)) [
        | inl null ↦
            rw (run_requests, null)
              (refused_first size sizes s held failed _ null (
                run_requests-IsAnswered sizes (a.alloc size s).1 held (failed + 1) r
                  (c.refused s held size h low high (ground arith))))
        | inr given ↦
            let new : Allocation = record { ptr = (a.alloc size s).0; size = size } in
            let p = rw append-nil at (perm_middle {a = new} held []) in
            let held' =
              c.reorder _ _ _ (Perm.symm p) (c.granted s held size h low high (ground arith)) in
            rw (run_requests, given)
              (granted_first size sizes s held failed _ given (
                rw (map-append) at (
                  run_requests-IsAnswered sizes (a.alloc size s).1 (held ++ new ∷ []) failed r
                    held')))
      ]

  -- The whole test: it counts every request and every refusal, and the allocator never grants more than
  -- its capacity.
  pub run_test-Responses :
      (sizes : List ℕ) (s : State)
      → AreRequests sizes
      → c.Holds s []
      → (answers : List ℕ) × (after : State) × Responses a s sizes answers after
        × ((run_test a sizes s).1 ≡ length sizes)
        × ((run_test a sizes s).2 ≡ refusals answers)
        × (granted_bytes sizes answers ≤ capacity)
  unfolding run_test
  run_test-Responses sizes s r h =
      let (answers, left, run, same, kept, count, bytes) =
        run_requests-IsAnswered sizes s [] 0 r h in
      (answers, _, run, refl, omega (arith, count), omega (arith, bytes, c.within _ left kept))
