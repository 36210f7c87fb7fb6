-- ===== src/Usage.antt =====
-- Labs/CP/src/usage_factor.cpp and `run_test` of Labs/CP/src/cock.cpp: the loops that measure an allocator.
-- The template parameter is the interface `Allocator`, and the random numbers are a list. Each
-- loop also records the pointers that were granted and those that were freed, newest first.
pub mod Accounts
pub mod Requests
pub mod Contract
pub mod Answers
use mai_os_labs.Prelude.{
  ℕ, zero, suc, ◌+◌, ◌-◌, ◌%◌, ◌^◌, max, Bool, true, false, not, ◌&&◌, List, [], ◌∷◌, ◌++◌, map,
  Option, none, some, ltb, ◌==◌, if◌then◌else◌, add64, sub64, length, get_or, set, take,
}

-- What the loops call: a granted request gives a pointer that is not 0.
pub record Allocator {ℓ} (State : Type ℓ) : Type ℓ where
  pub alloc : ℕ → State → ℕ × State
  pub free : ℕ → State → State

pub record Allocation : Type 0 where
  pub ptr : ℕ
  pub size : ℕ

-- The random numbers of one round: whether a block should be freed, which, and the size to ask
-- for. `index_dis` draws an index of the vector: any number, taken modulo the length.
pub record Draw : Type 0 where
  pub below_probability : Bool
  pub index : ℕ
  pub size : ℕ

pub record Usage {ℓ} (State : Type ℓ) : Type ℓ where
  pub allocator : State
  pub active_allocations : List Allocation
  pub current_used : ℕ
  pub max_used : ℕ
  pub granted : List ℕ
  pub freed : List ℕ

-- `v[i] = v.back(); v.pop_back();`
unfoldable pub swap_remove : List Allocation → ℕ → List Allocation
swap_remove v i =
    let last = get_or v (length v - 1) (record { ptr = 0; size = 0 }) in
    take (length v - 1) (set v i last)

abbrev pub is_empty {ℓ} : {A : Type ℓ} → List A → Bool
is_empty [] = true
is_empty (x ∷ l) = false

module _ {ℓ} {State : Type ℓ} (a : Allocator State) where
  -- The branch that frees the block at `i`.
  unfoldable pub free_at : ℕ → Usage State → Usage State
  free_at i u =
      let chosen = get_or u.active_allocations i (record { ptr = 0; size = 0 }) in
      record u {
        allocator = a.free chosen.ptr u.allocator;
        active_allocations = swap_remove u.active_allocations i;
        current_used = sub64 u.current_used chosen.size;
        freed = chosen.ptr ∷ u.freed;
      }

  -- The branch that asks for a block.
  unfoldable pub request : ℕ → Usage State → Usage State
  request size u =
      let (ptr, next) = a.alloc size u.allocator in
      if ptr == 0 then record u { allocator = next } else record u {
        allocator = next;
        active_allocations = u.active_allocations ++ record { ptr = ptr; size = size } ∷ [];
        current_used = add64 u.current_used size;
        max_used = max u.max_used (add64 u.current_used size);
        granted = ptr ∷ u.granted;
      }

  unfoldable pub round : Draw → Usage State → Usage State
  round d u =
      if not (is_empty u.active_allocations) && d.below_probability
      then free_at (d.index % length u.active_allocations) u
      else request d.size u

  unfoldable pub rounds : List Draw → Usage State → Usage State
  rounds [] u = u
  rounds (d ∷ ds) u = rounds ds (round d u)

  -- The loop that frees what is left.
  unfoldable pub free_all : List Allocation → Usage State → Usage State
  free_all [] u = u
  free_all (x ∷ xs) u =
      free_all xs (record u { allocator = a.free x.ptr u.allocator; freed = x.ptr ∷ u.freed })

  abbrev pub fresh : State → Usage State
  fresh s = record {
    allocator = s;
    active_allocations = [];
    current_used = 0;
    max_used = 0;
    granted = [];
    freed = [];
  }

  -- `test_random_with_deallocations`, up to the quotient that it returns.
  unfoldable pub test_random_with_deallocations : List Draw → State → Usage State
  test_random_with_deallocations draws s =
      let u = rounds draws (fresh s) in free_all u.active_allocations u

  -- `test_random_allocations` and `test_power_of_two_allocations` ask for every size in turn; their
  -- `total_requested` is `current_used` here, and they have no maximum.
  unfoldable pub requests : List ℕ → Usage State → Usage State
  requests [] u = u
  requests (size ∷ sizes) u = requests sizes (request size u)

  unfoldable pub test_random_allocations : List ℕ → State → Usage State
  test_random_allocations sizes s =
      let u = requests sizes (fresh s) in free_all u.active_allocations u

  unfoldable pub test_power_of_two_allocations : List ℕ → State → Usage State
  test_power_of_two_allocations powers s = test_random_allocations (map (λ p. 2 ^ p) powers) s

  -- `run_test` of cock.cpp: the vector of pointers and the number of failed requests.
  unfoldable pub run_requests : List ℕ → State → List ℕ → ℕ → State × List ℕ × ℕ
  run_requests [] s ptrs failed = (s, ptrs, failed)
  run_requests (size ∷ sizes) s ptrs failed =
      let (ptr, next) = a.alloc size s in
      run_requests sizes next (if ptr == 0 then ptrs else ptrs ++ ptr ∷ [])
        (if ptr == 0 then failed + 1 else failed)

  unfoldable pub free_pointers : List ℕ → State → State
  free_pointers [] s = s
  free_pointers (p ∷ ps) s = free_pointers ps (a.free p s)

  -- The state after the test, the number of operations and that of failed ones.
  unfoldable pub run_test : List ℕ → State → State × ℕ × ℕ
  run_test sizes s =
      let (after, ptrs, failed) = run_requests sizes s [] 0 in
      (free_pointers ptrs after, length sizes, failed)
