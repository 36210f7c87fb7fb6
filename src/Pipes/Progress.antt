-- ===== src/Pipes/Progress.antt =====
-- When the processes of Labs/Lab1/src can go on, and how long.
use mai_os_labs.Prelude.{
  ℕ, suc, ◌+◌, ◌≤◌, ◌<◌, ◌≡◌, refl, sym, ap, subst, ◌∙◌, Bool, true, false, List, [], ◌∷◌, length,
  arith, append-nil, length-append, ◌⊎◌, inl, inr, Bool-cases, not,
}
use mai_os_labs.Pipes.{max_line}
use mai_os_labs.Pipes.Files.{AreShort, work}
use mai_os_labs.Pipes.Table.{Table}
use mai_os_labs.Pipes.System.{
  System, Step, parent_writes, parent_dies, parent_closes, child_fails, child_reads, child_ends,
  parent_returns, Steps, here, then, launch,
}
use mai_os_labs.Pipes.Invariant.{IsRunning}

parts : {A : Type 0} (l : List A) → (l ≡ []) ⊎ ((x : A) × (xs : List A) × (l ≡ x ∷ xs))
parts [] = inl refl
parts (x ∷ xs) = inr (x, xs, refl)

module _ (room : ℕ) (ends : Bool → ℕ) (opens : Bool → Bool) (total : Bool → List ℕ)
    (all_open : (b : Bool) → opens b ≡ true) (s : System)
    (r : IsRunning room ends opens total all_open s) where
  -- A child that has something to read can read all of it.
  reads_all :
      (b : Bool) (c : ℕ) (bytes : List ℕ)
      → (s.children b).ended ≡ false
      → (s.children b).pipe ≡ c ∷ bytes
      → (t : System) × Step room ends opens s t
  reads_all b c bytes runs e = (
    _,
    child_reads s b c bytes [] (all_open b) runs ((r.served b).input runs)
        (e ∙ sym (append-nil (c ∷ bytes))),
  )

  child_goes_on :
      (b : Bool)
      → s.in_loop ≡ false
      → (s.children b).ended ≡ false
      → (t : System) × Step room ends opens s t
  child_goes_on b over runs = elim (parts (s.children b).pipe) [
    | inl e ↦ (
      _,
      child_ends s b (all_open b) runs ((r.served b).input runs) e ((r.closed over).1 b)
          (λ c. (r.served c).mute b),
    )
    | inr (c, bytes, e) ↦ reads_all b c bytes runs e
  ]

  goes_on_outside : s.in_loop ≡ false → s.returned ≡ false → (t : System) × Step room ends opens s t
  goes_on_outside over waits = elim (Bool-cases (s.children true).ended) [
    | inr runs ↦ child_goes_on true over runs
    | inl first ↦ elim (Bool-cases (s.children false).ended) [
      | inr runs ↦ child_goes_on false over runs
      | inl second ↦ (_, parent_returns s over waits r.alive (both_ended first second))
    ]
  ]
    where
      both_ended :
          (s.children true).ended ≡ true
          → (s.children false).ended ≡ true
          → (b : Bool) → (s.children b).ended ≡ true
      both_ended first second true = first
      both_ended first second false = second

  goes_on_inside : max_line ≤ suc room → s.in_loop ≡ true → (t : System) × Step room ends opens s t
  goes_on_inside large looping = elim (parts s.lines) [
    | inl e ↦ (_, parent_closes s e looping)
    | inr (line, lines, e) ↦ elim (parts (s.children line.0).pipe) [
      | inl empty ↦ (
        _,
        parent_writes s line.0 line.1 lines e looping (r.open_ends looping line.0) (
            omega
              (arith, ap (λ (l : List ℕ). length l) empty, (subst AreShort e r.short).0, large)),
      )
      | inr (c, bytes, full) ↦ reads_all line.0 c bytes (still_runs line.0) full
    ]
  ]
    where
      still_runs : (b : Bool) → (s.children b).ended ≡ false
      still_runs b = elim (Bool-cases (s.children b).ended) [
        | inl done ↦ absurd (ground (arith, ((r.served b).done done).1))
        | inr runs ↦ runs
      ]

  pub goes_on : max_line ≤ suc room → s.returned ≡ false → (t : System) × Step room ends opens s t
  goes_on large waits = elim (Bool-cases s.in_loop) [
    | inl looping ↦ goes_on_inside large looping
    | inr over ↦ goes_on_outside over waits
  ]

abbrev pending : Bool → ℕ
pending false = 1
pending true = 0

-- What is still to be done: a step for each write, each byte that is read, and each end.
abbrev measure : System → ℕ
measure s =
    work s.lines
    + pending (not s.in_loop)
    + pending s.returned
    + (length (s.children true).pipe + pending (s.children true).ended)
    + (length (s.children false).pipe + pending (s.children false).ended)

module _ (room : ℕ) (ends : Bool → ℕ) (opens : Bool → Bool) where
  Step-measure : {s t : System} → Step room ends opens s t → measure t < measure s
  Step-measure (parent_writes s true bytes lines e looping at fits) =
      omega (arith, ap work e, length-append (s.children true).pipe bytes)
  Step-measure (parent_writes s false bytes lines e looping at fits) =
      omega (arith, ap work e, length-append (s.children false).pipe bytes)
  Step-measure (parent_dies s b bytes lines e looping at no_parent no_reader) =
      rw looping (omega arith)
  Step-measure (child_fails s true runs fails) = rw runs (omega arith)
  Step-measure (child_fails s false runs fails) = rw runs (omega arith)
  Step-measure (parent_closes s e looping) = rw looping (omega arith)
  Step-measure (child_reads s true c bytes rest opened runs at e) =
      omega (arith, ap (λ (l : List ℕ). length l) e, length-append (c ∷ bytes) rest)
  Step-measure (child_reads s false c bytes rest opened runs at e) =
      omega (arith, ap (λ (l : List ℕ). length l) e, length-append (c ∷ bytes) rest)
  Step-measure (child_ends s true opened runs at e no_parent no_child) = rw runs (omega arith)
  Step-measure (child_ends s false opened runs at e no_parent no_child) = rw runs (omega arith)
  Step-measure (parent_returns s over waits alive ended) = rw waits (omega arith)

  pub Steps-measure :
      {n : ℕ} {s t : System} → Steps room ends opens n s t → n + measure t ≤ measure s
  Steps-measure (here s) = omega arith
  Steps-measure (then steps step) = omega (arith, Step-measure step, Steps-measure steps)

  pub launch_bound :
      {n : ℕ} {t : System} (parent : Table) (tables : Bool → Table) (lines : List (Bool × List ℕ))
      → Steps room ends opens n (launch parent tables lines) t
      → n ≤ work lines + 4
  launch_bound parent tables lines steps = omega (arith, Steps-measure steps)
