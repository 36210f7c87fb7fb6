-- ===== src/Switcher/Handles.antt =====
-- The handles of Labs/Lab4/src/program2.cpp, and the functions that it calls.
use mai_os_labs.Prelude.{
  ℕ, ◌≡◌, ◌∙◌, refl, ap, subst, List, [], ◌∷◌, ◌++◌, append_assoc, Option, none, some, arith, true,
  Bool-cases, Option-cases, inl, inr, ◌==◌, ◌⊎◌,
}
use mai_os_labs.Prelude.Int.{ℤ}
use mai_os_labs.Translation.{translation_bin, translation_tri}
use mai_os_labs.Switcher.{
  translation_of, callee, Handle, Library, library_1, library_2, Loader, Output, Program, Status,
  running, returned, print_output, close_number, dlclose, reload_symbols, load, Input,
  switch_library, calculate, translate, other_code, handle_input, handle_inputs, main_program,
  before_load, library_loaded, library_switched, symbols_failed, goodbye, to_binary, to_trinity,
  translated,
}

-- The number that the variable `real` has while a library is open.
abbrev pub number_of : Library → ℕ
number_of library_1 = 1
number_of library_2 = 2

-- A running program has one open handle, that of its library, `real` names it, and both function pointers
-- are from it. A program that has returned has none.
abbrev pub IsBalanced : Status → Type 0
IsBalanced (running p) =
    (p.opened ≡ p.lib ∷ [])
    × (p.real ≡ number_of p.lib.library)
    × (p.sin_integral ≡ some p.lib)
    × (p.translation ≡ some p.lib)
IsBalanced (returned code p) = p.opened ≡ []

abbrev Balanced : Option Status → Type 0
Balanced none = ⊥
Balanced (some s) = IsBalanced s

close_only : (p : Program) → p.opened ≡ p.lib ∷ [] → dlclose p ≡ some (record p { opened = [] })
unfolding dlclose close_number
close_only p e = rw e (ground arith)

reload-Balanced :
    (l : Loader) (p : Program)
    → p.opened ≡ p.lib ∷ []
    → p.real ≡ number_of p.lib.library
    → Balanced (reload_symbols l p)
unfolding reload_symbols
reload-Balanced l p e r = elim (Bool-cases (l.has_symbols p.lib.number p.lib.library)) [
  | inl found ↦ rw found (e, r, refl, refl)
  | inr missing ↦ rw (missing, close_only (print_output symbols_failed p) e) refl
]

load-Balanced :
    (l : Loader) (library : Library) (success : Output) (p : Program)
    → p.opened ≡ []
    → Balanced (load l library (number_of library) success p)
unfolding load
load-Balanced l library success p e = elim (Bool-cases (l.opens p.loads library)) [
  | inl opened ↦
      rw opened
        (reload-Balanced l _ (ap (λ k. record { number = p.loads; library = library } ∷ k) e) refl)
  | inr failed ↦ rw failed e
]

switch-Balanced :
    (l : Loader) (p : Program)
    → p.opened ≡ p.lib ∷ []
    → p.real ≡ number_of p.lib.library
    → Balanced (handle_input l switch_library p)
unfolding handle_input
switch-Balanced l p e r = elim (Bool-cases (p.real == 1)) [
  | inl one ↦
      rw (handle_input, close_only p e, one) (load-Balanced l library_2 library_switched _ refl)
  | inr two ↦
      rw (handle_input, close_only p e, two) (load-Balanced l library_1 library_switched _ refl)
]

called :
    (f : Option Handle) (p : Program)
    → p.opened ≡ p.lib ∷ []
    → f ≡ some p.lib
    → callee f p.opened ≡ some p.lib.library
unfolding callee
called f p e g =
    let same : (p.lib.number == p.lib.number) ≡ true = ground arith in rw (g, e, same) refl

input-Balanced :
    (l : Loader) (i : Input) (p : Program) → IsBalanced (running p) → Balanced (handle_input l i p)
unfolding handle_input
input-Balanced l switch_library p (e, r, f, g) = switch-Balanced l p e r
input-Balanced l calculate p (e, r, f, g) =
    rw (handle_input, called p.sin_integral p e f) (e, r, f, g)
input-Balanced l (translate x) p (e, r, f, g) =
    rw (handle_input, called p.translation p e g) (e, r, f, g)
input-Balanced l other_code p (e, r, f, g) =
    rw (handle_input, close_only (print_output goodbye p) e) refl

inputs-Balanced :
    (l : Loader) (is : List Input) (s : Status) → IsBalanced s → Balanced (handle_inputs l is s)
unfolding handle_inputs
inputs-Balanced l [] s b = b
inputs-Balanced l (i ∷ is) (returned code p) b = b
inputs-Balanced l (i ∷ is) (running p) b = elim (Option-cases (handle_input l i p)) [
  | inl closed ↦ absurd (subst Balanced closed (input-Balanced l i p b))
  | inr (s, e) ↦
      rw (handle_inputs, e) (inputs-Balanced l is s (subst Balanced e (input-Balanced l i p b)))
]

program-Balanced : (l : Loader) (is : List Input) → Balanced (main_program l is)
unfolding main_program
program-Balanced l is = elim (Option-cases (load l library_1 1 library_loaded before_load)) [
  | inl closed ↦
      absurd (subst Balanced closed (load-Balanced l library_1 library_loaded before_load refl))
  | inr (s, e) ↦
      rw (main_program, e)
        (inputs-Balanced l is s
          (subst Balanced e (load-Balanced l library_1 library_loaded before_load refl)))
]

-- Whatever is typed, and whichever loads fail, the program closes no handle that is not open and calls
-- no function of a library that is closed. While it runs, just the handle of its library is open, `real`
-- names the library and both function pointers are from it; once it has returned, no handle is open.
pub main_program-IsBalanced :
    (l : Loader) (is : List Input) → (s : Status) × (main_program l is ≡ some s) × IsBalanced s
main_program-IsBalanced l is = elim (Option-cases (main_program l is)) [
  | inl closed ↦ absurd (subst Balanced closed (program-Balanced l is))
  | inr (s, e) ↦ (s, e, subst Balanced e (program-Balanced l is))
]

translates :
    (l : Loader) (x : ℤ) (p : Program) (library : Library)
    → p.lib.library ≡ library
    → IsBalanced (running p)
    → (q : Program) × (handle_input l (translate x) p ≡ some (running q))
      × (((p.lib.library ≡ library_1)
            × (q.printed ≡ p.printed ++ to_binary ∷ translated (some (translation_bin x)) ∷ []))
          ⊎ ((p.lib.library ≡ library_2)
              × (q.printed ≡ p.printed ++ to_trinity ∷ translated (translation_tri x) ∷ [])))
unfolding handle_input
translates l x p library_1 e (o, r, f, g) =
    let one : p.real ≡ 1 = r ∙ ap number_of e in
    (
      print_output (translated (translation_of library_1 x)) (print_output to_binary p),
      rw (handle_input, called p.translation p o g, one, e) refl,
      inl (e, append_assoc p.printed _ _),
    )
translates l x p library_2 e (o, r, f, g) =
    let two : p.real ≡ 2 = r ∙ ap number_of e in
    (
      print_output (translated (translation_of library_2 x)) (print_output to_trinity p),
      rw (handle_input, called p.translation p o g, two, e) refl,
      inr (e, append_assoc p.printed _ _),
    )

-- The program as it is after any inputs, if it still runs, translates a number through its function
-- pointer with the function that it announces: in base 2 by the first library, and in base 3 by the
-- second.
pub main_program-translates :
    (l : Loader) (is : List Input) (p : Program) (x : ℤ)
    → main_program l is ≡ some (running p)
    → (q : Program) × (handle_input l (translate x) p ≡ some (running q))
      × (((p.lib.library ≡ library_1)
            × (q.printed ≡ p.printed ++ to_binary ∷ translated (some (translation_bin x)) ∷ []))
          ⊎ ((p.lib.library ≡ library_2)
              × (q.printed ≡ p.printed ++ to_trinity ∷ translated (translation_tri x) ∷ [])))
main_program-translates l is p x e =
    translates l x p p.lib.library refl (subst Balanced e (program-Balanced l is))
