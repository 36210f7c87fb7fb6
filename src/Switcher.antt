-- ===== src/Switcher.antt =====
-- Labs/Lab4/src/program2.cpp: the program that switches between two libraries while it runs. The
-- dynamic loader is a parameter: whether its n-th `dlopen` succeeds, and whether the library that it
-- opened has both symbols. A handle is the number of its `dlopen` and the library, and a function pointer
-- is the handle that `dlsym` took it from. `none` stands for `dlclose` of a handle that is not open, and
-- for a call through a pointer that is not set or whose library is closed. The integral is left to the
-- library that is called.
pub mod Handles
use mai_os_labs.Prelude.{
  ℕ, zero, suc, ◌+◌, Bool, true, false, ◌&&◌, List, [], ◌∷◌, ◌++◌, Option, none, some, ◌==◌,
  if◌then◌else◌,
}
use mai_os_labs.Prelude.Int.{ℤ}
use mai_os_labs.Translation.{Buffer, translation_bin, translation_tri}

-- lib_pr2_1.so and lib_pr2_2.so
pub data Library : Type 0 where
  library_1 library_2 : Library

pub record Handle : Type 0 where
  pub number : ℕ
  pub library : Library

pub record Loader : Type 0 where
  pub opens : ℕ → Library → Bool
  pub has_symbols : ℕ → Library → Bool

-- `Translation` of the libraries, which the Makefile links from tr_bin.cpp and from tr_tri.cpp.
abbrev pub translation_of : Library → ℤ → Option Buffer
translation_of library_1 x = some (translation_bin x)
translation_of library_2 x = translation_tri x

-- What is printed, up to prompts: a call is printed with the library that is called.
pub data Output : Type 0 where
  library_loaded library_switched loading_failed symbols_failed goodbye : Output
  with_rectangles with_trapeze to_binary to_trinity : Output
  integral_of : Library → Output
  translated : Option Buffer → Output

-- The variables of `main`; `opened` are the handles that are open. `none` is a pointer that is not set.
pub record Program : Type 0 where
  pub lib : Handle
  pub sin_integral : Option Handle
  pub translation : Option Handle
  pub real : ℕ
  pub loads : ℕ
  pub opened : List Handle
  pub printed : List Output

pub data Status : Type 0 where
  running : Program → Status
  returned : ℕ → Program → Status

abbrev pub print_output : Output → Program → Program
print_output o p = record p { printed = p.printed ++ o ∷ [] }

unfoldable pub close_number : ℕ → List Handle → Option (List Handle)
close_number n [] = none
close_number n (h ∷ hs) =
    let rest = close_number n hs in
    if h.number == n then some hs else elim rest [ none ↦ none | some kept ↦ some (h ∷ kept) ]

-- `dlclose(lib)`
unfoldable pub dlclose : Program → Option Program
dlclose p = elim (close_number p.lib.number p.opened) [
  | none ↦ none
  | some kept ↦ some (record p { opened = kept })
]

-- The end of a load: the symbols are looked up in `lib`.
unfoldable pub reload_symbols : Loader → Program → Option Status
reload_symbols l p =
    if l.has_symbols p.lib.number p.lib.library
    then some (running (record p { sin_integral = some p.lib; translation = some p.lib }))
    else elim (dlclose (print_output symbols_failed p)) [
      | none ↦ none
      | some q ↦ some (returned 1 q)
    ]

-- `lib = dlopen(...)`, and what follows it.
unfoldable pub load : Loader → Library → ℕ → Output → Program → Option Status
load l library real success p =
    let opening : Handle = record { number = p.loads; library = library } in
    if l.opens p.loads library
    then reload_symbols l (
        print_output success (record p {
          lib = opening;
          real = real;
          loads = p.loads + 1;
          opened = opening ∷ p.opened;
        }))
    else some
        (returned 1 (print_output loading_failed (record p { real = real; loads = p.loads + 1 })))

-- The library that a call through a function pointer reaches.
unfoldable pub callee : Option Handle → List Handle → Option Library
callee none opened = none
callee (some f) [] = none
callee (some f) (h ∷ hs) =
    let rest = callee (some f) hs in if h.number == f.number then some f.library else rest

pub data Input : Type 0 where
  switch_library calculate : Input
  translate : ℤ → Input
  other_code : Input

unfoldable pub handle_input : Loader → Input → Program → Option Status
handle_input l switch_library p = elim (dlclose p) [
  | none ↦ none
  | some q ↦
      if q.real == 1
      then load l library_2 2 library_switched q
      else load l library_1 1 library_switched q
]
handle_input l calculate p = elim (callee p.sin_integral p.opened) [
  | none ↦ none
  | some library ↦ some (
      running (
        print_output (integral_of library)
          (print_output (if p.real == 1 then with_rectangles else with_trapeze) p)))
]
handle_input l (translate x) p = elim (callee p.translation p.opened) [
  | none ↦ none
  | some library ↦ some (
      running (
        print_output (translated (translation_of library x))
          (print_output (if p.real == 1 then to_binary else to_trinity) p)))
]
handle_input l other_code p = elim (dlclose (print_output goodbye p)) [
  | none ↦ none
  | some q ↦ some (returned 0 q)
]

-- The loop of `main`, for the codes that are typed.
unfoldable pub handle_inputs : Loader → List Input → Status → Option Status
handle_inputs l [] s = some s
handle_inputs l (i ∷ is) (returned code p) = some (returned code p)
handle_inputs l (i ∷ is) (running p) = elim (handle_input l i p) [
  | none ↦ none
  | some s ↦ handle_inputs l is s
]

-- Before the first load.
abbrev pub before_load : Program
before_load = record {
  lib = record { number = 0; library = library_1 };
  sin_integral = none;
  translation = none;
  real = 1;
  loads = 0;
  opened = [];
  printed = [];
}

unfoldable pub main_program : Loader → List Input → Option Status
main_program l is = elim (load l library_1 1 library_loaded before_load) [
  | none ↦ none
  | some s ↦ handle_inputs l is s
]
