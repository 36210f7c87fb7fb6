-- ===== src/Examples/SwitcherRuns.antt =====
-- Concrete runs of Labs/Lab4/src/program2.cpp: a switch, and a number.
use mai_os_labs.Prelude.{[], ◌∷◌, ◌++◌, ◌≡◌, ◌⊎◌, some, refl, true, ◌==◌, not}
use mai_os_labs.Prelude.Int.{pos}
use mai_os_labs.Translation.{translation_bin, translation_tri}
use mai_os_labs.Switcher
use mai_os_labs.Switcher.{
  Library, library_1, library_2, Loader, Program, Status, running, Input, switch_library, translate,
  calculate, handle_input, handle_inputs, load, reload_symbols, dlclose, close_number, to_binary,
  to_trinity, translated, library_loaded, library_switched,
}
use mai_os_labs.Switcher.Handles.{IsBalanced, main_program-IsBalanced, main_program-translates}

-- The third load finds a library without its symbols.
abbrev loader : Loader
loader = record { opens = λ n l. true; has_symbols = λ n l. not (n == 2) }

main_program-IsBalanced_example :
    (s : Status) × (Switcher.main_program loader (calculate ∷ switch_library ∷ switch_library ∷ [])
      ≡ some s)
    × IsBalanced s
main_program-IsBalanced_example =
    main_program-IsBalanced loader (calculate ∷ switch_library ∷ switch_library ∷ [])

abbrev switched : Program
switched = record {
  lib = record { number = 1; library = library_2 };
  sin_integral = some (record { number = 1; library = library_2 });
  translation = some (record { number = 1; library = library_2 });
  real = 2;
  loads = 2;
  opened = record { number = 1; library = library_2 } ∷ [];
  printed = library_loaded ∷ library_switched ∷ [];
}

switched_runs : Switcher.main_program loader (switch_library ∷ []) ≡ some (running switched)
unfolding Switcher.main_program load reload_symbols dlclose close_number handle_input handle_inputs
switched_runs = refl

main_program-translates_example :
    (q : Program) × (handle_input loader (translate (pos 5)) switched ≡ some (running q))
    × (((switched.lib.library ≡ library_1)
          × (q.printed
              ≡ switched.printed ++ to_binary ∷ translated (some (translation_bin (pos 5))) ∷ []))
        ⊎ ((switched.lib.library ≡ library_2)
            × (q.printed
                ≡ switched.printed ++ to_trinity ∷ translated (translation_tri (pos 5)) ∷ [])))
main_program-translates_example =
    main_program-translates loader (switch_library ∷ []) switched (pos 5) switched_runs
