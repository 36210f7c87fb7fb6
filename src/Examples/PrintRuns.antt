-- ===== src/Examples/PrintRuns.antt =====
-- Concrete runs of Labs/Lab4/src/tr_bin.cpp and Labs/Lab4/src/tr_tri.cpp.
use mai_os_labs.Prelude.{ℕ, ◌+◌, ◌-◌, ◌^◌, ◌≡◌, ◌≤◌, true, false, List, some, arith, length}
use mai_os_labs.Prelude.Int.{pos, negsuc}
use mai_os_labs.Translation.{Buffer, translation_bin, translation_tri}
use mai_os_labs.Translation.Digits.{Prints}
use mai_os_labs.Translation.Binary.{translation_bin-positive, translation_bin-negative}
use mai_os_labs.Translation.Ternary.{translation_tri-Prints}

translation_bin-positive_example :
    (digits : List ℕ) × Prints false 2 10 (translation_bin (pos 10)) digits
translation_bin-positive_example = translation_bin-positive 10 (omega arith) (omega arith)

translation_bin-negative_example :
    (digits : List ℕ) × Prints true 2 (2 ^ 64 - (4 + 1)) (translation_bin (negsuc 4)) digits
translation_bin-negative_example = translation_bin-negative 4 (omega arith)

translation_tri-Prints_example :
    ((r : Buffer) × (digits : List ℕ) × (translation_tri (pos 100) ≡ some r)
      × Prints false 3 100 r digits
      × (length digits ≤ 40))
    × ((r : Buffer) × (digits : List ℕ) × (translation_tri (negsuc (100 - 1)) ≡ some r)
        × Prints true 3 100 r digits
        × (length digits ≤ 40))
translation_tri-Prints_example = translation_tri-Prints 100 (omega arith) (omega arith)
