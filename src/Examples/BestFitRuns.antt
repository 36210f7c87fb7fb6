-- ===== src/Examples/BestFitRuns.antt =====
-- Concrete runs of Labs/CP/src/list_of_free_blocks.cpp: an allocator of 128 bytes.
use mathlib.Core.List.Perm
use mai_os_labs.Prelude.{
  ℕ, ◌+◌, ◌-◌, ◌≡◌, ◌≢◌, refl, List, [], ◌∷◌, ◌++◌, Option, some, arith, word,
}
use mai_os_labs.BestFit
use mai_os_labs.BestFit.{
  BestFitAllocator, aligned_size, initial_memory, take_block, header_size, clear_low_bits,
}
use mai_os_labs.BestFit.Segments.{Block}
use mai_os_labs.BestFit.Blocks.{used, unused, settle}
use mai_os_labs.BestFit.State.{IsValid}
use mai_os_labs.BestFit.Alloc.{Allocated, alloc-Allocated}
use mai_os_labs.BestFit.Free.{free-IsValid, free-alloc}
use mai_os_labs.BestFit.Overflow.{alloc_huge}
use mai_os_labs.BestFit.Session.{
  Session, start, granted_alloc, freed, IsHeld, Session-IsHeld, Session-all_freed,
}

-- An allocator of 128 bytes, all of them free.
abbrev pub heap : BestFitAllocator
heap = record { head = 65536; total_size = 128; memory = initial_memory 65536 128 }

heap-IsValid : IsValid heap (unused 128 ∷ [])
unfolding initial_memory
heap-IsValid = record {
  base = omega arith;
  chain = ((omega arith, refl), refl, tt);
  whole = refl;
  some_size = omega arith;
  inside = omega arith;
  settled = (refl, tt);
}

-- The allocator after a request of 40 bytes.
abbrev taken : BestFitAllocator
taken = record heap { memory = take_block 65536 72 (initial_memory 65536 128) }

taken_alloc : BestFit.alloc heap 40 ≡ some (65568, taken)
unfolding BestFit.alloc BestFit.alloc_within BestFit.find_best aligned_size initial_memory
taken_alloc = refl

taken-IsValid : IsValid taken ([] ++ used 72 ∷ unused 56 ∷ [])
unfolding initial_memory take_block BestFit.split_block BestFit.set_size BestFit.set_free
    BestFit.set_next BestFit.set_prev BestFit.set_prev_if BestFit.write
taken-IsValid = record {
  base = omega arith;
  chain = ((omega arith, refl), refl, ((omega arith, refl), refl, tt));
  whole = refl;
  some_size = omega arith;
  inside = omega arith;
  settled = (refl, (refl, tt));
}

abbrev mapped_at : ℕ → Option ℕ
mapped_at len = some 65536

alloc-Allocated_example : Allocated heap (unused 128 ∷ []) (aligned_size 40) (BestFit.alloc heap 40)
alloc-Allocated_example =
    alloc-Allocated heap (unused 128 ∷ []) 40 heap-IsValid (omega arith) (omega arith)

free-IsValid_example :
    IsValid (BestFit.free taken (65536 + header_size)) (settle (unused 72 ∷ unused 56 ∷ []))
free-IsValid_example = free-IsValid taken [] 72 (unused 56 ∷ []) taken-IsValid

free-alloc_example : IsValid (BestFit.free taken 65568) (unused 128 ∷ [])
free-alloc_example =
    free-alloc heap taken (unused 128 ∷ []) 40 65568 heap-IsValid (omega arith) (omega arith)
      taken_alloc (omega arith)

alloc_huge_example :
    (ptr : ℕ) × (s' : BestFitAllocator) × (BestFit.alloc heap (word - 1) ≡ some (ptr, s'))
    × (ptr ≢ 0)
alloc_huge_example = alloc_huge heap [] 128 [] (word - 1) heap-IsValid (omega arith) (omega arith)

pub heap-IsHeld : IsHeld heap [] (unused 128 ∷ [])
heap-IsHeld = record { valid = heap-IsValid; held = Perm.rfl }

taken-Session : Session heap taken (65568 ∷ [])
taken-Session = granted_alloc 40 65568 start (omega arith) taken_alloc (omega arith)

Session-IsHeld_example : (bs : List Block) × IsHeld taken (65568 ∷ []) bs
Session-IsHeld_example = Session-IsHeld (unused 128 ∷ []) heap-IsHeld taken-Session

Session-all_freed_example :
    IsValid (BestFit.free taken 65568) (unused (BestFit.free taken 65568).total_size ∷ [])
Session-all_freed_example =
    Session-all_freed (unused 128 ∷ []) heap-IsHeld (freed [] 65568 [] taken-Session refl)
