-- ===== src/BestFit/State.antt =====
-- When the memory of the allocator of Labs/CP/src/list_of_free_blocks.cpp stands for a list of
-- blocks; its constructor.
use mai_os_labs.Prelude.{
  ℕ, ◌+◌, ◌%◌, ◌≤◌, ◌<◌, ◌≡◌, refl, true, false, List, [], ◌∷◌, Option, some, arith, word, length,
}
use mai_os_labs.BestFit.{
  BestFitAllocator, Memory, init, initial_memory, header_size, clear_low_bits,
}
use mai_os_labs.BestFit.Segments.{Block, Seg, total}
use mai_os_labs.BestFit.Blocks.{unused, Settled}

-- The least address that `mmap` hands out.
abbrev pub lowest_address : ℕ
lowest_address = 4096

-- The blocks `bs` fill the mapping, linked in address order, and no two free ones are neighbours.
pub record IsValid (s : BestFitAllocator) (bs : List Block) : Type 0 where
  pub base : lowest_address ≤ s.head
  pub chain : Seg s.memory 0 s.head bs 0
  pub whole : total bs ≡ s.total_size
  pub some_size : 0 < s.total_size
  pub inside : s.head + s.total_size < word
  pub settled : Settled false bs

-- The size that the constructor maps: the request rounded up to a multiple of 8.
pub init_total :
    (memory_size : ℕ)
    → header_size ≤ memory_size
    → memory_size + 7 < word
    → (memory_size ≤ clear_low_bits ((memory_size + 7) % word))
      × (clear_low_bits ((memory_size + 7) % word) < memory_size + 8)
      × (clear_low_bits ((memory_size + 7) % word) % 8 ≡ 0)
init_total n h lt = omega arith

initial_memory-head :
    (base n : ℕ)
    → initial_memory base n base ≡ record { size = n; is_free = true; next = 0; prev = 0 }
unfolding initial_memory
initial_memory-head base n = ground arith

init_mapped :
    (mmap : ℕ → Option ℕ) (memory_size base n : ℕ)
    → clear_low_bits ((memory_size + 7) % word) ≡ n
    → mmap n ≡ some base
    → init mmap memory_size
      ≡ some (record { head = base; total_size = n; memory = initial_memory base n })
unfolding init
init_mapped mmap memory_size base n e mapped = ground arith

-- Where at least a header is asked for and `mmap` gives a mapping within the address space, from
-- the lowest address on, the constructor succeeds, and the allocator is one free block of the size
-- asked for, rounded up to a multiple of 8.
pub init-IsValid :
    (mmap : ℕ → Option ℕ) (memory_size base : ℕ)
    → header_size ≤ memory_size
    → memory_size + 7 < word
    → mmap (clear_low_bits (memory_size + 7)) ≡ some base
    → lowest_address ≤ base
    → base + clear_low_bits (memory_size + 7) < word
    → (s : BestFitAllocator) × (init mmap memory_size ≡ some s)
      × IsValid s (unused (clear_low_bits (memory_size + 7)) ∷ [])
init-IsValid mmap memory_size base large small mapped low inside =
    let total = clear_low_bits (memory_size + 7) in
    let same : clear_low_bits ((memory_size + 7) % word) ≡ total = omega arith in
    (
      record { head = base; total_size = total; memory = initial_memory base total },
      init_mapped mmap memory_size base total same mapped,
      record {
        base = low;
        chain = ((omega arith, omega arith), initial_memory-head base total, tt);
        whole = omega arith;
        some_size = omega arith;
        inside = inside;
        settled = (refl, tt);
      },
    )

-- Blocks are not empty.
pub length-le-total :
    (m : Memory) (before a : ℕ) (bs : List Block) (after : ℕ)
    → Seg m before a bs after
    → length bs ≤ total bs
length-le-total m before a [] after s = omega arith
length-le-total m before a (b ∷ bs) after s =
    omega (arith, s.0.0, length-le-total m a (a + b.size) bs after s.2)
