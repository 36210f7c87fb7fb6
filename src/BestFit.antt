-- ===== src/BestFit.antt =====
-- Labs/CP/src/list_of_free_blocks.cpp: the class `BestFitAllocator`, over a memory of block headers
-- that are reached by address. Address 0 is `nullptr`, and `Option`'s `none` is a thrown exception
-- or, in `find_best`, an exhausted fuel.
pub mod Segments
pub mod Writes
pub mod Search
pub mod Blocks
pub mod Take
pub mod Release
pub mod State
pub mod Alloc
pub mod Free
pub mod Overflow
pub mod Session
pub mod InUse
pub mod Taken
use mai_os_labs.Prelude.{
  ℕ, zero, suc, ◌+◌, ◌*◌, ◌/◌, Bool, true, false, ◌&&◌, Option, none, some, leb, ltb, ◌==◌, not,
  if◌then◌else◌, add64, sub64,
}

pub record BlockHeader : Type 0 where
  pub size : ℕ
  pub is_free : Bool
  pub next : ℕ
  pub prev : ℕ

-- The headers in memory, by address.
abbrev pub Memory : Type 0
Memory = ℕ → BlockHeader

pub record BestFitAllocator : Type 0 where
  pub head : ℕ
  pub total_size : ℕ
  pub memory : Memory

-- `sizeof(BlockHeader)`: two words, a Boolean padded to a word, and a word.
abbrev pub header_size : ℕ
header_size = 32

abbrev pub minimum_block_size : ℕ
minimum_block_size = header_size + 8

-- `x & ~7`
abbrev pub clear_low_bits : ℕ → ℕ
clear_low_bits x = x / 8 * 8

unfoldable pub write : Memory → ℕ → BlockHeader → Memory
write m p h q = if q == p then h else m q

-- The assignments `p->size = v`, `p->is_free = v`, `p->next = v`, `p->prev = v`.
unfoldable pub set_size : ℕ → ℕ → Memory → Memory
unfolding write
set_size p v m = write m p (record (m p) { size = v })

unfoldable pub set_free : ℕ → Bool → Memory → Memory
unfolding write
set_free p v m = write m p (record (m p) { is_free = v })

unfoldable pub set_next : ℕ → ℕ → Memory → Memory
unfolding write
set_next p v m = write m p (record (m p) { next = v })

unfoldable pub set_prev : ℕ → ℕ → Memory → Memory
unfolding write
set_prev p v m = write m p (record (m p) { prev = v })

-- Pages of an anonymous mapping are zero.
abbrev pub zeroed : Memory
zeroed _ = record { size = 0; is_free = false; next = 0; prev = 0 }

unfoldable pub initial_memory : ℕ → ℕ → Memory
unfolding set_size set_free set_next set_prev
initial_memory head total =
    set_prev head 0 (set_next head 0 (set_free head true (set_size head total zeroed)))

-- The constructor. `mmap len` is the address of a new mapping, or `none` for `MAP_FAILED`.
unfoldable pub init : (ℕ → Option ℕ) → ℕ → Option BestFitAllocator
unfolding initial_memory
init mmap memory_size =
    let total = clear_low_bits (add64 memory_size 7) in
    elim (mmap total) [
      | none ↦ none
      | some base ↦
          some (record { head = base; total_size = total; memory = initial_memory base total })
    ]

-- The size of the block that serves a request, its header included.
unfoldable pub aligned_size : ℕ → ℕ
aligned_size size = clear_low_bits (add64 (add64 size header_size) 7)

-- Whether the search moves its choice to this block.
abbrev pub improves : BlockHeader → ℕ → ℕ → Bool
improves h wanted min_suitable_size = h.is_free && leb wanted h.size && ltb h.size min_suitable_size

-- The search loop of `alloc`, from `current` on.
unfoldable pub find_best : ℕ → Memory → ℕ → ℕ → ℕ → ℕ → Option ℕ
find_best zero m wanted current best min_size = none
find_best (suc fuel) m wanted current best min_size =
    let better = improves (m current) wanted min_size in
    let rest =
      find_best fuel m wanted (m current).next (if better then current else best)
        (if better then (m current).size else min_size) in
    if current == 0 then some best else rest

-- `p->prev = v` where `p` is tested for `nullptr` first.
unfoldable pub set_prev_if : ℕ → ℕ → Memory → Memory
unfolding set_prev
set_prev_if p v m = if p == 0 then m else set_prev p v m

-- The new block behind a block that is larger than wanted.
unfoldable pub split_block : ℕ → ℕ → Memory → Memory
unfolding set_size set_free set_next set_prev set_prev_if
split_block best wanted m =
    let new_block = add64 best wanted in
    let m₁ = set_size new_block (sub64 (m best).size wanted) m in
    let m₂ = set_free new_block true m₁ in
    let m₃ = set_next new_block (m₂ best).next m₂ in
    let m₄ = set_prev new_block best m₃ in
    let m₅ = set_prev_if (m₄ best).next new_block m₄ in
    set_next best new_block (set_size best wanted m₅)

-- What `alloc` does to the memory once it has chosen a block.
unfoldable pub take_block : ℕ → ℕ → Memory → Memory
unfolding split_block set_free
take_block best wanted m =
    set_free best false
      (if leb (add64 wanted minimum_block_size) (m best).size then split_block best wanted m else m)

-- `alloc` with the fuel of its loop; the pointer 0 is the answer `nullptr`.
unfoldable pub alloc_within : ℕ → BestFitAllocator → ℕ → Option (ℕ × BestFitAllocator)
unfolding aligned_size find_best take_block
alloc_within fuel s size =
    if size == 0
    then some (0, s)
    else elim (find_best fuel s.memory (aligned_size size) s.head 0 (add64 s.total_size 1)) [
      | none ↦ none
      | some best ↦
          if best == 0
          then some (0, s)
          else some (
            add64 best header_size,
            record s { memory = take_block best (aligned_size size) s.memory },
          )
    ]

-- Every block takes at least one byte, so the list has at most `total_size` blocks.
unfoldable pub alloc : BestFitAllocator → ℕ → Option (ℕ × BestFitAllocator)
unfolding alloc_within
alloc s size = alloc_within (suc s.total_size) s size

-- `free`: the block takes over a free block that follows it.
unfoldable pub merge_next : ℕ → Memory → Memory
unfolding set_size set_next set_prev_if
merge_next block m =
    if not ((m block).next == 0) && (m (m block).next).is_free
    then (let m₁ = set_size block (add64 (m block).size (m (m block).next).size) m in
        let m₂ = set_next block (m₁ (m₁ block).next).next m₁ in
        set_prev_if (m₂ block).next block m₂)
    else m

-- `free`: a free block in front takes over the block.
unfoldable pub merge_prev : ℕ → Memory → Memory
unfolding set_size set_next set_prev_if
merge_prev block m =
    if not ((m block).prev == 0) && (m (m block).prev).is_free
    then (let before = (m block).prev in
        let m₁ = set_size before (add64 (m before).size (m block).size) m in
        let m₂ = set_next before (m₁ block).next m₁ in
        set_prev_if (m₂ block).next (m₂ block).prev m₂)
    else m

unfoldable pub free : BestFitAllocator → ℕ → BestFitAllocator
free s ptr =
    if ptr == 0
    then s
    else (let block = sub64 ptr header_size in
        record s { memory = merge_prev block (merge_next block (set_free block true s.memory)) })
