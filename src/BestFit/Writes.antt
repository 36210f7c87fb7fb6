-- ===== src/BestFit/Writes.antt =====
-- The assignments in `alloc` and `free` of Labs/CP/src/list_of_free_blocks.cpp, address by address.
use mai_os_labs.Prelude.{ℕ, ◌+◌, ◌-◌, ◌≤◌, ◌<◌, ◌≡◌, ◌≢◌, ◌⊎◌, true, false, arith, word}
use mai_os_labs.BestFit.{
  BlockHeader, Memory, take_block, merge_next, merge_prev, set_free, minimum_block_size,
}

-- `alloc` takes the block at `best`, which has the header `h`.
module _ (m : Memory) (best wanted : ℕ) (h : BlockHeader) (known : m best ≡ h) (pos : 0 < wanted)
    (inside : best + h.size < word) where
  -- The block is split: its successor lies behind the new block, or there is none.
  module _ (large : wanted + minimum_block_size ≤ h.size)
      (ahead : (h.next ≡ 0) ⊎ (best + wanted < h.next)) where
    pub split_best :
        take_block best wanted m best
        ≡ record h { size = wanted; is_free = false; next = best + wanted }
    unfolding take_block
    split_best = ground arith

    pub split_new :
        take_block best wanted m (best + wanted)
        ≡ record { size = h.size - wanted; is_free = true; next = h.next; prev = best }
    unfolding take_block
    split_new = ground arith

    pub split_after :
        h.next ≢ 0 → take_block best wanted m h.next ≡ record (m h.next) { prev = best + wanted }
    unfolding take_block
    split_after some_next = ground arith

    pub split_other :
        (q : ℕ)
        → q ≢ best
        → q ≢ best + wanted
        → (h.next ≡ 0) ⊎ (q ≢ h.next)
        → take_block best wanted m q ≡ m q
    unfolding take_block
    split_other q ne ne' apart = ground arith

  -- The block is used whole.
  module _ (small : h.size < wanted + minimum_block_size) (wanted_inside : wanted ≤ h.size)
      (high : minimum_block_size ≤ best) where
    pub whole_best : take_block best wanted m best ≡ record h { is_free = false }
    unfolding take_block
    whole_best = ground arith

    pub whole_other : (q : ℕ) → q ≢ best → take_block best wanted m q ≡ m q
    unfolding take_block
    whole_other q ne = ground arith

-- `free` marks the block at `block`, which had the header `h`, and joins it with its neighbours.
module _ (m : Memory) (block : ℕ) (h : BlockHeader) (known : m block ≡ h) where
  pub marked_block : set_free block true m block ≡ record h { is_free = true }
  unfolding set_free
  marked_block = ground arith

  pub marked_other : (q : ℕ) → q ≢ block → set_free block true m q ≡ m q
  unfolding set_free
  marked_other q ne = ground arith

  pub merge_next_used : (h.next ≡ 0) ⊎ ((m h.next).is_free ≡ false) → merge_next block m ≡ m
  unfolding merge_next
  merge_next_used used = ground arith

  pub merge_prev_used : (h.prev ≡ 0) ⊎ ((m h.prev).is_free ≡ false) → merge_prev block m ≡ m
  unfolding merge_prev
  merge_prev_used used = ground arith

  -- The successor is free, and `n` is its header.
  module _ (n : BlockHeader) (next_known : m h.next ≡ n) (next_free : n.is_free ≡ true)
      (some_next : h.next ≢ 0) (ahead : block < h.next) (further : (n.next ≡ 0) ⊎ (h.next < n.next))
      (inside : h.size + n.size < word) where
    pub merge_next_block :
        merge_next block m block ≡ record h { size = h.size + n.size; next = n.next }
    unfolding merge_next
    merge_next_block = ground arith

    pub merge_next_after :
        n.next ≢ 0 → merge_next block m n.next ≡ record (m n.next) { prev = block }
    unfolding merge_next
    merge_next_after some_after = ground arith

    pub merge_next_other :
        (q : ℕ) → q ≢ block → (n.next ≡ 0) ⊎ (q ≢ n.next) → merge_next block m q ≡ m q
    unfolding merge_next
    merge_next_other q ne apart = ground arith

  -- The predecessor is free, and `p` is its header.
  module _ (p : BlockHeader) (prev_known : m h.prev ≡ p) (prev_free : p.is_free ≡ true)
      (some_prev : h.prev ≢ 0) (behind : h.prev < block) (ahead : (h.next ≡ 0) ⊎ (block < h.next))
      (inside : p.size + h.size < word) where
    pub merge_prev_before :
        merge_prev block m h.prev ≡ record p { size = p.size + h.size; next = h.next }
    unfolding merge_prev
    merge_prev_before = ground arith

    pub merge_prev_after :
        h.next ≢ 0 → merge_prev block m h.next ≡ record (m h.next) { prev = h.prev }
    unfolding merge_prev
    merge_prev_after some_next = ground arith

    pub merge_prev_other :
        (q : ℕ) → q ≢ h.prev → (h.next ≡ 0) ⊎ (q ≢ h.next) → merge_prev block m q ≡ m q
    unfolding merge_prev
    merge_prev_other q ne apart = ground arith
