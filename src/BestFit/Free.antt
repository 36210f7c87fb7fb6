-- ===== src/BestFit/Free.antt =====
-- `free` of Labs/CP/src/list_of_free_blocks.cpp, on a block in use, and after `alloc`.
use mai_os_labs.Prelude.{
  ℕ, ◌+◌, ◌≤◌, ◌<◌, ◌≡◌, ◌≢◌, inl, inr, refl, sym, ap, subst, ◌∙◌, true, false, List, [], ◌∷◌, ◌++◌,
  some, arith, word, Bool-cases, append_assoc, sub64,
}
use mai_os_labs.BestFit.{
  BestFitAllocator, Memory, alloc, aligned_size, free, set_free, merge_next, merge_prev,
  header_size,
}
use mai_os_labs.BestFit.Segments.{
  Block, Seg, end_of, end_of-eq, end_of-append, total, total-append, Seg-split,
}
use mai_os_labs.BestFit.Writes.{merge_next_used, merge_prev_used}
use mai_os_labs.BestFit.Blocks.{
  used, unused, given, remainder, join, settle, Settled, Settled-split, Settled-join,
  settle-Settled, settle-Settled_eq, settle-total, settle-congr, settle-given, settle-pair,
  settle-joined, join-total, join-unused, last-cases,
}
use mai_os_labs.BestFit.State.{IsValid}
use mai_os_labs.BestFit.Alloc.{Allocated, refused, placed, alloc-Allocated}
use mai_os_labs.BestFit.Release.{mark-Seg, merge_next-Seg, merge_prev-Seg}

-- The step of `free` at the block behind: the list with the freed block and what follows joined.
module _ (m : Memory) (a : ℕ) (low : 0 < a) where
  next_step :
      (n : ℕ) (xs ys : List Block)
      → a ≤ end_of a xs
      → a + total (xs ++ unused n ∷ ys) < word
      → Seg m 0 a (xs ++ unused n ∷ ys) 0
      → Seg (merge_next (end_of a xs) m) 0 a (xs ++ join (unused n) ys) 0
  next_step n xs [] above inside s =
      let (l, r) = Seg-split m 0 a xs (unused n ∷ []) 0 s in
      rw (merge_next_used m (end_of a xs) _ r.1 (inl refl)) s
  next_step n xs (y ∷ ys) above inside s =
      let (l, r) = Seg-split m 0 a xs (unused n ∷ y ∷ ys) 0 s in
      elim (Bool-cases y.is_free) [
        | inl fr ↦ rw fr (
            merge_next-Seg m a n y.size xs ys above low (rw fr at s)
              (omega (arith, total-append xs (unused n ∷ y ∷ ys))))
        | inr us ↦
            rw (us, merge_next_used m (end_of a xs) _ r.1 (inr (ap (λ h. h.is_free) r.2.1 ∙ us)))
              (rw us at s)
      ]

  prev_first :
      (n : ℕ) (ys : List Block)
      → Settled true ys
      → Seg m 0 a (unused n ∷ ys) 0
      → Seg (merge_prev a m) 0 a (settle (unused n ∷ ys)) 0
  prev_first n ys sy s =
      rw (merge_prev_used m a _ s.1 (inl refl), settle-Settled_eq false (unused n ∷ ys) (refl, sy))
        s

  prev_last :
      (n : ℕ) (front : List Block) (x : Block) (ys : List Block)
      → a ≤ end_of a front
      → a + total (front ++ x ∷ unused n ∷ ys) < word
      → Settled false (front ++ x ∷ [])
      → Settled true ys
      → Seg m 0 a (front ++ x ∷ unused n ∷ ys) 0
      → Seg (merge_prev (end_of a front + x.size) m) 0 a (settle (front ++ x ∷ unused n ∷ ys)) 0
  prev_last n front x ys above inside sx sy s =
      let (l, r) = Seg-split m 0 a front (x ∷ unused n ∷ ys) 0 s in
      let (sl, sr) = Settled-split false front (x ∷ []) sx in
      elim (Bool-cases x.is_free) [
        | inl fr ↦
            rw
              (
                fr,
                settle-congr front _ _ (settle-pair x.size n ys),
                settle-Settled_eq false (front ++ unused (x.size + n) ∷ ys)
                    (Settled-join false front _ sl (rw fr at sr.0, sy)),
              )
              (merge_prev-Seg m a n x.size front ys above low (rw fr at s)
                (omega (arith, total-append front (x ∷ unused n ∷ ys))))
        | inr us ↦
            rw
              (
                merge_prev_used m (end_of a front + x.size) _ r.2.1
                    (inr (ap (λ h. h.is_free) r.1 ∙ us)),
                settle-Settled_eq false (front ++ x ∷ unused n ∷ ys)
                    (Settled-join false front _ sl (sr.0, (rw us refl, sy))),
              )
              s
      ]

  -- The step at the block in front.
  prev_step :
      (n : ℕ) (xs ys : List Block)
      → a + total (xs ++ unused n ∷ ys) < word
      → Settled false xs
      → Settled true ys
      → Seg m 0 a (xs ++ unused n ∷ ys) 0
      → Seg (merge_prev (end_of a xs) m) 0 a (settle (xs ++ unused n ∷ ys)) 0
  prev_step n xs ys inside sx sy s = elim (last-cases xs) [
    | inl e ↦ rw e (prev_first n ys sy (rw e at s))
    | inr (front, x, e) ↦
        let same = ap (λ l. l ++ unused n ∷ ys) e ∙ append_assoc front (x ∷ []) (unused n ∷ ys) in
        rw (same, ap (end_of a) e, end_of-append a front (x ∷ []))
          (prev_last n front x ys (omega (arith, end_of-eq a front)) (rw same at inside)
            (rw e at sx) sy (rw same at s))
  ]

-- What `free` does, for a pointer that `alloc` gave.
pub free_block :
    (s : BestFitAllocator) (block : ℕ)
    → block + header_size < word
    → free s (block + header_size)
      ≡ record s { memory = merge_prev block (merge_next block (set_free block true s.memory)) }
unfolding free
free_block s block h =
    let e : sub64 (block + header_size) header_size ≡ block = omega arith in ground (arith, e)

module _ (s : BestFitAllocator) (xs : List Block) (n : ℕ) (ys : List Block)
    (v : IsValid s (xs ++ used n ∷ ys)) where
  free_chain :
      Seg
        (merge_prev
          (end_of s.head xs)
          (merge_next (end_of s.head xs) (set_free (end_of s.head xs) true s.memory)))
        0
        s.head
        (settle (xs ++ unused n ∷ ys))
        0
  free_chain =
      let above : s.head ≤ end_of s.head xs = omega (arith, end_of-eq s.head xs) in
      let low : 0 < s.head = omega (arith, v.base) in
      let (sx, sy) = Settled-split false xs (used n ∷ ys) v.settled in
      let (n', zs, e, sz) = join-unused false n ys sy.1 in
      let sums = total-append xs (used n ∷ ys) in
      let marked = mark-Seg s.memory s.head n xs ys above low v.chain in
      let joined =
        next_step _ s.head low n xs ys above
          (omega (arith, v.whole, v.inside, sums, total-append xs (unused n ∷ ys))) marked in
      let same = settle-congr xs _ _ (settle-joined false n n' ys zs sy.1 e sz) in
      rw same (
        prev_step _ s.head low n' xs zs
          (omega (
            arith,
            v.whole,
            v.inside,
            sums,
            total-append xs (unused n' ∷ zs),
            join-total (unused n) ys,
            ap total e,
          ))
          sx sz (rw e at joined))

  -- `free` of a block in use of a valid allocator leaves a valid one, in which the block is free
  -- and joined with its free neighbours.
  pub free-IsValid :
      IsValid (free s (end_of s.head xs + header_size)) (settle (xs ++ unused n ∷ ys))
  free-IsValid =
      let sums = total-append xs (used n ∷ ys) in
      let sums' = total-append xs (unused n ∷ ys) in
      let end = end_of-eq s.head xs in
      let room = (Seg-split s.memory 0 s.head xs (used n ∷ ys) 0 v.chain).1.0.0 in
      subst (λ t. IsValid t (settle (xs ++ unused n ∷ ys)))
        (sym (free_block s (end_of s.head xs) (omega (arith, v.whole, v.inside, sums, end, room))))
        (record {
          base = v.base;
          chain = free_chain;
          whole = omega (arith, settle-total (xs ++ unused n ∷ ys), sums, sums', v.whole);
          some_size = v.some_size;
          inside = v.inside;
          settled = settle-Settled (xs ++ unused n ∷ ys);
        })

-- What `alloc` granted on a valid allocator, for a request of at least one byte whose rounded size
-- does not wrap around, is given back: the allocator stands for the same blocks as before.
pub free-alloc :
    (s s' : BestFitAllocator) (bs : List Block) (size ptr : ℕ)
    → IsValid s bs
    → 0 < size
    → size + 39 < word
    → alloc s size ≡ some (ptr, s')
    → ptr ≢ 0
    → IsValid (free s' ptr) bs
free-alloc s s' bs size ptr v pos small e ne = go (alloc-Allocated s bs size v pos small)
  where
    go : Allocated s bs (aligned_size size) (alloc s size) → IsValid (free s' ptr) bs
    go (refused e' none) = absurd (ground arith)
    go (placed xs n ys t eq best e' same_head v') =
        let wanted = aligned_size size in
        let pointer : ptr ≡ end_of s.head xs + header_size = cc in
        let state : s' ≡ t = cc in
        let back =
          settle-congr xs _ _ (settle-given wanted n ys best.large)
          ∙ settle-Settled_eq false (xs ++ unused n ∷ ys) (subst (Settled false) eq v.settled)
          ∙ sym eq in
        rw (state, pointer)
          (subst (λ a. IsValid (free t (end_of a xs + header_size)) bs) same_head
            (rw back at (free-IsValid t xs (given wanted n) (remainder wanted n ++ ys) v')))
