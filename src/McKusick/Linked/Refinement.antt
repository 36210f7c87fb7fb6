-- ===== src/McKusick/Linked/Refinement.antt =====
-- The allocator of Labs/CP/src/Mckusey-Carels.cpp by pointers against the allocator by lists.
use mathlib.Core.List.{map-append}
use mai_os_labs.Prelude.{
  ℕ, zero, suc, ◌+◌, ◌<◌, ◌≤◌, ◌≡◌, ◌≢◌, inl, inr, refl, sym, subst, List, ◌∷◌, ◌++◌, some, arith,
  leb, Bool-cases, word,
}
use mai_os_labs.McKusick.{McKusickAllocator, page_size, max_block_size, bucket_count}
use mai_os_labs.McKusick.Ownership.{
  Owners, Allocation, IsNew, IsGranted, small, large, IsSound, bucket, pointers, Every-weaken,
  Every_middle,
}
use mai_os_labs.McKusick.Session.{no_bytes}
use mai_os_labs.McKusick.Linked.{Linked}
use mai_os_labs.McKusick.Linked
use mai_os_labs.McKusick.Linked.Spelling.{linked, Represents, AllocRefined, FreeRefined}
use mai_os_labs.McKusick.Linked.Small.{small-AllocRefined}
use mai_os_labs.McKusick.Linked.SmallFree.{small-FreeRefined}
use mai_os_labs.McKusick.Linked.LargeRequest.{large-AllocRefined}
use mai_os_labs.McKusick.Linked.LargeFree.{large-FreeRefined}

linked_no_bytes : (l : Linked) → Linked.alloc 0 l ≡ some (0, l)
unfolding Linked.alloc
linked_no_bytes l = refl

module _ (n : ℕ) (owner : Owners) (s : McKusickAllocator) (l : Linked) where
  -- From a sound state with the pointers of its lists, a request for any number of bytes but one whose
  -- sum with a page does not wrap around has the same answer by pointers as by lists, and the pointers
  -- afterwards are those of the lists afterwards; every loop over pointers ends.
  pub alloc-AllocRefined :
      (held : List Allocation) (size : ℕ)
      → IsSound n owner s held
      → Represents l s
      → size ≢ 1
      → size + page_size ≤ word
      → AllocRefined size l s
  alloc-AllocRefined held size o (k, same, r) ne fits =
      subst (λ x. AllocRefined size x s) (sym same) (by_size size ne fits)
    where
      by_size : (size : ℕ) → size ≢ 1 → size + page_size ≤ word → AllocRefined size (linked k s) s
      by_size zero ne fits =
          (0, s, linked k s, no_bytes s, linked_no_bytes (linked k s), (k, refl, r))
      by_size (suc zero) ne fits = absurd (ne refl)
      by_size (suc (suc i)) ne fits = elim (Bool-cases (leb (suc (suc i)) max_block_size)) [
        | inl e ↦ small-AllocRefined n owner s held o k r (suc (suc i)) (omega arith) (ground arith)
        | inr e ↦ large-AllocRefined n owner s held o k r (suc (suc i)) (ground arith) fits
      ]

  -- From a sound state with the pointers of its lists, a held block is given back by pointers as by
  -- lists, and the pointers afterwards are those of the lists afterwards; every loop over pointers ends.
  pub free-FreeRefined :
      (before : List Allocation) (h : Allocation) (after : List Allocation)
      → IsSound n owner s (before ++ h ∷ after)
      → Represents l s
      → FreeRefined h.ptr l s
  free-FreeRefined before h after o (k, same, r) =
      subst (λ x. FreeRefined h.ptr x s) (sym same)
        (by_kind (Every_middle _ before h after o.granted).0)
    where
      unused : (c : ℕ) → c < bucket_count → IsNew h.ptr (bucket c s)
      unused c lt =
          Every-weaken _ _ (bucket c s)
            (λ x u e.
              (Every_middle (λ y. y ≢ x) (pointers before) h.ptr (pointers after)
                  (subst (IsNew x) (map-append _ before (h ∷ after)) u)).0
                (sym e))
            (o.blocks_unused c lt)

      by_kind : IsGranted owner s.initial_memory n s.page_infos h → FreeRefined h.ptr (linked k s) s
      by_kind (small b block fits) =
          small-FreeRefined n owner s (before ++ h ∷ after) o k r h b unused block
      by_kind (large pages) = large-FreeRefined n owner s before h after o k r pages
