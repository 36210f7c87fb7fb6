-- ===== src/BestFit/Taken.antt =====
-- The blocks in use of the allocator of Labs/CP/src/list_of_free_blocks.cpp with their sizes, and what
-- of them a client has asked for.
use mathlib.Core.List.{Perm, Permᴰ, perm_middle, mem-cons_self}
use mathlib.Core.List.Perm
use mai_os_labs.Prelude.{
  ℕ, ◌+◌, ◌≤◌, ◌<◌, ◌≡◌, ◌≢◌, refl, ap, subst, ◌∙◌, List, [], ◌∷◌, ◌++◌, some, arith, word,
}
use mai_os_labs.BestFit.{BestFitAllocator, alloc, aligned_size, free, header_size}
use mai_os_labs.BestFit.Segments.{Block, end_of, total, total-append}
use mai_os_labs.BestFit.Blocks.{used, unused, given, remainder, settle}
use mai_os_labs.BestFit.State.{IsValid}
use mai_os_labs.BestFit.Alloc.{
  Allocated, refused, placed, alloc-Allocated, block_bounds, block_room, aligned_size_bounds,
}
use mai_os_labs.BestFit.Free.{free-IsValid, free_block}
use mai_os_labs.Usage.{Allocation}
use mai_os_labs.BestFit.InUse.{
  block_at, used_blocks, used_blocks-append, used_blocks-settle, find_used, used_blocks-given,
  given_large, Fits,
}

-- The allocator is valid, and the blocks in use are what the client asked for.
pub record IsTaken (s : BestFitAllocator) (held : List Allocation) (bs : List Block)
    (taken : List Allocation) : Type 0 where
  pub valid : IsValid s bs
  pub exact : Perm taken (used_blocks s.head bs)
  pub fits : Fits held taken

pub granted-IsTaken :
    (s s' : BestFitAllocator) (held : List Allocation) (bs : List Block) (taken : List Allocation)
    (size ptr : ℕ)
    → IsTaken s held bs taken
    → 0 < size
    → size + 39 < word
    → alloc s size ≡ some (ptr, s')
    → ptr ≢ 0
    → (bs' : List Block) × (taken' : List Allocation) × IsTaken s'
        (record { ptr = ptr; size = size } ∷ held)
        bs'
        taken'
granted-IsTaken s s' held bs taken size ptr i pos small e ne =
    go (alloc-Allocated s bs size i.valid pos small)
  where
    go :
        Allocated s bs (aligned_size size) (alloc s size)
        → (bs' : List Block) × (taken' : List Allocation) × IsTaken s'
            (record { ptr = ptr; size = size } ∷ held)
            bs'
            taken'
    go (refused e' none) = absurd (ground arith)
    go (placed xs n ys t eq best e' same_head v') =
        let pointer : ptr ≡ end_of s.head xs + header_size = cc in
        let state : s' ≡ t = cc in
        let wanted = aligned_size size in
        let old = ap (used_blocks s.head) eq ∙ used_blocks-append s.head xs (unused n ∷ ys) in
        let new = used_blocks-given s.head xs wanted n ys best.large in
        let block = block_at (end_of s.head xs) (given wanted n) in
        (
          xs ++ used (given wanted n) ∷ (remainder wanted n ++ ys),
          block ∷ taken,
          rw state (record {
            valid = v';
            exact =
                rw (same_head, new)
                  (Perm.trans (Perm.cons _ (rw old at i.exact)) (Perm.symm (perm_middle _ _)));
            fits = (
              pointer,
              omega (arith, (aligned_size_bounds size small).0, given_large wanted n best.large),
              i.fits,
            );
          }),
        )

pub freed-IsTaken :
    (s : BestFitAllocator) (h : Allocation) (held : List Allocation) (bs : List Block)
    (t : Allocation) (taken : List Allocation)
    → IsTaken s (h ∷ held) bs (t ∷ taken)
    → (bs' : List Block) × IsTaken (free s h.ptr) held bs' taken
freed-IsTaken s h held bs t taken i =
    let (same, low, fits) = i.fits in
    let (xs, ys, e, at) = find_used s.head t bs ((Perm.mem_iff i.exact).0 mem-cons_self) in
    let v = subst (IsValid s) e i.valid in
    let old = ap (used_blocks s.head) e ∙ used_blocks-append s.head xs (used t.size ∷ ys) in
    let new =
      used_blocks-settle s.head (xs ++ unused t.size ∷ ys)
      ∙ used_blocks-append s.head xs (unused t.size ∷ ys) in
    let room = block_bounds s bs i.valid xs (used t.size) ys e in
    let small : end_of s.head xs + header_size < word =
      omega (arith, room, block_room s bs i.valid xs (used t.size) ys e, i.valid.inside) in
    let same_head = ap (λ r. r.head) (free_block s (end_of s.head xs) small) in
    let block : t ≡ block_at (end_of s.head xs) t.size =
      ap (λ p. record { ptr = p; size = t.size }) at in
    (
      settle (xs ++ unused t.size ∷ ys),
      rw (same ∙ at) (record {
        valid = free-IsValid s xs t.size ys v;
        exact =
            rw (same_head, new)
              (Perm.cons_inv (Perm.trans (rw (old, block) at i.exact) (perm_middle _ _)));
        fits = fits;
      }),
    )

-- The blocks change places with the requests.
pub Fits-perm :
    {hs hs' : List Allocation} (ts : List Allocation)
    → Permᴰ hs hs'
    → Fits hs ts
    → (ts' : List Allocation) × Permᴰ ts ts' × Fits hs' ts'
Fits-perm [] Permᴰ.nil f = ([], Permᴰ.nil, tt)
Fits-perm (t ∷ ts) Permᴰ.nil f = absurd f
Fits-perm [] (Permᴰ.cons e d) f = absurd f
Fits-perm (t ∷ ts) (Permᴰ.cons e d) (same, low, f) =
    let (ts', d', f') = Fits-perm ts d f in
    (
      t ∷ ts',
      Permᴰ.cons refl d',
      (subst (λ h. h.ptr ≡ t.ptr) e same, subst (λ h. h.size + header_size ≤ t.size) e low, f'),
    )
Fits-perm [] (Permᴰ.swap e e') f = absurd f
Fits-perm (t ∷ []) (Permᴰ.swap e e') (same, low, f) = absurd f
Fits-perm (t ∷ u ∷ ts) (Permᴰ.swap e e') (same, low, (same', low', f)) = (
  u ∷ t ∷ ts,
  Permᴰ.swap refl refl,
  (
    subst (λ h. h.ptr ≡ u.ptr) e' same',
    subst (λ h. h.size + header_size ≤ u.size) e' low',
    (subst (λ h. h.ptr ≡ t.ptr) e same, subst (λ h. h.size + header_size ≤ t.size) e low, f),
  ),
)
Fits-perm ts (Permᴰ.trans c d) f =
    let (ts', c', f') = Fits-perm ts c f in
    let (ts'', d', f'') = Fits-perm ts' d f' in (ts'', Permᴰ.trans c' d', f'')

total-remainder :
    (wanted n : ℕ) (ys : List Block)
    → wanted ≤ n
    → given wanted n + total (remainder wanted n ++ ys) ≡ n + total ys
unfolding given remainder
total-remainder wanted n ys fits = ground arith

-- Neither operation changes the size of the mapping.
pub alloc-total_size :
    (s t : BestFitAllocator) (bs : List Block) (size ptr : ℕ)
    → IsValid s bs
    → 0 < size
    → size + 39 < word
    → alloc s size ≡ some (ptr, t)
    → t.total_size ≡ s.total_size
alloc-total_size s t bs size ptr v pos small e = go (alloc-Allocated s bs size v pos small)
  where
    go : Allocated s bs (aligned_size size) (alloc s size) → t.total_size ≡ s.total_size
    go (refused e' none) =
        let state : t ≡ s = cc in ap (λ (r : BestFitAllocator). r.total_size) state
    go (placed xs n ys u eq best e' same_head v') =
        let state : t ≡ u = cc in
        let split : total
              (xs ++ used (given (aligned_size size) n) ∷ (remainder (aligned_size size) n ++ ys))
            ≡ total bs =
          rw eq (
            omega (
              arith,
              total-append xs
                  (used (given (aligned_size size) n) ∷ (remainder (aligned_size size) n ++ ys)),
              total-append xs (unused n ∷ ys),
              total-remainder (aligned_size size) n ys best.large,
            )) in
        rw state (omega (arith, v.whole, v'.whole, split))

pub free-total_size : (s : BestFitAllocator) (ptr : ℕ) → (free s ptr).total_size ≡ s.total_size
unfolding free
free-total_size s ptr = ground arith
