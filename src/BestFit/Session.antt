-- ===== src/BestFit/Session.antt =====
-- Histories of calls of the allocator of Labs/CP/src/list_of_free_blocks.cpp, by a client that frees
-- only pointers that it holds.
use mathlib.Core.List.{
  Mem, Perm, perm_middle, not-mem-nil, mem-cons, mem-append_right, mem-cons_self,
}
use mathlib.Core.List.Perm
use mathlib.Core.Logic.Or
use mathlib.Core.Logic.{∥∥₁_prop}
use mai_os_labs.Prelude.{
  ℕ, zero, suc, ◌+◌, ◌≤◌, ◌<◌, ◌≡◌, ◌≢◌, inl, inr, refl, sym, ap, subst, ◌∙◌, true, false, Bool,
  List, [], ◌∷◌, ◌++◌, some, arith, word, Bool-cases, ℕ_discrete,
}
use mai_os_labs.BestFit.{BestFitAllocator, alloc, aligned_size, free, header_size}
use mai_os_labs.BestFit.Segments.{Block, end_of, total}
use mai_os_labs.BestFit.Blocks.{used, unused, given, remainder, join, settle, Settled}
use mai_os_labs.BestFit.State.{IsValid}
use mai_os_labs.BestFit.Alloc.{
  Allocated, refused, placed, alloc-Allocated, alloc-zero, block_bounds, block_room,
}
use mai_os_labs.BestFit.Free.{free-IsValid, free_block}

-- A client's calls: what it holds afterwards, newest first.
pub data Session (s₀ : BestFitAllocator) : BestFitAllocator → List ℕ → Type 0 where
  start : Session s₀ s₀ []
  refused_alloc :
      {s s' : BestFitAllocator} {live : List ℕ} (size : ℕ)
      → Session s₀ s live
      → size + 39 < word
      → alloc s size ≡ some (0, s')
      → Session s₀ s' live
  granted_alloc :
      {s s' : BestFitAllocator} {live : List ℕ} (size ptr : ℕ)
      → Session s₀ s live
      → size + 39 < word
      → alloc s size ≡ some (ptr, s')
      → ptr ≢ 0
      → Session s₀ s' (ptr ∷ live)
  freed :
      {s : BestFitAllocator} (before : List ℕ) (ptr : ℕ) (after : List ℕ) {live : List ℕ}
      → Session s₀ s live
      → live ≡ before ++ ptr ∷ after
      → Session s₀ (free s ptr) (before ++ after)
  freed_null :
      {s : BestFitAllocator} {live : List ℕ} → Session s₀ s live → Session s₀ (free s 0) live

-- The pointers to the blocks in use.
abbrev pub used_pointers : ℕ → List Block → List ℕ
used_pointers a [] = []
used_pointers a (b ∷ bs) = elim b.is_free [
  | true ↦ used_pointers (a + b.size) bs
  | false ↦ (a + header_size) ∷ used_pointers (a + b.size) bs
]

used_pointers-append :
    (a : ℕ) (xs ys : List Block)
    → used_pointers a (xs ++ ys) ≡ used_pointers a xs ++ used_pointers (end_of a xs) ys
used_pointers-append a [] ys = refl
used_pointers-append a (x ∷ xs) ys = elim (Bool-cases x.is_free) [
  | inl fr ↦ rw fr (used_pointers-append (a + x.size) xs ys)
  | inr us ↦ rw us (ap (◌∷◌ (a + header_size)) (used_pointers-append (a + x.size) xs ys))
]

used_pointers-join :
    (a : ℕ) (b : Block) (bs : List Block) → used_pointers a (join b bs) ≡ used_pointers a (b ∷ bs)
used_pointers-join a b [] = refl
used_pointers-join a b (c ∷ bs) = ground arith

used_pointers-settle : (a : ℕ) (bs : List Block) → used_pointers a (settle bs) ≡ used_pointers a bs
unfolding settle
used_pointers-settle a [] = refl
used_pointers-settle a (b ∷ bs) =
    used_pointers-join a b (settle bs) ∙ ground (arith, used_pointers-settle (a + b.size) bs)

used_pointers-remainder :
    (a wanted n : ℕ) (ys : List Block)
    → wanted ≤ n
    → used_pointers (a + given wanted n) (remainder wanted n ++ ys) ≡ used_pointers (a + n) ys
unfolding given remainder
used_pointers-remainder a wanted n ys fits = ground arith

-- The block in use that a pointer names.
find_used :
    (a ptr : ℕ) (bs : List Block)
    → Mem ptr (used_pointers a bs)
    → (xs : List Block) × (n : ℕ) × (ys : List Block) × (bs ≡ xs ++ used n ∷ ys)
      × (ptr ≡ end_of a xs + header_size)
find_used a ptr [] m = absurd (not-mem-nil m)
find_used a ptr (b ∷ bs) m = elim (Bool-cases b.is_free) [
  | inl fr ↦
      let (xs, n, ys, e, at) = find_used (a + b.size) ptr bs (rw fr at m) in
      (b ∷ xs, n, ys, ap (◌∷◌ b) e, at)
  | inr us ↦ elim (ℕ_discrete ptr (a + header_size)) [
    | yes here ↦ ([], b.size, bs, ground arith, here)
    | no further ↦
        let (xs, n, ys, e, at) =
          find_used (a + b.size) ptr bs
            (Or.elim ∥∥₁_prop (mem-cons.0 (rw us at m)) (λ here. absurd (further here)) (λ r. r)) in
        (b ∷ xs, n, ys, ap (◌∷◌ b) e, at)
  ]
]

used_pointers-given :
    (a : ℕ) (xs : List Block) (wanted n : ℕ) (ys : List Block)
    → wanted ≤ n
    → used_pointers a (xs ++ used (given wanted n) ∷ (remainder wanted n ++ ys))
      ≡ used_pointers a xs ++ (end_of a xs + header_size) ∷ used_pointers (end_of a xs + n) ys
used_pointers-given a xs wanted n ys fits =
    used_pointers-append a xs _
    ∙ ap (λ l. used_pointers a xs ++ (end_of a xs + header_size) ∷ l)
        (used_pointers-remainder (end_of a xs) wanted n ys fits)

-- The allocator is valid, and the blocks in use are those whose pointers the client holds.
pub record IsHeld (s : BestFitAllocator) (live : List ℕ) (bs : List Block) : Type 0 where
  pub valid : IsValid s bs
  pub held : Perm live (used_pointers s.head bs)

pub granted-IsHeld :
    (s s' : BestFitAllocator) (live : List ℕ) (bs : List Block) (size ptr : ℕ)
    → IsHeld s live bs
    → 0 < size
    → size + 39 < word
    → alloc s size ≡ some (ptr, s')
    → ptr ≢ 0
    → (bs' : List Block) × IsHeld s' (ptr ∷ live) bs'
granted-IsHeld s s' live bs size ptr i pos small e ne =
    go (alloc-Allocated s bs size i.valid pos small)
  where
    go :
        Allocated s bs (aligned_size size) (alloc s size)
        → (bs' : List Block) × IsHeld s' (ptr ∷ live) bs'
    go (refused e' none) = absurd (ground arith)
    go (placed xs n ys t eq best e' same_head v') =
        let pointer : ptr ≡ end_of s.head xs + header_size = cc in
        let state : s' ≡ t = cc in
        let old = ap (used_pointers s.head) eq ∙ used_pointers-append s.head xs (unused n ∷ ys) in
        let new = used_pointers-given s.head xs (aligned_size size) n ys best.large in
        (
          xs ++ used (given (aligned_size size) n) ∷ (remainder (aligned_size size) n ++ ys),
          rw state (record {
            valid = v';
            held =
                rw (same_head, new, pointer)
                  (Perm.trans (Perm.cons _ (rw old at i.held)) (Perm.symm (perm_middle _ _)));
          }),
        )

pub freed-IsHeld :
    (s : BestFitAllocator) (before : List ℕ) (ptr : ℕ) (after : List ℕ) (bs : List Block)
    → IsHeld s (before ++ ptr ∷ after) bs
    → (bs' : List Block) × IsHeld (free s ptr) (before ++ after) bs'
freed-IsHeld s before ptr after bs i =
    let (xs, n, ys, e, at) =
      find_used s.head ptr bs ((Perm.mem_iff i.held).0 (mem-append_right before mem-cons_self)) in
    let v = subst (IsValid s) e i.valid in
    let old = ap (used_pointers s.head) e ∙ used_pointers-append s.head xs (used n ∷ ys) in
    let new =
      used_pointers-settle s.head (xs ++ unused n ∷ ys)
      ∙ used_pointers-append s.head xs (unused n ∷ ys) in
    let room = block_bounds s bs i.valid xs (used n) ys e in
    let small : end_of s.head xs + header_size < word =
      omega (arith, room, block_room s bs i.valid xs (used n) ys e, i.valid.inside) in
    let same_head = ap (λ t. t.head) (free_block s (end_of s.head xs) small) in
    (
      settle (xs ++ unused n ∷ ys),
      rw at (record {
        valid = free-IsValid s xs n ys v;
        held =
            rw (same_head, new)
              (Perm.cons_inv (
                Perm.trans (Perm.symm (perm_middle before after))
                  (Perm.trans (rw (old, at) at i.held) (perm_middle _ _))));
      }),
    )

pub refused_same :
    (s s' : BestFitAllocator) (bs : List Block) (size : ℕ)
    → IsValid s bs
    → size + 39 < word
    → alloc s size ≡ some (0, s')
    → s ≡ s'
refused_same s s' bs zero v small e = ground (arith, alloc-zero s)
refused_same s s' bs (suc size) v small e =
    go (alloc-Allocated s bs (suc size) v (omega arith) small)
  where
    go : Allocated s bs (aligned_size (suc size)) (alloc s (suc size)) → s ≡ s'
    go (refused e' none) = cc
    go (placed xs n ys t eq best e' same_head v') = absurd (ground arith)

-- From a valid allocator with no block in use on, whatever the calls of a client that frees only
-- what it holds or `nullptr`, and whose requests do not wrap around, the allocator stays valid, and
-- the blocks in use are those whose pointers the client holds.
pub Session-IsHeld :
    {s₀ s : BestFitAllocator} {live : List ℕ} (bs : List Block)
    → IsHeld s₀ [] bs
    → Session s₀ s live
    → (bs' : List Block) × IsHeld s live bs'
unfolding free
Session-IsHeld bs i start = (bs, i)
Session-IsHeld bs i (refused_alloc {s} {s'} {live} size h small e) =
    let (bs', i') = Session-IsHeld bs i h in
    (bs', subst (λ t. IsHeld t live bs') (refused_same s s' bs' size i'.valid small e) i')
Session-IsHeld bs i (granted_alloc {s} {s'} {live} zero ptr h small e ne) =
    absurd (ground (arith, alloc-zero s))
Session-IsHeld bs i (granted_alloc {s} {s'} {live} (suc size) ptr h small e ne) =
    let (bs', i') = Session-IsHeld bs i h in
    granted-IsHeld s s' live bs' (suc size) ptr i' (omega arith) small e ne
Session-IsHeld bs i (freed {s} before ptr after h e) =
    let (bs', i') = Session-IsHeld bs i h in
    freed-IsHeld s before ptr after bs' (subst (λ l. IsHeld s l bs') e i')
Session-IsHeld bs i (freed_null {s} h) = let (bs', i') = Session-IsHeld bs i h in (bs', i')

all_unused :
    (a : ℕ) (f : Bool) (bs : List Block)
    → 0 < total bs
    → Settled f bs
    → used_pointers a bs ≡ []
    → bs ≡ unused (total bs) ∷ []
all_unused a f [] pos s e = absurd (omega arith)
all_unused a f (b ∷ []) pos s e = ground arith
all_unused a f (b ∷ c ∷ bs) pos s e = ground arith

pub IsHeld-nothing :
    (s : BestFitAllocator) (bs : List Block) → IsHeld s [] bs → IsValid s (unused s.total_size ∷ [])
IsHeld-nothing s bs i =
    let e =
      all_unused s.head false bs (omega (arith, i.valid.whole, i.valid.some_size)) i.valid.settled
        (sym (Perm.nil-eq i.held)) in
    rw (ap (λ k. unused k ∷ []) i.valid.whole) at (rw e at i.valid)

-- From a valid allocator with no block in use on, such a client that has freed all that it was
-- given leaves one free block of the whole mapping: no memory is lost, and none stays split.
pub Session-all_freed :
    {s₀ s : BestFitAllocator} (bs : List Block)
    → IsHeld s₀ [] bs
    → Session s₀ s []
    → IsValid s (unused s.total_size ∷ [])
Session-all_freed {s₀} {s} bs i h = let (bs', i') = Session-IsHeld bs i h in IsHeld-nothing s bs' i'
