-- ===== src/McKusick/Ownership/Moves.antt =====
-- A block goes from its bucket to the client, and back: the last steps of `alloc` and `free` of
-- Labs/CP/src/Mckusey-Carels.cpp on blocks up to a page.
use mathlib.Core.List.{map-append}
use mai_os_labs.Prelude.{
  ℕ, zero, suc, ◌*◌, ◌<◌, ◌≤◌, ◌≡◌, ◌≢◌, refl, sym, ap, subst, ◌∙◌, List, [], ◌∷◌, ◌++◌, some,
  arith, set, length, length-set,
}
use mai_os_labs.McKusick.{
  McKusickAllocator, page_size, bucket_count, max_block_size, get_bucket_index, free,
  find_page_info,
}
use mai_os_labs.McKusick.Buckets.{find_page_info_inside}
use mai_os_labs.McKusick.Blocks.{pushed, free_small}
use mai_os_labs.McKusick.Layout.{IsLaid}
use mai_os_labs.McKusick.Ownership.{
  Owners, Allocation, block_size, Every, IsNew, AreDistinct, IsBlock, small, pointers, bucket,
  IsSound, Every-weaken, Every_middle, AreDistinct-middle, bucket_set, block_size_pos, one_bucket,
}

pub Every-both :
    (P Q R : ℕ → Type 0) (l : List ℕ)
    → Every P l
    → Every Q l
    → ((x : ℕ) → P x → Q x → R x)
    → Every R l
Every-both P Q R [] p q f = tt
Every-both P Q R (x ∷ l) (h, p) (k, q) f = (f x h k, Every-both P Q R l p q f)

IsNew-both :
    (x : ℕ) (ptrs l : List ℕ)
    → IsNew x l
    → Every (λ y. IsNew y ptrs) l
    → Every (λ y. IsNew y (x ∷ ptrs)) l
IsNew-both x ptrs l new unused =
    Every-both _ _ _ l new unused λ y ne unused_y. (λ e. ne (sym e), unused_y)

pub bucket_of_block : (b : ℕ) → b < bucket_count → get_bucket_index (block_size b) ≡ some b
unfolding get_bucket_index
bucket_of_block zero h = refl
bucket_of_block (suc zero) h = refl
bucket_of_block (suc (suc zero)) h = refl
bucket_of_block (suc (suc (suc zero))) h = refl
bucket_of_block (suc (suc (suc (suc zero)))) h = refl
bucket_of_block (suc (suc (suc (suc (suc zero))))) h = refl
bucket_of_block (suc (suc (suc (suc (suc (suc zero)))))) h = refl
bucket_of_block (suc (suc (suc (suc (suc (suc (suc zero))))))) h = refl
bucket_of_block (suc (suc (suc (suc (suc (suc (suc (suc b)))))))) h = absurd (omega arith)

abbrev pub with_buckets : List (List ℕ) → McKusickAllocator → McKusickAllocator
with_buckets arr s = record s { freelistarr = arr }

pub IsLaid-with_buckets :
    (n : ℕ) (s : McKusickAllocator) (arr : List (List ℕ))
    → IsLaid n s
    → IsLaid n (with_buckets arr s)
IsLaid-with_buckets n s arr l = record {
  count = l.count;
  not_null = l.not_null;
  aligned = l.aligned;
  inside = l.inside;
  in_order = l.in_order;
  rising = l.rising;
  blank = l.blank;
}

module _ (n : ℕ) (owner : Owners) (s : McKusickAllocator) where
  -- The first block of a bucket is taken.
  pub IsSound-pop :
      (held : List Allocation) (b size x : ℕ) (rest : List ℕ)
      → IsSound n owner s held
      → b < bucket_count
      → size ≤ block_size b
      → bucket b s ≡ x ∷ rest
      → IsSound n owner
          (with_buckets (set s.freelistarr b rest) s)
          (record { ptr = x; size = size } ∷ held)
  IsSound-pop held b size x rest o inside fits e =
      let room : b < length s.freelistarr = subst (λ k. b < k) (sym o.buckets) inside in
      let (block, blocks) =
        subst (Every (IsBlock owner s.initial_memory n b)) e (o.blocks b inside) in
      let (new, apart) = subst AreDistinct e (o.blocks_apart b inside) in
      let (unused, unused') =
        subst (Every λ y. IsNew y (pointers held)) e (o.blocks_unused b inside) in
      record {
        laid = IsLaid-with_buckets n s _ o.laid;
        unowned = o.unowned;
        sizes = o.sizes;
        granted = (small b block fits, o.granted);
        held_apart = (unused, o.held_apart);
        buckets = length-set s.freelistarr b rest ∙ o.buckets;
        blocks =
            bucket_set (λ c. Every (IsBlock owner s.initial_memory n c)) s.freelistarr b rest room
              blocks (λ c ne h. o.blocks c h);
        blocks_apart =
            bucket_set (λ c. AreDistinct) s.freelistarr b rest room apart
              (λ c ne h. o.blocks_apart c h);
        blocks_unused =
            bucket_set (λ c. Every λ y. IsNew y (x ∷ pointers held)) s.freelistarr b rest room
              (IsNew-both x (pointers held) rest new unused')
              λ c ne h.
                Every-both _ _ _ (bucket c s) (o.blocks c h) (o.blocks_unused c h) λ y k unused_y. (
                  λ same. ne (
                      sym (
                        one_bucket owner s.initial_memory n b c y
                          (subst (IsBlock owner s.initial_memory n b) same block) k)),
                  unused_y,
                );
      }

  -- A block goes back.
  pub IsSound-pushed :
      (before : List Allocation) (h : Allocation) (after : List Allocation) (b : ℕ)
      → IsSound n owner s (before ++ h ∷ after)
      → b < bucket_count
      → IsBlock owner s.initial_memory n b h.ptr
      → IsSound n owner (pushed h.ptr b s) (before ++ after)
  IsSound-pushed before h after b o inside block =
      let room : b < length s.freelistarr = subst (λ k. b < k) (sym o.buckets) inside in
      let held : List ℕ = pointers before ++ pointers after in
      let split : pointers (before ++ h ∷ after) ≡ pointers before ++ h.ptr ∷ pointers after =
        map-append _ before (h ∷ after) in
      let joined : held ≡ pointers (before ++ after) = sym (map-append _ before after) in
      let (new, apart) =
        AreDistinct-middle (pointers before) h.ptr (pointers after)
          (subst AreDistinct split o.held_apart) in
      let unused : (c : ℕ)
          → c < bucket_count
          → Every (λ x. (h.ptr ≢ x) × IsNew x held) (bucket c s) =
        λ c lt.
          Every-weaken _ _ (bucket c s)
            (λ x k.
              Every_middle (λ y. y ≢ x) (pointers before) h.ptr (pointers after)
                (subst (IsNew x) split k))
            (o.blocks_unused c lt) in
      record {
        laid = IsLaid-with_buckets n s _ o.laid;
        unowned = o.unowned;
        sizes = o.sizes;
        granted = (Every_middle _ before h after o.granted).1;
        held_apart = subst AreDistinct joined apart;
        buckets = length-set s.freelistarr b _ ∙ o.buckets;
        blocks =
            bucket_set (λ c. Every (IsBlock owner s.initial_memory n c)) s.freelistarr b _ room
              (block, o.blocks b inside) (λ c ne lt. o.blocks c lt);
        blocks_apart =
            bucket_set (λ c. AreDistinct) s.freelistarr b _ room
              (
                Every-weaken _ _ (bucket b s) (λ x k e. k.0 (sym e)) (unused b inside),
                o.blocks_apart b inside,
              )
              (λ c ne lt. o.blocks_apart c lt);
        blocks_unused =
            bucket_set (λ c. Every λ x. IsNew x (pointers (before ++ after))) s.freelistarr b _ room
              (
                subst (IsNew h.ptr) joined new,
                Every-weaken _ _ (bucket b s) (λ x k. subst (IsNew x) joined k.1) (unused b inside),
              )
              λ c ne lt.
                Every-weaken _ _ (bucket c s) (λ x k. subst (IsNew x) joined k.1) (unused c lt);
      }

  pub found_page :
      (held : List Allocation) (b ptr : ℕ)
      → IsSound n owner s held
      → (block : IsBlock owner s.initial_memory n b ptr) → find_page_info ptr s ≡ some block.page
  found_page held b ptr o block =
      let offset : block.place * block_size b < page_size =
        omega (arith, block.fits, block_size_pos b) in
      subst (λ a. find_page_info a s ≡ some block.page) (sym block.address)
        (find_page_info_inside s n block.page _ o.laid.count o.laid.aligned o.laid.inside
          block.page_inside offset)

  -- `free` of a small block puts it back.
  pub free_held_block :
      (held : List Allocation) (b ptr : ℕ)
      → IsSound n owner s held
      → IsBlock owner s.initial_memory n b ptr
      → (b < bucket_count) × (free ptr s ≡ some (pushed ptr b s))
  free_held_block held b ptr o block =
      let (size, inside) = o.sizes block.page b block.page_inside block.owned in
      let not_null = o.laid.not_null in
      let address = block.address in
      let low : block_size b ≤ max_block_size = omega (arith, block.fits) in
      (
        inside,
        free_small s ptr block.page b (λ e. absurd (omega arith)) (found_page held b ptr o block)
            (subst (λ k. k ≤ max_block_size) (sym size) low)
            (ap get_bucket_index size ∙ bucket_of_block b inside),
      )
