-- ===== src/McKusick/Linked/Refill.antt =====
-- `split_page` of Labs/CP/src/Mckusey-Carels.cpp by pointers.
use mai_os_labs.Prelude.{
  ℕ, zero, suc, ◌/◌, ◌<◌, ◌≡◌, ◌≢◌, refl, sym, ap, subst, ◌∙◌, List, [], ◌∷◌, some, arith, length,
  sub64,
}
use mai_os_labs.McKusick.{McKusickAllocator, page_size, bucket_count, blocks_from}
use mai_os_labs.McKusick.Ownership.{
  Owners, Allocation, block_size, Every, IsNew, IsBlock, bucket, IsSound, Every-weaken, bucket_set,
  one_bucket, get_or-set_self, get_or-set_other, block_size_pos,
}
use mai_os_labs.McKusick.Layout.{IsRising}
use mai_os_labs.McKusick.Ownership.Moves.{bucket_of_block}
use mai_os_labs.McKusick.Ownership.SmallAlloc.{
  refilled, page_blocks, in_bucket, split_owner, IsSound-refilled,
}
use mai_os_labs.McKusick.Linked.{Linked, write, take_first}
use mai_os_labs.McKusick.Linked
use mai_os_labs.McKusick.Linked.Chain.{
  Chain, write_self, write_other, Chain-kept, linked_cells, linked_outside, linked-Chain,
}
use mai_os_labs.McKusick.Linked.Spelling.{Links, linked, Spells, page_pointers}

blocks_count :
    (b : ℕ) → b < bucket_count → suc (sub64 (page_size / block_size b) 1) ≡ page_size / block_size b
blocks_count zero h = refl
blocks_count (suc zero) h = refl
blocks_count (suc (suc zero)) h = refl
blocks_count (suc (suc (suc zero))) h = refl
blocks_count (suc (suc (suc (suc zero)))) h = refl
blocks_count (suc (suc (suc (suc (suc zero))))) h = refl
blocks_count (suc (suc (suc (suc (suc (suc zero)))))) h = refl
blocks_count (suc (suc (suc (suc (suc (suc (suc zero))))))) h = refl
blocks_count (suc (suc (suc (suc (suc (suc (suc (suc b)))))))) h = absurd (omega arith)

-- The pointers after the page at `a` was split for the bucket `b`.
abbrev pub split_links : ℕ → ℕ → Links → Links
split_links b a k = record k {
  heads = write k.heads b a;
  block_next =
      linked_cells (sub64 (page_size / block_size b) 1) a (block_size b) (k.heads b) k.block_next;
  first = k.page_next k.first;
}

module _ (n : ℕ) (owner : Owners) (s : McKusickAllocator) (held : List Allocation)
    (o : IsSound n owner s held) (k : Links) (r : Spells k s) (b page : ℕ) (rest : List ℕ)
    (inside : b < bucket_count) (empty : bucket b s ≡ [])
    (first : s.free_page_info ≡ page ∷ rest) where
  abbrev address : ℕ
  address = (s.page_infos page).page_addr

  abbrev t : McKusickAllocator
  t = refilled page b rest s

  abbrev sound : IsSound n (split_owner page b owner) t held
  sound = IsSound-refilled n owner s held o b page rest inside empty first

  abbrev at_first : Chain k.page_next k.first (page_pointers (page ∷ rest))
  at_first = subst (λ l. Chain k.page_next k.first (page_pointers l)) first r.pages

  pub split_page-linked :
      Linked.split_page k.first (block_size b) (linked (record k { first = k.page_next k.first }) s)
      ≡ some (linked (split_links b address k) t)
  unfolding Linked.split_page
  split_page-linked = rw (Linked.split_page, bucket_of_block b inside, at_first.0) refl

  room : b < length s.freelistarr
  room = subst (λ m. b < m) (sym o.buckets) inside

  pub full_bucket : bucket b t ≡ page_blocks page b s
  full_bucket =
      get_or-set_self s.freelistarr b _ room
      ∙ sym (in_bucket n owner s held o b page rest inside empty first)

  -- No block of another bucket lies in the page.
  others :
      (c : ℕ) → c ≢ b → c < bucket_count → Every (λ x. IsNew x (page_blocks page b s)) (bucket c s)
  others c ne h =
      Every-weaken (IsBlock (split_owner page b owner) s.initial_memory n c) _ (bucket c s)
        (λ x x_block.
          Every-weaken (IsBlock (split_owner page b owner) s.initial_memory n b) (λ y. y ≢ x) _
            (λ y y_block e. ne (
              one_bucket (split_owner page b owner) s.initial_memory n c b x x_block
                (subst (IsBlock (split_owner page b owner) s.initial_memory n b) e y_block)))
            (subst (Every (IsBlock (split_owner page b owner) s.initial_memory n b)) full_bucket
              (sound.blocks b inside)))
        (subst (Every (IsBlock (split_owner page b owner) s.initial_memory n c))
          (get_or-set_other s.freelistarr b c _ ne) (sound.blocks c h))

  abbrev cells : ℕ → ℕ
  cells = (split_links b address k).block_next

  same_blocks :
      blocks_from (suc (sub64 (page_size / block_size b) 1)) address (block_size b)
      ≡ page_blocks page b s
  same_blocks = ap (λ m. blocks_from m address (block_size b)) (blocks_count b inside)

  cell_kept : (x : ℕ) → IsNew x (page_blocks page b s) → cells x ≡ k.block_next x
  cell_kept x new =
      linked_outside (sub64 (page_size / block_size b) 1) address (block_size b) (k.heads b)
        k.block_next x (subst (IsNew x) (sym same_blocks) new)

  address_pos : 0 < address
  address_pos =
      let (low, inside_n, rising) = subst (IsRising 0 n) first o.laid.rising in
      omega (arith, o.laid.in_order page inside_n, o.laid.not_null)

  at_bucket : Chain cells (write k.heads b address b) (page_blocks page b s)
  at_bucket =
      subst (λ p. Chain cells p (page_blocks page b s)) (sym (write_self k.heads b address))
        (subst (Chain cells address) same_blocks (
          subst
            (λ h.
              Chain
                (linked_cells (sub64 (page_size / block_size b) 1) address (block_size b) h
                  k.block_next)
                address
                (blocks_from (suc (sub64 (page_size / block_size b) 1)) address (block_size b)))
            (sym (subst (Chain k.block_next (k.heads b)) empty (r.blocks b inside)))
            (linked-Chain (sub64 (page_size / block_size b) 1) address (block_size b) k.block_next
              address_pos (block_size_pos b))))

  pub split-Spells : Spells (split_links b address k) t
  split-Spells = record {
    blocks =
        bucket_set (λ c. Chain cells (write k.heads b address c)) s.freelistarr b _ room
          (subst (Chain cells (write k.heads b address b))
            (in_bucket n owner s held o b page rest inside empty first) at_bucket)
          λ c ne h.
            subst (λ p. Chain cells p (bucket c s)) (sym (write_other k.heads b address c ne))
              (Chain-kept k.block_next cells (k.heads c) (bucket c s)
                (Every-weaken _ _ (bucket c s) cell_kept (others c ne h)) (r.blocks c h));
    pages =
        subst (λ p. Chain k.page_next (k.page_next p) (page_pointers rest)) (sym at_first.0)
          at_first.2;
  }
