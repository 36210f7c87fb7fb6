-- ===== src/McKusick/Linked/Histories.antt =====
-- Histories of calls of the allocator of Labs/CP/src/Mckusey-Carels.cpp by pointers, whose client also
-- writes to the blocks that it holds.
use mathlib.Core.Option.{some-injective, none-ne-some}
use mai_os_labs.Prelude.{
  ℕ, zero, suc, ◌+◌, ◌≤◌, ◌≡◌, ◌≢◌, ◌⊎◌, inl, inr, refl, sym, ap, subst, ◌∙◌, List, [], ◌∷◌, ◌++◌,
  some, arith, word, none,
}
use mai_os_labs.McKusick.{McKusickAllocator, page_size, get_bucket_index, clzl}
use mai_os_labs.McKusick.Ownership.{
  Owners, Allocation, Every, IsNew, small, IsSound, bucket, pointers, IsBlock, block_size,
  Every-weaken,
}
use mai_os_labs.McKusick.Ownership.Moves.{Every-both}
use mai_os_labs.McKusick.Ownership.Regions.{granted-AreDisjoint}
use mai_os_labs.McKusick.Linked.Chain.{Chain-kept}
use mai_os_labs.McKusick.Linked.{Linked}
use mai_os_labs.McKusick.Linked
use mai_os_labs.McKusick.Linked.Spelling.{Represents, AllocRefined, FreeRefined}
use mai_os_labs.McKusick.Linked.Calls.{
  IsOwnWrite, LinkedSession, begun, refused, granted, given_back, given_null, written, requested,
  handed_back, exchanges, linked_exchanges,
}
use mai_os_labs.McKusick.Session.{
  Session, null_freed, start, refused_alloc, granted_alloc, freed, freed_null, Session-IsSound,
  IsSound-AreDisjoint,
}
use mai_os_labs.McKusick.Ownership.Regions.{IsInside, AreDisjoint}
use mai_os_labs.McKusick.Linked.Refinement.{alloc-AllocRefined, free-FreeRefined}

linked_one_byte : (l : Linked) → Linked.alloc 1 l ≡ none
unfolding Linked.alloc Linked.alloc_small get_bucket_index clzl
linked_one_byte l = refl

-- The blocks of the buckets have no byte in common with what is held, so the writes leave them.
write-Represents :
    (n : ℕ) (owner : Owners) (s : McKusickAllocator) (l : Linked) (held : List Allocation)
    (cells : ℕ → ℕ)
    → IsSound n owner s held
    → Represents l s
    → IsOwnWrite held l.block_next cells
    → Represents (record l { block_next = cells }) s
write-Represents n owner s l held cells o (k, same, r) own = (
  record k { block_next = cells },
  ap (λ (x : Linked). record x { block_next = cells }) same,
  record {
    blocks = λ b lt.
        Chain-kept k.block_next cells (k.heads b) (bucket b s)
          (Every-both _ _ _ (bucket b s) (o.blocks b lt) (o.blocks_unused b lt)
            λ x block new. own x (apart b x block new) ∙ ap (λ (y : Linked). y.block_next x) same)
          (r.blocks b lt);
    pages = r.pages;
  },
)
  where
    at_least : (b : ℕ) → 32 ≤ block_size b
    at_least zero = omega arith
    at_least (suc b) = omega (arith, at_least b)

    apart :
        (b x : ℕ)
        → IsBlock owner s.initial_memory n b x
        → IsNew x (pointers held)
        → Every (λ h. (x + 8 ≤ h.ptr) ⊎ (h.ptr + h.size ≤ x)) held
    apart b x block new =
        let (disjoint, others) =
          granted-AreDisjoint owner s.initial_memory n s.page_infos
            (record { ptr = x; size = block_size b } ∷ held)
            (small b block (omega arith), o.granted) (new, o.held_apart) in
        Every-weaken _ _ held
          (λ h d. elim d [ inl e ↦ inl (omega (arith, at_least b)) | inr e ↦ inr e ]) disjoint

linked_null_freed : (l : Linked) → Linked.free 0 l ≡ some l
unfolding Linked.free
linked_null_freed l = refl

not_one : (size : ℕ) (l : Linked) (r : ℕ × Linked) → Linked.alloc size l ≡ some r → size ≢ 1
not_one size l r e one =
    none-ne-some r (sym (linked_one_byte l) ∙ ap (λ k. Linked.alloc k l) (sym one) ∙ e)

-- The blocks held lie within the pages and have no byte in common, and each request but that for one
-- byte, if its sum with a page does not wrap around, and each return of a held block is answered.
abbrev pub Serves : ℕ → Linked → List Allocation → Type 0
Serves n l held =
    Every (IsInside l.initial_memory n) held
    × AreDisjoint held
    × ((size : ℕ) → size ≢ 1 → size + page_size ≤ word → Linked.alloc size l ≢ none)
    × ((before : List Allocation) (h : Allocation) (after : List Allocation)
        → held ≡ before ++ h ∷ after
        → Linked.free h.ptr l ≢ none)

module _ (n : ℕ) (owner₀ : Owners) (s₀ : McKusickAllocator) (l₀ : Linked)
    (o₀ : IsSound n owner₀ s₀ []) (r₀ : Represents l₀ s₀) where
  -- A history by lists of the same requests with the same answers, with the pointers of its lists.
  abbrev pub Simulated : (l : Linked) (held : List Allocation) → LinkedSession l₀ l held → Type 0
  Simulated l held history =
      (s : McKusickAllocator) × (h : Session s₀ s held) × (exchanges h ≡ linked_exchanges history)
      × Represents l s

  -- The next request, and the return of a block that is held, have the same answers on both.
  abbrev pub AgreesOnNext : Linked → List Allocation → McKusickAllocator → Type 0
  AgreesOnNext l held s =
      ((size : ℕ) → size ≢ 1 → size + page_size ≤ word → AllocRefined size l s)
      × ((before : List Allocation) (h : Allocation) (after : List Allocation)
          → held ≡ before ++ h ∷ after
          → FreeRefined h.ptr l s)

  sound :
      (s : McKusickAllocator) (held : List Allocation)
      → Session s₀ s held
      → (owner : Owners) × IsSound n owner s held
  sound s held history = Session-IsSound n owner₀ s₀ o₀ s held history

  simulated :
      (l : Linked) (held : List Allocation) (history : LinkedSession l₀ l held)
      → Simulated l held history
  simulated l held begun = (s₀, start, refl, r₀)
  simulated t held (refused {l} size history fits e) =
      let (s, h, w, r) = simulated l held history in
      let (owner, o) = sound s held h in
      let (ptr, u, l', f, g, r') =
        alloc-AllocRefined n owner s l held size o r (not_one size l _ e) fits in
      let same : (ptr, l') ≡ (0, t) = some-injective _ _ (sym g ∙ e) in
      (
        u,
        refused_alloc size h fits (f ∙ ap (λ (x : ℕ × Linked). some (x.0, u)) same),
        ap (◌∷◌ (requested size 0)) w,
        subst (λ (x : ℕ × Linked). Represents x.1 u) same r',
      )
  simulated t _ (granted {l} {held} size ptr history fits e ne) =
      let (s, h, w, r) = simulated l held history in
      let (owner, o) = sound s held h in
      let (ptr', u, l', f, g, r') =
        alloc-AllocRefined n owner s l held size o r (not_one size l _ e) fits in
      let same : (ptr', l') ≡ (ptr, t) = some-injective _ _ (sym g ∙ e) in
      (
        u,
        granted_alloc size ptr h fits (f ∙ ap (λ (x : ℕ × Linked). some (x.0, u)) same) ne,
        ap (◌∷◌ (requested size ptr)) w,
        subst (λ (x : ℕ × Linked). Represents x.1 u) same r',
      )
  simulated t _ (given_back {l} before h after {held} history e f) =
      let (s, k, w, r) = simulated l held history in
      let (owner, o) = sound s held k in
      let (u, l', g, g', r') =
        free-FreeRefined n owner s l before h after (subst (IsSound n owner s) e o) r in
      (
        u,
        freed before h after k e g,
        ap (◌∷◌ (handed_back h.ptr)) w,
        subst (λ x. Represents x u) (some-injective _ _ (sym g' ∙ f)) r',
      )
  simulated t held (given_null {l} history f) =
      let (s, k, w, r) = simulated l held history in
      (
        s,
        freed_null k (null_freed s),
        ap (◌∷◌ (handed_back 0)) w,
        subst (λ x. Represents x s) (some-injective _ _ (sym (linked_null_freed l) ∙ f)) r,
      )
  simulated _ held (written {l} cells history own) =
      let (s, k, w, r) = simulated l held history in
      let (owner, o) = sound s held k in (s, k, w, write-Represents n owner s l held cells o r own)

  -- From a sound allocator with no block held and the pointers of its lists on, every history of calls by
  -- pointers, with writes of the client to what it holds, has a history of calls by lists with the same
  -- requests, the same answers, null pointers included, and the same blocks given back, in the same
  -- order. The pointers at its end are those of the lists; and there each further request but that for one
  -- byte, if its sum with a page does not wrap around, and each return of a held block is answered by
  -- both alike, and leaves the pointers of the lists.
  pub LinkedSession-Session :
      (l : Linked) (held : List Allocation) (history : LinkedSession l₀ l held)
      → (s : McKusickAllocator) × (h : Session s₀ s held) × (exchanges h ≡ linked_exchanges history)
        × Represents l s
        × AgreesOnNext l held s
  LinkedSession-Session l held history =
      let (s, h, w, r) = simulated l held history in
      let (owner, o) = sound s held h in
      (
        s,
        h,
        w,
        r,
        (
          λ size ne fits. alloc-AllocRefined n owner s l held size o r ne fits,
          λ before x after e.
              free-FreeRefined n owner s l before x after (subst (IsSound n owner s) e o) r,
        ),
      )

  -- In such a history the allocator serves its client.
  pub LinkedSession-Serves :
      (l : Linked) (held : List Allocation) → LinkedSession l₀ l held → Serves n l held
  LinkedSession-Serves l held history =
      let (s, k, w, r) = simulated l held history in
      let (owner, o) = sound s held k in
      let (inside, disjoint) = IsSound-AreDisjoint n owner s held o in
      (
        subst (λ base. Every (IsInside base n) held)
            (sym (ap (λ (x : Linked). x.initial_memory) r.1)) inside,
        disjoint,
        (λ size ne fits undefined.
            let (ptr, u, l', f, g, r') = alloc-AllocRefined n owner s l held size o r ne fits in
            none-ne-some _ (sym undefined ∙ g)),
        λ before h after e undefined.
            let (u, l', f, g, r') =
              free-FreeRefined n owner s l before h after (subst (IsSound n owner s) e o) r in
            none-ne-some _ (sym undefined ∙ g),
      )
