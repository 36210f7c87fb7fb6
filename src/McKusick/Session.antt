-- ===== src/McKusick/Session.antt =====
-- Histories of calls of the allocator of Labs/CP/src/Mckusey-Carels.cpp, by a client that frees only
-- blocks that it holds.
use mathlib.Core.Option.{some-injective, none-ne-some}
use mai_os_labs.Prelude.{
  ℕ, zero, suc, ◌+◌, ◌≤◌, ◌≡◌, ◌≢◌, inl, inr, refl, sym, ap, subst, ◌∙◌, List, [], ◌∷◌, ◌++◌, some,
  none, arith, leb, Bool-cases, word,
}
use mai_os_labs.McKusick.{McKusickAllocator, alloc, free, page_size, max_block_size}
use mai_os_labs.McKusick.Ownership.{
  Owners, Allocation, Every, IsGranted, small, large, IsSound, Every_middle,
}
use mai_os_labs.McKusick.Ownership.Moves.{IsSound-pushed, free_held_block}
use mai_os_labs.McKusick.Ownership.SmallRequests.{Answered, small_request}
use mai_os_labs.McKusick.Ownership.LargeRequests.{large_request}
use mai_os_labs.McKusick.Ownership.LargeFree.{free_held_pages}
use mai_os_labs.McKusick.Ownership.Regions.{
  IsInside, AreDisjoint, granted-IsInside, granted-AreDisjoint,
}
use mai_os_labs.McKusick.Blocks.{pushed}
use mai_os_labs.McKusick.Buckets.{alloc-one_undefined}

-- A client's calls: what it holds afterwards, newest first.
pub data Session (s₀ : McKusickAllocator) : McKusickAllocator → List Allocation → Type 0 where
  start : Session s₀ s₀ []
  refused_alloc :
      {s t : McKusickAllocator} {held : List Allocation} (size : ℕ)
      → Session s₀ s held
      → size + page_size ≤ word
      → alloc size s ≡ some (0, t)
      → Session s₀ t held
  granted_alloc :
      {s t : McKusickAllocator} {held : List Allocation} (size ptr : ℕ)
      → Session s₀ s held
      → size + page_size ≤ word
      → alloc size s ≡ some (ptr, t)
      → ptr ≢ 0
      → Session s₀ t (record { ptr = ptr; size = size } ∷ held)
  freed :
      {s t : McKusickAllocator} (before : List Allocation) (h : Allocation)
      (after : List Allocation) {held : List Allocation}
      → Session s₀ s held
      → held ≡ before ++ h ∷ after
      → free h.ptr s ≡ some t
      → Session s₀ t (before ++ after)
  freed_null :
      {s t : McKusickAllocator} {held : List Allocation}
      → Session s₀ s held
      → free 0 s ≡ some t
      → Session s₀ t held

pub no_bytes : (s : McKusickAllocator) → alloc 0 s ≡ some (0, s)
unfolding alloc
no_bytes s = refl

one_byte : (s : McKusickAllocator) → alloc 1 s ≡ none
one_byte s = alloc-one_undefined s

pub null_freed : (s : McKusickAllocator) → free 0 s ≡ some s
unfolding free
null_freed s = refl

module _ (n : ℕ) where
  pub answered :
      (owner : Owners) (s : McKusickAllocator) (held : List Allocation) (size : ℕ)
      → IsSound n owner s held
      → size ≢ 1
      → size + page_size ≤ word
      → Answered n size s held
  answered owner s held zero o ne fits = inl (no_bytes s)
  answered owner s held (suc zero) o ne fits = absurd (ne refl)
  answered owner s held (suc (suc k)) o ne fits =
      elim (Bool-cases (leb (suc (suc k)) max_block_size)) [
        | inl e ↦ small_request n owner s held (suc (suc k)) o (omega arith) (ground arith)
        | inr e ↦ large_request n owner s held (suc (suc k)) o (ground arith) fits
      ]

  -- A held block is given back.
  pub released :
      (owner : Owners) (s : McKusickAllocator) (before : List Allocation) (h : Allocation)
      (after : List Allocation)
      → IsSound n owner s (before ++ h ∷ after)
      → (owner' : Owners) × (t : McKusickAllocator) × (free h.ptr s ≡ some t)
        × IsSound n owner' t (before ++ after)
  released owner s before h after o = by_kind (Every_middle _ before h after o.granted).0
    where
      by_kind :
          IsGranted owner s.initial_memory n s.page_infos h
          → (owner' : Owners) × (t : McKusickAllocator) × (free h.ptr s ≡ some t)
            × IsSound n owner' t (before ++ after)
      by_kind (small b k fits) =
          let (inside, e) = free_held_block n owner s (before ++ h ∷ after) b h.ptr o k in
          (owner, pushed h.ptr b s, e, IsSound-pushed n owner s before h after b o inside k)
      by_kind (large k) =
          let (t, e, sound) = free_held_pages n owner s before h after o k in (_, t, e, sound)

  not_one :
      (size : ℕ) (s : McKusickAllocator) (r : ℕ × McKusickAllocator)
      → alloc size s ≡ some r
      → size ≢ 1
  not_one size s r e one = none-ne-some r (sym (one_byte s) ∙ ap (λ k. alloc k s) (sym one) ∙ e)

  module _ (owner₀ : Owners) (s₀ : McKusickAllocator) (o₀ : IsSound n owner₀ s₀ []) where
    pub Session-IsSound :
        (s : McKusickAllocator) (held : List Allocation)
        → Session s₀ s held
        → (owner : Owners) × IsSound n owner s held
    Session-IsSound s held start = (owner₀, o₀)
    Session-IsSound t held (refused_alloc {s} size history fits e) =
        let (owner, o) = Session-IsSound s held history in
        elim (answered owner s held size o (not_one size s _ e) fits) [
          | inl f ↦ (
            owner,
            subst (λ k. IsSound n owner k held)
                (ap (λ (r : ℕ × McKusickAllocator). r.1) (some-injective _ _ (sym f ∙ e))) o,
          )
          | inr (ptr, t', owner', f, ne, sound) ↦
              absurd (ne (ap (λ (r : ℕ × McKusickAllocator). r.0) (some-injective _ _ (sym f ∙ e))))
        ]
    Session-IsSound t _ (granted_alloc {s} {held} size ptr history fits e ne) =
        let (owner, o) = Session-IsSound s held history in
        elim (answered owner s held size o (not_one size s _ e) fits) [
          | inl f ↦
              absurd (ne (ap (λ (r : ℕ × McKusickAllocator). r.0) (some-injective _ _ (sym e ∙ f))))
          | inr (ptr', t', owner', f, ne', sound) ↦
              let same : (ptr', t') ≡ (ptr, t) = some-injective _ _ (sym f ∙ e) in
              (
                owner',
                subst
                    (λ (r : ℕ × McKusickAllocator).
                      IsSound n owner' r.1 (record { ptr = r.0; size = size } ∷ held))
                    same sound,
              )
        ]
    Session-IsSound t _ (freed {s} before h after {held} history e f) =
        let (owner, o) = Session-IsSound s held history in
        let (owner', t', g, sound) =
          released owner s before h after (subst (IsSound n owner s) e o) in
        (
          owner',
          subst (λ k. IsSound n owner' k (before ++ after)) (some-injective _ _ (sym g ∙ f)) sound,
        )
    Session-IsSound t held (freed_null {s} history f) =
        let (owner, o) = Session-IsSound s held history in
        (owner, subst (λ k. IsSound n owner k held) (some-injective _ _ (sym (null_freed s) ∙ f)) o)

all-IsInside :
    (n : ℕ) (owner : Owners) (s : McKusickAllocator) (held : List Allocation)
    → Every (IsGranted owner s.initial_memory n s.page_infos) held
    → Every (IsInside s.initial_memory n) held
all-IsInside n owner s [] g = tt
all-IsInside n owner s (h ∷ held) (g, gs) =
    (granted-IsInside owner s.initial_memory n s.page_infos h g, all-IsInside n owner s held gs)

pub IsSound-AreDisjoint :
    (n : ℕ) (owner : Owners) (s : McKusickAllocator) (held : List Allocation)
    → IsSound n owner s held
    → Every (IsInside s.initial_memory n) held × AreDisjoint held
IsSound-AreDisjoint n owner s held o = (
  all-IsInside n owner s held o.granted,
  granted-AreDisjoint owner s.initial_memory n s.page_infos held o.granted o.held_apart,
)

-- From a sound allocator with no block held on, whatever the calls of a client that frees only what it
-- holds or nullptr and whose requests do not wrap around, the blocks that it holds lie within the pages
-- of the allocator, and no two of them have a byte in common.
pub Session-AreDisjoint :
    (n : ℕ) (owner₀ : Owners) (s₀ : McKusickAllocator)
    → IsSound n owner₀ s₀ []
    → (s : McKusickAllocator) (held : List Allocation) → Session s₀ s held
    → Every (IsInside s.initial_memory n) held × AreDisjoint held
Session-AreDisjoint n owner₀ s₀ o₀ s held history =
    let (owner, o) = Session-IsSound n owner₀ s₀ o₀ s held history in
    IsSound-AreDisjoint n owner s held o

-- In such a session every request but that for one byte is answered, if its sum with a page does not
-- wrap around, and each held block can be given back: no step is undefined.
pub Session-answers :
    (n : ℕ) (owner₀ : Owners) (s₀ : McKusickAllocator)
    → IsSound n owner₀ s₀ []
    → (s : McKusickAllocator) (held : List Allocation) → Session s₀ s held
    → ((size : ℕ) → size ≢ 1 → size + page_size ≤ word → alloc size s ≢ none)
      × ((before : List Allocation) (h : Allocation) (after : List Allocation)
          → held ≡ before ++ h ∷ after
          → free h.ptr s ≢ none)
Session-answers n owner₀ s₀ o₀ s held history =
    let (owner, o) = Session-IsSound n owner₀ s₀ o₀ s held history in
    (
      (λ size ne fits refused. elim (answered n owner s held size o ne fits) [
        | inl e ↦ none-ne-some _ (sym refused ∙ e)
        | inr (ptr, t, owner', e, given, sound) ↦ none-ne-some _ (sym refused ∙ e)
      ]),
      λ before h after e undefined.
          let (owner', t, f, sound) =
            released n owner s before h after (subst (IsSound n owner s) e o) in
          none-ne-some _ (sym undefined ∙ f),
    )
