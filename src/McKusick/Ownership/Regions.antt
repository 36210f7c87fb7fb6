-- ===== src/McKusick/Ownership/Regions.antt =====
-- Allocation blocks of the allocator of Labs/CP/src/Mckusey-Carels.cpp as ranges of bytes.
use mathlib.Core.Path.{ap₂}
use mai_os_labs.Prelude.{
  ℕ, zero, suc, ◌+◌, ◌*◌, ◌<◌, ◌≤◌, ◌≡◌, ◌≢◌, ◌⊎◌, inl, inr, sym, ap, subst, ◌∙◌, List, [], ◌∷◌,
  arith, ltb, leb, Bool-cases, ℕ_discrete,
}
use mai_os_labs.McKusick.{PageInfos, page_size, get_required_pages}
use mai_os_labs.McKusick.Buckets.{get_required_pages_bounds}
use mai_os_labs.McKusick.RoundTrip.{pages_pos}
use mai_os_labs.McKusick.Ownership.{
  Owner, Owners, split_for, part_of, split_for-inj, part_of-inj, part_not_split, Allocation,
  block_size, Every, IsNew, AreDistinct, IsBlock, IsPages, IsGranted, small, large, pointers,
}

-- The ranges of bytes of two blocks have no byte in common.
abbrev pub IsDisjoint : Allocation → Allocation → Type 0
IsDisjoint h k = (h.ptr + h.size ≤ k.ptr) ⊎ (k.ptr + k.size ≤ h.ptr)

abbrev pub AreDisjoint : List Allocation → Type 0
AreDisjoint [] = Unit {0}
AreDisjoint (h ∷ l) = Every (IsDisjoint h) l × AreDisjoint l

abbrev pub IsInside : ℕ → ℕ → Allocation → Type 0
IsInside base n h = (base ≤ h.ptr) × (h.ptr + h.size ≤ base + n * page_size)

-- The pages that a block lies in, all of them with one owner.
record Region (owner : Owners) (base n : ℕ) (h : Allocation) (o : Owner) : Type 0 where
  pub low : ℕ
  pub high : ℕ
  pub some_page : low < high
  pub inside : high ≤ n
  pub from : base + low * page_size ≤ h.ptr
  pub upto : h.ptr + h.size ≤ base + high * page_size
  pub owned : (i : ℕ) → low ≤ i → i < high → owner i ≡ o

module _ (owner : Owners) (base n : ℕ) (infos : PageInfos) where
  abbrev region_small :
      (h : Allocation) (b : ℕ) (k : IsBlock owner base n b h.ptr)
      → h.size ≤ block_size b
      → Region owner base n h (split_for b)
  region_small h b k fits = record {
    low = k.page;
    high = suc k.page;
    some_page = omega arith;
    inside = k.page_inside;
    from = omega (arith, k.address);
    upto = omega (arith, k.address, k.fits);
    owned = λ i lo hi. ap owner (omega arith) ∙ k.owned;
  }

  abbrev region_large :
      (h : Allocation) (k : IsPages owner base n infos h) → Region owner base n h (part_of k.start)
  region_large h k =
      let pos = pages_pos h.size k.large k.no_wrap in
      let bound = (get_required_pages_bounds h.size (omega (arith, k.large)) k.no_wrap).0 in
      record {
        low = k.start;
        high = k.start + get_required_pages h.size;
        some_page = omega arith;
        inside = k.inside;
        from = omega (arith, k.address);
        upto = omega (arith, k.address, bound);
        owned = k.owned;
      }

  -- Regions of different owners have no byte in common.
  apart :
      (h k : Allocation) (o o' : Owner)
      → Region owner base n h o
      → Region owner base n k o'
      → o ≢ o'
      → IsDisjoint h k
  apart h k o o' r r' ne = elim (Bool-cases (leb r.high r'.low)) [
    | inl e ↦ let below : r.high ≤ r'.low = ground arith in inl (omega (arith, r.upto, r'.from))
    | inr e ↦ elim (Bool-cases (leb r'.high r.low)) [
      | inl e' ↦ let below : r'.high ≤ r.low = ground arith in inr (omega (arith, r'.upto, r.from))
      | inr e' ↦ absurd (
          ne (elim (Bool-cases (leb r.low r'.low)) [
            | inl lo ↦
                sym (r.owned r'.low (ground arith) (ground arith))
                ∙ r'.owned r'.low (omega arith) r'.some_page
            | inr lo ↦
                sym (r.owned r.low (omega arith) r.some_page)
                ∙ r'.owned r.low (ground arith) (ground arith)
          ]))
    ]
  ]

  place_below : (i j size : ℕ) → i < j → i * size + size ≤ j * size
  place_below i zero size h = absurd (omega arith)
  place_below i (suc j) size h = elim (Bool-cases (ltb i j)) [
    | inl lt ↦ omega (arith, place_below i j size (ground arith))
    | inr ge ↦ let same : i ≡ j = ground arith in rw same (omega arith)
  ]

  -- Blocks of one bucket.
  blocks_apart :
      (h k : Allocation) (b : ℕ)
      → IsBlock owner base n b h.ptr
      → IsBlock owner base n b k.ptr
      → h.size ≤ block_size b
      → k.size ≤ block_size b
      → h.ptr ≢ k.ptr
      → IsDisjoint h k
  blocks_apart h k b x y fits fits' ne = elim (Bool-cases (ltb x.page y.page)) [
    | inl e ↦
        let before : x.page < y.page = ground arith in
        inl (omega (arith, x.address, y.address, x.fits))
    | inr e ↦ elim (Bool-cases (ltb y.page x.page)) [
      | inl e' ↦
          let before : y.page < x.page = ground arith in
          inr (omega (arith, x.address, y.address, y.fits))
      | inr e' ↦
          let one_page : x.page ≡ y.page = ground arith in
          elim (Bool-cases (ltb x.place y.place)) [
            | inl f ↦ inl (
                omega (
                  arith,
                  x.address,
                  y.address,
                  place_below x.place y.place (block_size b) (ground arith),
                ))
            | inr f ↦ elim (Bool-cases (ltb y.place x.place)) [
              | inl f' ↦ inr (
                  omega (
                    arith,
                    x.address,
                    y.address,
                    place_below y.place x.place (block_size b) (ground arith),
                  ))
              | inr f' ↦
                  let one_place : x.place ≡ y.place = ground arith in
                  absurd (
                    ne (
                      x.address
                      ∙ ap₂ (λ i j. base + i * page_size + j * block_size b) one_page one_place
                      ∙ sym y.address))
            ]
          ]
    ]
  ]

  pub granted_apart :
      (h k : Allocation)
      → IsGranted owner base n infos h
      → IsGranted owner base n infos k
      → h.ptr ≢ k.ptr
      → IsDisjoint h k
  granted_apart h k (small b x fits) (large y) ne =
      apart h k _ _ (region_small h b x fits) (region_large k y)
        λ e. part_not_split y.start b (sym e)
  granted_apart h k (large x) (small c y fits) ne =
      apart h k _ _ (region_large h x) (region_small k c y fits) (part_not_split x.start c)
  granted_apart h k (large x) (large y) ne =
      apart h k _ _ (region_large h x) (region_large k y)
        λ e. ne (x.address ∙ ap (λ (p : ℕ). base + p * page_size) (part_of-inj e) ∙ sym y.address)
  granted_apart h k (small b x fits) (small c y fits') ne = elim (ℕ_discrete b c) [
    | yes e ↦
        blocks_apart h k c (subst (λ j. IsBlock owner base n j h.ptr) e x) y
          (subst (λ j. h.size ≤ block_size j) e fits) fits' ne
    | no other ↦
        apart h k _ _ (region_small h b x fits) (region_small k c y fits')
          λ e. other (split_for-inj e)
  ]

  pub granted-IsInside : (h : Allocation) → IsGranted owner base n infos h → IsInside base n h
  granted-IsInside h (small b x fits) =
      let r = region_small h b x fits in (omega (arith, r.from), omega (arith, r.upto, r.inside))
  granted-IsInside h (large y) =
      let r = region_large h y in (omega (arith, r.from), omega (arith, r.upto, r.inside))

  pub granted-AreDisjoint :
      (l : List Allocation)
      → Every (IsGranted owner base n infos) l
      → AreDistinct (pointers l)
      → AreDisjoint l
  granted-AreDisjoint [] g d = tt
  granted-AreDisjoint (h ∷ l) (g, gs) (new, d) = (from_all l gs new, granted-AreDisjoint l gs d)
    where
      from_all :
          (l : List Allocation)
          → Every (IsGranted owner base n infos) l
          → IsNew h.ptr (pointers l)
          → Every (IsDisjoint h) l
      from_all [] gs new = tt
      from_all (k ∷ l) (g', gs) (ne, new) =
          (granted_apart h k g g' (λ e. ne (sym e)), from_all l gs new)
