-- ===== src/McKusick/Ownership/Refill.antt =====
-- What holds of pages and blocks while free pages are taken, and the blocks of a page that
-- `split_page` of Labs/CP/src/Mckusey-Carels.cpp makes.
use mai_os_labs.Prelude.{
  ℕ, zero, suc, ◌+◌, ◌*◌, ◌<◌, ◌≤◌, ◌≡◌, ◌≢◌, refl, sym, ap, subst, ◌∙◌, List, [], ◌∷◌, arith,
}
use mai_os_labs.McKusick.{PageInfos, page_size, blocks_from}
use mai_os_labs.McKusick.RoundTrip.{pages_pos}
use mai_os_labs.McKusick.Layout.{IsRising, AreBlank}
use mai_os_labs.McKusick.Ownership.{
  Owner, Owners, free_page, split_for, part_of, Allocation, block_size, Every, AreDistinct, IsBlock,
  IsPages, IsGranted, small, large, Every-weaken, block_size_pos,
}

abbrev pub IsOwned : Owner → Type 0
IsOwned free_page = ⊥
IsOwned (split_for b) = Unit {0}
IsOwned (part_of p) = Unit {0}

pub split-owned : (o : Owner) (b : ℕ) → o ≡ split_for b → o ≢ free_page
split-owned o b e f = subst IsOwned (sym e ∙ f) tt

pub part-owned : (o : Owner) (p : ℕ) → o ≡ part_of p → o ≢ free_page
part-owned o p e f = subst IsOwned (sym e ∙ f) tt

start-owned :
    (owner : Owners) (base n : ℕ) (infos : PageInfos) (h : Allocation)
    (k : IsPages owner base n infos h)
    → owner k.start ≢ free_page
start-owned owner base n infos h k =
    part-owned (owner k.start) k.start
      (k.owned k.start (omega arith) (omega (arith, pages_pos h.size k.large k.no_wrap)))

-- What holds of pages whose owner is not `lost` stays so.
module _ (lost : Owner) (owner owner' : Owners) (base n : ℕ) (infos infos' : PageInfos)
    (kept : (i : ℕ) → owner i ≢ lost → owner' i ≡ owner i)
    (no_split : (b : ℕ) → split_for b ≢ lost) where
  pub IsBlock-kept : (b x : ℕ) → IsBlock owner base n b x → IsBlock owner' base n b x
  IsBlock-kept b x k = record {
    page = k.page;
    place = k.place;
    page_inside = k.page_inside;
    owned = kept k.page (λ e. no_split b (sym k.owned ∙ e)) ∙ k.owned;
    address = k.address;
    fits = k.fits;
  }

  pub IsGranted-kept :
      ((i : ℕ) → owner i ≢ lost → infos' i ≡ infos i)
      → (h : Allocation) → ((k : IsPages owner base n infos h) → part_of k.start ≢ lost)
      → IsGranted owner base n infos h
      → IsGranted owner' base n infos' h
  IsGranted-kept same h other (small b k fits) = small b (IsBlock-kept b h.ptr k) fits
  IsGranted-kept same h other (large k) =
      let first : owner k.start ≡ part_of k.start =
        k.owned k.start (omega arith) (omega (arith, pages_pos h.size k.large k.no_wrap)) in
      let unchanged = same k.start λ e. other k (sym first ∙ e) in
      large (record {
        start = k.start;
        address = k.address;
        inside = k.inside;
        owned = λ i lo hi. kept i (λ e. other k (sym (k.owned i lo hi) ∙ e)) ∙ k.owned i lo hi;
        noted = ap (λ j. j.size) unchanged ∙ k.noted;
        flagged = ap (λ j. j.is_start_of_buffer) unchanged ∙ k.flagged;
        large = k.large;
        no_wrap = k.no_wrap;
      })

pub split_not_free : (b : ℕ) → split_for b ≢ free_page
split_not_free b e = split-owned (split_for b) b refl e

pub part_not_free : (p : ℕ) → part_of p ≢ free_page
part_not_free p e = part-owned (part_of p) p refl e

-- The page that a held block starts in.
pub page_of_held :
    (owner : Owners) (base n : ℕ) (infos : PageInfos) (h : Allocation)
    → IsGranted owner base n infos h
    → (i : ℕ) × (i < n)
      × (owner i ≢ free_page)
      × (base + i * page_size ≤ h.ptr)
      × (h.ptr < base + i * page_size + page_size)
page_of_held owner base n infos h (small b k fits) = (
  k.page,
  k.page_inside,
  split-owned _ b k.owned,
  omega (arith, k.address),
  omega (arith, k.address, k.fits, block_size_pos b),
)
page_of_held owner base n infos h (large k) = (
  k.start,
  omega (arith, k.inside, pages_pos h.size k.large k.no_wrap),
  start-owned owner base n infos h k,
  omega (arith, k.address),
  omega (arith, k.address),
)

pub AreBlank-kept :
    (infos infos' : PageInfos) (lo n : ℕ) (l : List ℕ)
    → ((i : ℕ) → lo ≤ i → infos' i ≡ infos i)
    → IsRising lo n l
    → AreBlank infos l
    → AreBlank infos' l
AreBlank-kept infos infos' lo n [] same r b = tt
AreBlank-kept infos infos' lo n (p ∷ l) same (low, high, r) (e, f, b) = (
  ap (λ j. j.size) (same p low) ∙ e,
  ap (λ j. j.is_start_of_buffer) (same p low) ∙ f,
  AreBlank-kept infos infos' (suc p) n l (λ i h. same i (omega arith)) r b,
)

pub Every-rising :
    (P Q : ℕ → Type 0) (lo n : ℕ) (l : List ℕ)
    → ((i : ℕ) → lo ≤ i → P i → Q i)
    → IsRising lo n l
    → Every P l
    → Every Q l
Every-rising P Q lo n [] f r e = tt
Every-rising P Q lo n (p ∷ l) f (low, high, r) (h, e) =
    (f p low h, Every-rising P Q (suc p) n l (λ i k. f i (omega arith)) r e)

-- The blocks of a page.
module _ (owner : Owners) (base n b page : ℕ) where
  pub blocks-IsBlock :
      (count place : ℕ)
      → page < n
      → owner page ≡ split_for b
      → place * block_size b + count * block_size b ≤ page_size
      → Every
          (IsBlock owner base n b)
          (blocks_from count (base + page * page_size + place * block_size b) (block_size b))
  unfolding blocks_from
  blocks-IsBlock zero place h o fits = tt
  blocks-IsBlock (suc count) place h o fits = (
    record {
      page = page;
      place = place;
      page_inside = h;
      owned = o;
      address = refl;
      fits = omega arith;
    },
    subst (λ a. Every (IsBlock owner base n b) (blocks_from count a (block_size b))) (omega arith)
        (blocks-IsBlock count (suc place) h o (omega arith)),
  )

pub blocks_below :
    (count a size top : ℕ)
    → 0 < size
    → a + count * size ≤ top
    → Every (λ y. y < top) (blocks_from count a size)
unfolding blocks_from
blocks_below zero a size top h k = tt
blocks_below (suc count) a size top h k =
    (omega arith, blocks_below count (a + size) size top h (omega arith))

pub blocks_above : (count a size : ℕ) → Every (λ y. a ≤ y) (blocks_from count a size)
unfolding blocks_from
blocks_above zero a size = tt
blocks_above (suc count) a size =
    (omega arith, Every-weaken _ _ _ (λ y h. omega arith) (blocks_above count (a + size) size))

pub blocks-AreDistinct : (count a size : ℕ) → 0 < size → AreDistinct (blocks_from count a size)
unfolding blocks_from
blocks-AreDistinct zero a size h = tt
blocks-AreDistinct (suc count) a size h = (
  Every-weaken _ _ _ (λ y k e. absurd (omega arith)) (blocks_above count (a + size) size),
  blocks-AreDistinct count (a + size) size h,
)
