-- ===== src/McKusick/Ownership.antt =====
-- Who has the pages of the allocator of Labs/CP/src/Mckusey-Carels.cpp, and what a client holds of them.
pub mod Moves
pub mod Refill
pub mod SmallAlloc
pub mod SmallRequests
pub mod LargeRequests
pub mod LargeFree
pub mod Regions
pub mod Capacity
pub mod Order
use mai_os_labs.Prelude.{
  ℕ, zero, suc, ◌+◌, ◌-◌, ◌*◌, ◌^◌, ◌<◌, ◌≤◌, ◌≡◌, ◌≢◌, ◌⊎◌, inl, inr, refl, sym, ap, subst, ◌∙◌,
  true, List, [], ◌∷◌, ◌++◌, map, arith, length, word, get_or, set, ℕ_discrete,
}
use mai_os_labs.McKusick.{
  McKusickAllocator, PageInfos, page_size, min_block_size, max_block_size, bucket_count,
  get_required_pages,
}
use mai_os_labs.McKusick.Layout.{IsLaid}
-- What a client holds is what the loops of usage_factor.cpp keep in their vectors.
pub use mai_os_labs.Usage.{Allocation}

-- A page is free, split into blocks of a bucket, or part of the block that starts at some page.
pub data Owner : Type 0 where
  free_page : Owner
  split_for part_of : ℕ → Owner

abbrev pub Owners : Type 0
Owners = ℕ → Owner

abbrev number_of : Owner → ℕ
number_of free_page = 0
number_of (split_for b) = b
number_of (part_of p) = p

pub split_for-inj : {b c : ℕ} → split_for b ≡ split_for c → b ≡ c
split_for-inj e = ap number_of e

abbrev IsPart : Owner → Type 0
IsPart free_page = ⊥
IsPart (split_for b) = ⊥
IsPart (part_of p) = Unit {0}

pub part_not_split : (p b : ℕ) → part_of p ≢ split_for b
part_not_split p b e = subst IsPart e tt

pub part_of-inj : {p q : ℕ} → part_of p ≡ part_of q → p ≡ q
part_of-inj e = ap number_of e

abbrev pub block_size : ℕ → ℕ
block_size b = min_block_size * 2 ^ b

abbrev pub Every {ℓ} : {A : Type ℓ} → (A → Type 0) → List A → Type 0
Every P [] = Unit {0}
Every P (x ∷ l) = P x × Every P l

abbrev pub IsNew : ℕ → List ℕ → Type 0
IsNew x = Every (λ y. y ≢ x)

abbrev pub AreDistinct : List ℕ → Type 0
AreDistinct [] = Unit {0}
AreDistinct (x ∷ l) = IsNew x l × AreDistinct l

-- `x` is a block of the bucket `b` in a page that is split for it.
pub record IsBlock (owner : Owners) (base n b x : ℕ) : Type 0 where
  pub page : ℕ
  pub place : ℕ
  pub page_inside : page < n
  pub owned : owner page ≡ split_for b
  pub address : x ≡ base + page * page_size + place * block_size b
  pub fits : place * block_size b + block_size b ≤ page_size

-- `h` is a block of several pages.
pub record IsPages (owner : Owners) (base n : ℕ) (infos : PageInfos) (h : Allocation) : Type 0 where
  pub start : ℕ
  pub address : h.ptr ≡ base + start * page_size
  pub inside : start + get_required_pages h.size ≤ n
  pub owned : (i : ℕ) → start ≤ i → i < start + get_required_pages h.size → owner i ≡ part_of start
  pub noted : (infos start).size ≡ h.size
  pub flagged : (infos start).is_start_of_buffer ≡ true
  pub large : max_block_size < h.size
  pub no_wrap : h.size + page_size ≤ word

pub data IsGranted (owner : Owners) (base n : ℕ) (infos : PageInfos) (h : Allocation) : Type 0 where
  small :
      (b : ℕ)
      → IsBlock owner base n b h.ptr
      → h.size ≤ block_size b
      → IsGranted owner base n infos h
  large : IsPages owner base n infos h → IsGranted owner base n infos h

abbrev pub pointers : List Allocation → List ℕ
pointers = map λ h. h.ptr

abbrev pub bucket : ℕ → McKusickAllocator → List ℕ
bucket b s = get_or s.freelistarr b []

-- The state of an allocator with `n` pages, of which a client holds the blocks `held`: free pages are
-- blank and in address order, a page that is split notes the size of its blocks, each held block and
-- each block of a bucket lies in pages of its own owner, and no block stands twice in a bucket, is held
-- twice, or stands in a bucket and is held.
pub record IsSound (n : ℕ) (owner : Owners) (s : McKusickAllocator) (held : List Allocation)
    : Type 0 where
  pub laid : IsLaid n s
  pub unowned : Every (λ i. owner i ≡ free_page) s.free_page_info
  pub sizes :
      (i b : ℕ)
      → i < n
      → owner i ≡ split_for b
      → ((s.page_infos i).size ≡ block_size b) × (b < bucket_count)
  pub granted : Every (IsGranted owner s.initial_memory n s.page_infos) held
  pub held_apart : AreDistinct (pointers held)
  pub buckets : length s.freelistarr ≡ bucket_count
  pub blocks : (b : ℕ) → b < bucket_count → Every (IsBlock owner s.initial_memory n b) (bucket b s)
  pub blocks_apart : (b : ℕ) → b < bucket_count → AreDistinct (bucket b s)
  pub blocks_unused : (b : ℕ) → b < bucket_count → Every (λ x. IsNew x (pointers held)) (bucket b s)

module _ {ℓ} {A : Type ℓ} where
  pub Every-weaken : (P Q : A → Type 0) (l : List A) → ((x : A) → P x → Q x) → Every P l → Every Q l
  Every-weaken P Q [] f e = tt
  Every-weaken P Q (x ∷ l) f (h, e) = (f x h, Every-weaken P Q l f e)

  pub Every-append : (P : A → Type 0) (l k : List A) → Every P l → Every P k → Every P (l ++ k)
  Every-append P [] k e f = f
  Every-append P (x ∷ l) k (h, e) f = (h, Every-append P l k e f)

  -- An entry of the list, and the others.
  pub Every_middle :
      (P : A → Type 0) (l : List A) (x : A) (k : List A)
      → Every P (l ++ x ∷ k)
      → P x × Every P (l ++ k)
  Every_middle P [] x k e = e
  Every_middle P (y ∷ l) x k (h, e) = let (at, rest) = Every_middle P l x k e in (at, (h, rest))

pub AreDistinct-middle :
    (l : List ℕ) (x : ℕ) (k : List ℕ)
    → AreDistinct (l ++ x ∷ k)
    → IsNew x (l ++ k) × AreDistinct (l ++ k)
AreDistinct-middle [] x k d = d
AreDistinct-middle (y ∷ l) x k (new, d) =
    let (at, rest) = AreDistinct-middle l x k d in
    let (other, new') = Every_middle (λ z. z ≢ y) l x k new in
    ((λ e. other (sym e), at), (new', rest))

pub get_or-set_self :
    (arr : List (List ℕ)) (b : ℕ) (v : List ℕ) → b < length arr → get_or (set arr b v) b [] ≡ v
get_or-set_self [] b v h = absurd (omega arith)
get_or-set_self (x ∷ arr) zero v h = refl
get_or-set_self (x ∷ arr) (suc b) v h = get_or-set_self arr b v (omega arith)

pub get_or-set_other :
    (arr : List (List ℕ)) (b c : ℕ) (v : List ℕ)
    → c ≢ b
    → get_or (set arr b v) c [] ≡ get_or arr c []
get_or-set_other [] b c v h = refl
get_or-set_other (x ∷ arr) zero zero v h = absurd (h refl)
get_or-set_other (x ∷ arr) zero (suc c) v h = refl
get_or-set_other (x ∷ arr) (suc b) zero v h = refl
get_or-set_other (x ∷ arr) (suc b) (suc c) v h = get_or-set_other arr b c v λ e. h (ap suc e)

-- A property of every bucket after a write to one.
pub bucket_set :
    (P : ℕ → List ℕ → Type 0) (arr : List (List ℕ)) (b : ℕ) (v : List ℕ)
    → b < length arr
    → P b v
    → ((c : ℕ) → c ≢ b → c < bucket_count → P c (get_or arr c []))
    → (c : ℕ) → c < bucket_count
    → P c (get_or (set arr b v) c [])
bucket_set P arr b v room new old c h = elim (ℕ_discrete c b) [
  | yes e ↦
      subst (λ k. P k (get_or (set arr b v) k [])) (sym e)
        (subst (P b) (sym (get_or-set_self arr b v room)) new)
  | no ne ↦ subst (P c) (sym (get_or-set_other arr b c v ne)) (old c ne h)
]

pub block_size_pos : (b : ℕ) → 0 < block_size b
block_size_pos zero = omega arith
block_size_pos (suc b) = omega (arith, block_size_pos b)

-- Two blocks at one address are of one bucket.
pub one_bucket :
    (owner : Owners) (base n b c x : ℕ)
    → IsBlock owner base n b x
    → IsBlock owner base n c x
    → b ≡ c
one_bucket owner base n b c x k l =
    let same : k.page ≡ l.page =
      omega (arith, k.address, l.address, k.fits, l.fits, block_size_pos b, block_size_pos c) in
    split_for-inj (sym k.owned ∙ ap owner same ∙ l.owned)
