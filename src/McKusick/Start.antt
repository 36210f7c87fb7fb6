-- ===== src/McKusick/Start.antt =====
-- The constructor of Labs/CP/src/Mckusey-Carels.cpp.
use mai_os_labs.Prelude.{
  ℕ, zero, suc, ◌+◌, ◌-◌, ◌*◌, ◌/◌, ◌%◌, ◌<◌, ◌≤◌, ◌≡◌, inl, inr, refl, sym, false, List, [], ◌∷◌,
  Option, some, arith, ltb, ◌==◌, Bool-cases, word, replicate, mul64, add64, sub64, get_or,
}
use mai_os_labs.McKusick.{
  McKusickAllocator, PageInfos, init, page_size, bucket_count, indices, meta_pages,
}
use mai_os_labs.McKusick.Layout.{IsRising, AreBlank}
use mai_os_labs.McKusick.Ownership.{Owners, free_page, Every, bucket, IsSound}
use mai_os_labs.McKusick.Ownership.Refill.{split_not_free}

abbrev all_free : Owners
all_free i = free_page

-- The pages of the constructor's mapping, and those for blocks.
abbrev pub mapped_pages : ℕ → ℕ
mapped_pages memory_size = sub64 (add64 memory_size page_size) 1 / page_size

abbrev pub block_pages : ℕ → ℕ
block_pages memory_size = mapped_pages memory_size - meta_pages (mapped_pages memory_size)

indices-IsRising : (i n top : ℕ) → i + n ≤ top → IsRising i top (indices i n)
indices-IsRising i zero top h = tt
indices-IsRising i (suc n) top h =
    (omega arith, omega arith, indices-IsRising (suc i) n top (omega arith))

module _ (base : ℕ) where
  abbrev pub new_infos : PageInfos
  new_infos i = record { page_addr = base + i * page_size; size = 0; is_start_of_buffer = false }

  new-AreBlank : (l : List ℕ) → AreBlank new_infos l
  new-AreBlank [] = tt
  new-AreBlank (p ∷ l) = (refl, refl, new-AreBlank l)

every_free : (l : List ℕ) → Every (λ i. all_free i ≡ free_page) l
every_free [] = tt
every_free (p ∷ l) = (refl, every_free l)

pub few_meta_pages : (total : ℕ) → 1 < total → meta_pages total < total
unfolding meta_pages
few_meta_pages total h = elim (Bool-cases (ltb (total * 32 / page_size * page_size) (total * 32))) [
  | inl e ↦ rw e (omega arith)
  | inr e ↦ rw e (omega arith)
]

some_meta_page : (total : ℕ) → 1 < total → 0 < meta_pages total
unfolding meta_pages
some_meta_page total h = elim (Bool-cases (ltb (total * 32 / page_size * page_size) (total * 32))) [
  | inl e ↦ rw e (omega arith)
  | inr e ↦
      rw e
        (let whole : total * 32 ≤ total * 32 / page_size * page_size = ground arith in omega arith)
]

pub no_block : (k b : ℕ) → get_or (replicate {A = List ℕ} k []) b [] ≡ []
no_block zero b = refl
no_block (suc k) zero = refl
no_block (suc k) (suc b) = no_block k b

abbrev pub new_state : ℕ → ℕ → McKusickAllocator
new_state memory total = record {
  freelistarr = replicate bucket_count [];
  free_page_info = indices 0 (total - meta_pages total);
  page_infos = new_infos (memory + page_size * meta_pages total);
  initial_memory = memory + page_size * meta_pages total;
  total_pages = total;
  total_meta_pages = meta_pages total;
}

pub new_state-IsSound :
    (memory total : ℕ)
    → 1 < total
    → memory % page_size ≡ 0
    → memory + total * page_size ≤ word
    → IsSound (total - meta_pages total) all_free (new_state memory total) []
new_state-IsSound memory total two aligned inside =
    let few = few_meta_pages total two in
    let some_meta = some_meta_page total two in
    record {
      laid = record {
        count = refl;
        not_null = omega arith;
        aligned = omega arith;
        inside = omega arith;
        in_order = λ i lt. refl;
        rising = indices-IsRising 0 (total - meta_pages total) _ (omega arith);
        blank = new-AreBlank (memory + page_size * meta_pages total) _;
      };
      unowned = every_free _;
      sizes = λ i b lt e. absurd (split_not_free b (sym e));
      granted = tt;
      held_apart = tt;
      buckets = refl;
      blocks = λ b lt. rw (no_block bucket_count b) tt;
      blocks_apart = λ b lt. rw (no_block bucket_count b) tt;
      blocks_unused = λ b lt. rw (no_block bucket_count b) tt;
    }

-- Where more than a page is asked for, and its sum with a page does not wrap around, and mmap gives an
-- aligned mapping of the asked length within the address space, the constructor succeeds. The allocator
-- is sound with nothing held, all its pages stand in its list of free pages, in the order of their
-- addresses, and none has another owner; every bucket is empty.
pub init-IsSound :
    (mmap : ℕ → Option ℕ) (memory_size memory : ℕ)
    → page_size < memory_size
    → memory_size + page_size ≤ word
    → mmap (mul64 (mapped_pages memory_size) page_size) ≡ some memory
    → memory % page_size ≡ 0
    → memory + mapped_pages memory_size * page_size ≤ word
    → (owner : Owners) × (s : McKusickAllocator) × (init mmap memory_size ≡ some s)
      × IsSound (block_pages memory_size) owner s []
      × (s.free_page_info ≡ indices 0 (block_pages memory_size))
      × ((page : ℕ) → owner page ≡ free_page)
      × ((b : ℕ) → bucket b s ≡ [])
unfolding init
init-IsSound mmap memory_size memory large no_wrap mapped aligned inside =
    let total : ℕ = mapped_pages memory_size in
    let two_pages : 1 < total = omega arith in
    let few = few_meta_pages total two_pages in
    let some_left : (total == meta_pages total) ≡ false = ground arith in
    (
      all_free,
      new_state memory total,
      rw (init, mapped, some_left) refl,
      new_state-IsSound memory total two_pages aligned inside,
      refl,
      (λ page. refl),
      no_block bucket_count,
    )
