-- ===== src/McKusick/Linked/Spelling.antt =====
-- Which lists the pointers of the allocator of Labs/CP/src/Mckusey-Carels.cpp stand for.
use mai_os_labs.Prelude.{ℕ, suc, ◌<◌, ◌≡◌, List, map, some}
use mai_os_labs.McKusick.{McKusickAllocator, bucket_count, alloc, free}
use mai_os_labs.McKusick.Ownership.{bucket}
use mai_os_labs.McKusick.Linked.{Linked}
use mai_os_labs.McKusick.Linked
use mai_os_labs.McKusick.Linked.Chain.{Chain}

-- The pointers of an allocator.
pub record Links : Type 0 where
  pub heads : ℕ → ℕ
  pub first : ℕ
  pub block_next : ℕ → ℕ
  pub page_next : ℕ → ℕ

-- These pointers, and all else from `s`.
abbrev pub linked : Links → McKusickAllocator → Linked
linked k s = record {
  freelistarr = k.heads;
  free_page_info = k.first;
  block_next = k.block_next;
  page_next = k.page_next;
  page_infos = s.page_infos;
  initial_memory = s.initial_memory;
  total_pages = s.total_pages;
  total_meta_pages = s.total_meta_pages;
}

abbrev pub page_pointers : List ℕ → List ℕ
page_pointers = map suc

-- The pointers spell the lists of `s`.
pub record Spells (k : Links) (s : McKusickAllocator) : Type 0 where
  pub blocks : (b : ℕ) → b < bucket_count → Chain k.block_next (k.heads b) (bucket b s)
  pub pages : Chain k.page_next k.first (page_pointers s.free_page_info)

abbrev pub Represents : Linked → McKusickAllocator → Type 0
Represents l s = (k : Links) × (l ≡ linked k s) × Spells k s

-- A request has the same answer on both, and what is left represents what is left.
abbrev pub AllocRefined : ℕ → Linked → McKusickAllocator → Type 0
AllocRefined size l s =
    (ptr : ℕ) × (t : McKusickAllocator) × (l' : Linked) × (alloc size s ≡ some (ptr, t))
    × (Linked.alloc size l ≡ some (ptr, l'))
    × Represents l' t

abbrev pub FreeRefined : ℕ → Linked → McKusickAllocator → Type 0
FreeRefined ptr l s =
    (t : McKusickAllocator) × (l' : Linked) × (free ptr s ≡ some t)
    × (Linked.free ptr l ≡ some l')
    × Represents l' t
