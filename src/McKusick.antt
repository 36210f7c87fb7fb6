-- ===== src/McKusick.antt =====
-- Labs/CP/src/Mckusey-Carels.cpp: the class `McKusickAllocator`. A linked list is the list of what it
-- links: `freelistarr` holds the addresses of free blocks, `free_page_info` the indices of page
-- infos in the array at `metadata_memory`. So the `next` of a page that is in no list, which the
-- code sets and never reads, is left out; McKusick/Linked.antt has the pointers. `none` stands for
-- undefined behaviour, or for the exception of the constructor.
pub mod Buckets
pub mod Pages
pub mod Blocks
pub mod Layout
pub mod Large
pub mod RoundTrip
pub mod Ownership
pub mod Linked
pub mod Session
pub mod Start
use mai_os_labs.Prelude.{
  ℕ, zero, suc, ◌+◌, ◌-◌, ◌*◌, ◌/◌, ◌%◌, ◌^◌, max, Bool, true, false, ◌||◌, List, [], ◌∷◌, ◌++◌,
  Option, none, some, ltb, leb, ◌==◌, if◌then◌else◌, add64, sub64, mul64, get_or, set, replicate,
}
use mathlib.Core.Option

infixl 5 ◌>>=◌
abbrev pub ◌>>=◌ {ℓ κ} : {A : Type ℓ} {B : Type κ} → Option A → (A → Option B) → Option B
none >>= f = none
some a >>= f = f a

abbrev pub page_size : ℕ
page_size = 4096

abbrev pub min_block_size : ℕ
min_block_size = 32

abbrev pub max_block_size : ℕ
max_block_size = 4096

abbrev pub bucket_count : ℕ
bucket_count = 8

pub record PageInfo : Type 0 where
  pub page_addr : ℕ
  pub size : ℕ
  pub is_start_of_buffer : Bool

-- The array of page infos.
abbrev pub PageInfos : Type 0
PageInfos = ℕ → PageInfo

pub record McKusickAllocator : Type 0 where
  pub freelistarr : List (List ℕ)
  pub free_page_info : List ℕ
  pub page_infos : PageInfos
  pub initial_memory : ℕ
  pub total_pages : ℕ
  pub total_meta_pages : ℕ

-- The number of binary digits of a word, read with fuel.
unfoldable pub bit_length : ℕ → ℕ → ℕ
bit_length zero x = 0
bit_length (suc fuel) x = let rest = bit_length fuel (x / 2) in if x == 0 then 0 else suc rest

-- `__builtin_clzl`: undefined at 0.
unfoldable pub clzl : ℕ → Option ℕ
unfolding bit_length
clzl x = if x == 0 then none else some (64 - bit_length 64 x)

-- `size_t(1) << n`: undefined from the width of the word on.
abbrev pub shift_one : ℕ → Option ℕ
shift_one n = if ltb n 64 then some (2 ^ n) else none

-- `__builtin_ctz` of a number that is not 0, with fuel.
unfoldable pub ctz : ℕ → ℕ → ℕ
ctz zero x = 0
ctz (suc fuel) x = let rest = ctz fuel (x / 2) in if x % 2 == 1 then 0 else suc rest

unfoldable pub get_bucket_index : ℕ → Option ℕ
unfolding clzl ctz
get_bucket_index size = if ltb max_block_size size then some bucket_count else do
  zeros ← clzl (sub64 size 1)
  rounded ← shift_one (64 - zeros)
  some (ctz 32 (max min_block_size rounded) - 5)

unfoldable pub get_required_pages : ℕ → ℕ
get_required_pages size = sub64 (add64 size page_size) 1 / page_size

-- The walk of `insert_sorted` behind the first page.
unfoldable pub insert_after : PageInfos → ℕ → List ℕ → List ℕ
insert_after infos page [] = page ∷ []
insert_after infos page (q ∷ rest) =
    if ltb (infos q).page_addr (infos page).page_addr
    then q ∷ insert_after infos page rest
    else page ∷ q ∷ rest

unfoldable pub insert_sorted : PageInfos → ℕ → List ℕ → List ℕ
insert_sorted infos page [] = page ∷ []
insert_sorted infos page (p ∷ rest) =
    if ltb (infos page).page_addr (infos p).page_addr
    then page ∷ p ∷ rest
    else p ∷ insert_after infos page rest

-- The inner loop of `find_consecutive_pages`: how many pages follow on one another from the page
-- at `start` on, `num_pages` at most, and the list behind them.
unfoldable pub walk_pages : PageInfos → ℕ → ℕ → ℕ → List ℕ → ℕ × List ℕ
walk_pages infos start num_pages found [] = (found, [])
walk_pages infos start num_pages found (q ∷ rest) =
    let further = walk_pages infos start num_pages (found + 1) rest in
    if ltb found num_pages
    then (if (infos q).page_addr == add64 start (mul64 found page_size)
        then further
        else (found, q ∷ rest))
    else (found, q ∷ rest)

-- The outer loop: the first page of a range of `num_pages`, and the list without the range.
unfoldable pub find_range : PageInfos → ℕ → List ℕ → Option (ℕ × List ℕ)
find_range infos num_pages [] = none
find_range infos num_pages (p ∷ rest) =
    let (found, after) = walk_pages infos (infos p).page_addr num_pages 1 rest in
    let later = find_range infos num_pages rest in
    if found == num_pages then some (p, after) else Option.map (λ r. (r.0, p ∷ r.1)) later

abbrev pub update : PageInfos → ℕ → PageInfo → PageInfos
update infos i info j = if j == i then info else infos j

abbrev pub set_start : ℕ → Bool → PageInfos → PageInfos
set_start i b infos = update infos i (record (infos i) { is_start_of_buffer = b })

-- The loop that links the pages of a range: `n` more pages, of which `first` tells whether the
-- next is the first one.
unfoldable pub mark_range : ℕ → Bool → ℕ → PageInfos → PageInfos
mark_range zero first walker infos = set_start walker false infos
mark_range (suc n) first walker infos =
    mark_range n false (walker + 1) (set_start walker first infos)

unfoldable pub find_consecutive_pages : ℕ → McKusickAllocator → Option (ℕ × McKusickAllocator)
find_consecutive_pages num_pages s =
    if num_pages == 0
    then none
    else Option.map
        (λ r. (
          r.0,
          record s {
            free_page_info = r.1;
            page_infos = mark_range (num_pages - 1) true r.0 s.page_infos;
          },
        ))
        (find_range s.page_infos num_pages s.free_page_info)

-- The blocks of a page, from `block_ptr` on.
unfoldable pub blocks_from : ℕ → ℕ → ℕ → List ℕ
blocks_from zero block_ptr block_size = []
blocks_from (suc n) block_ptr block_size =
    block_ptr ∷ blocks_from n (block_ptr + block_size) block_size

unfoldable pub split_page : ℕ → ℕ → McKusickAllocator → Option McKusickAllocator
split_page page block_size s = do
  bucket ← get_bucket_index block_size
  some (record s {
    freelistarr = set s.freelistarr bucket (
        blocks_from (page_size / block_size) (s.page_infos page).page_addr block_size
        ++ get_or s.freelistarr bucket []);
    page_infos =
        update s.page_infos page
          (record (s.page_infos page) { size = block_size; is_start_of_buffer = false });
  })

-- The index of the page info for a pointer that is not `nullptr`.
unfoldable pub find_page_info : ℕ → McKusickAllocator → Option ℕ
find_page_info ptr s =
    let page_index = sub64 (ptr / page_size * page_size) s.initial_memory / page_size in
    if leb (s.total_pages - s.total_meta_pages) page_index then none else some page_index

-- The constructor: `mmap len` is the address of a new mapping, or `none` for `MAP_FAILED`. With no
-- page left for blocks the loop bound `total_pages - total_meta_pages - 1` wraps around, and the
-- writes leave the mapping.
unfoldable pub meta_pages : ℕ → ℕ
meta_pages total =
    let rounded_down = total * 32 / page_size in
    if ltb (rounded_down * page_size) (total * 32) then rounded_down + 1 else rounded_down

-- `0`, `1`, … below `n`, from `i` on.
abbrev pub indices : ℕ → ℕ → List ℕ
indices i zero = []
indices i (suc n) = i ∷ indices (suc i) n

unfoldable pub init : (ℕ → Option ℕ) → ℕ → Option McKusickAllocator
unfolding meta_pages
init mmap memory_size = do
  let total = sub64 (add64 memory_size page_size) 1 / page_size
  memory ← mmap (mul64 total page_size)
  let meta = meta_pages total
  let base = memory + page_size * meta
  if total == meta
      then none
      else some (record {
        freelistarr = replicate bucket_count [];
        free_page_info = indices 0 (total - meta);
        page_infos =
            λ i. record { page_addr = base + i * page_size; size = 0; is_start_of_buffer = false };
        initial_memory = base;
        total_pages = total;
        total_meta_pages = meta;
      })

-- The head of a list of free blocks is taken; `refill` is what was done to have one.
abbrev pub pop_block : ℕ → McKusickAllocator → ℕ × McKusickAllocator
pop_block bucket s = elim (get_or s.freelistarr bucket []) [
  | [] ↦ (0, s)
  | block ∷ rest ↦ (block, record s { freelistarr = set s.freelistarr bucket rest })
]

-- A free page is split for an empty bucket; the answer 0 is `nullptr`.
unfoldable pub refill_bucket : ℕ → McKusickAllocator → Option McKusickAllocator
refill_bucket bucket s = elim s.free_page_info [
  | [] ↦ some s
  | page ∷ rest ↦ split_page page (min_block_size * 2 ^ bucket) (record s { free_page_info = rest })
]

unfoldable pub alloc_small : ℕ → McKusickAllocator → Option (ℕ × McKusickAllocator)
alloc_small size s = do
  bucket ← get_bucket_index size
  ready ← elim (get_or s.freelistarr bucket []) [ [] ↦ refill_bucket bucket s | _ ∷ _ ↦ some s ]
  some (pop_block bucket ready)

unfoldable pub alloc_large : ℕ → McKusickAllocator → ℕ × McKusickAllocator
alloc_large size s = elim (find_consecutive_pages (get_required_pages size) s) [
  | none ↦ (0, s)
  | some (start, t) ↦ (
    (t.page_infos start).page_addr,
    record t {
      page_infos =
          update t.page_infos start
            (record (t.page_infos start) { size = size; is_start_of_buffer = true });
    },
  )
]

unfoldable pub alloc : ℕ → McKusickAllocator → Option (ℕ × McKusickAllocator)
alloc size s =
    if size == 0
    then some (0, s)
    else if leb size max_block_size
    then alloc_small size s
    else some (alloc_large size s)

-- The loop of `free` over the `n` pages from `page` on.
unfoldable pub free_pages : ℕ → ℕ → McKusickAllocator → McKusickAllocator
free_pages zero page s = s
free_pages (suc n) page s =
    let infos =
      update s.page_infos page
        (record (s.page_infos page) { size = 0; is_start_of_buffer = false }) in
    free_pages n (page + 1)
      (record s { page_infos = infos; free_page_info = insert_sorted infos page s.free_page_info })

unfoldable pub free_block : ℕ → ℕ → McKusickAllocator → Option McKusickAllocator
free_block ptr page s = do
  bucket ← get_bucket_index (s.page_infos page).size
  some (record s { freelistarr = set s.freelistarr bucket (ptr ∷ get_or s.freelistarr bucket []) })

unfoldable pub free : ℕ → McKusickAllocator → Option McKusickAllocator
free ptr s = if ptr == 0 then some s else elim (find_page_info ptr s) [
  | none ↦ some s
  | some page ↦
      if leb (s.page_infos page).size max_block_size
      then free_block ptr page s
      else some (
          if (s.page_infos page).is_start_of_buffer
          then free_pages (get_required_pages (s.page_infos page).size) page s
          else s)
]
