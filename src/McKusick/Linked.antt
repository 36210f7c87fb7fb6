-- ===== src/McKusick/Linked.antt =====
-- The lists of Labs/CP/src/Mckusey-Carels.cpp as the code keeps them: by pointers, which it reads and
-- writes. A pointer to a block is its address; a pointer to a page info is one more than its index in
-- the array at `metadata_memory`; 0 is `nullptr`. `none` stands for undefined behaviour and for the
-- end of the fuel of a loop.
pub mod Chain
pub mod Spelling
pub mod Refill
pub mod Small
pub mod SmallFree
pub mod Insert
pub mod Search
pub mod LargeRequest
pub mod LargeFree
pub mod Refinement
pub mod Calls
pub mod Histories
pub mod Start
use mai_os_labs.Prelude.{
  ℕ, zero, suc, ◌+◌, ◌-◌, ◌*◌, ◌/◌, ◌^◌, Bool, true, false, Option, none, some, ltb, leb, ◌==◌,
  if◌then◌else◌, add64, sub64, mul64,
}
use mai_os_labs.McKusick.{
  PageInfo, PageInfos, page_size, min_block_size, max_block_size, get_bucket_index,
  get_required_pages, meta_pages, update, set_start, ◌>>=◌,
}

-- `freelistarr` by bucket, `FreeBlock::next` by address, `PageInfo::next` by pointer.
pub record Linked : Type 0 where
  pub freelistarr : ℕ → ℕ
  pub free_page_info : ℕ
  pub block_next : ℕ → ℕ
  pub page_next : ℕ → ℕ
  pub page_infos : PageInfos
  pub initial_memory : ℕ
  pub total_pages : ℕ
  pub total_meta_pages : ℕ

abbrev pub write : (ℕ → ℕ) → ℕ → ℕ → ℕ → ℕ
write cells a v x = if x == a then v else cells x

-- The index of the page info that a pointer points to, and what it points to.
abbrev pub index : ℕ → ℕ
index zero = 0
index (suc i) = i

abbrev pub info : PageInfos → ℕ → PageInfo
info infos page = infos (index page)

-- The loop of `insert_sorted`: the page behind which the new page goes.
unfoldable pub find_place : ℕ → PageInfos → (ℕ → ℕ) → ℕ → ℕ → Option ℕ
find_place zero infos next page current = none
find_place (suc fuel) infos next page current =
    let further = find_place fuel infos next page (next current) in
    if next current == 0
    then some current
    else if ltb (info infos (next current)).page_addr (info infos page).page_addr
    then further
    else some current

unfoldable pub insert_sorted : ℕ → Linked → Option Linked
insert_sorted page l =
    let in_front = record l {
      page_next = write l.page_next page l.free_page_info;
      free_page_info = page;
    } in
    let place = find_place l.total_pages l.page_infos l.page_next page l.free_page_info in
    if l.free_page_info == 0
    then some in_front
    else if ltb (info l.page_infos page).page_addr (info l.page_infos l.free_page_info).page_addr
    then some in_front
    else do
      current ← place
      some (record l {
        page_next = write (write l.page_next page (l.page_next current)) current page;
      })

-- The inner loop of `find_consecutive_pages`: the length of the run, and its last page.
unfoldable pub walk : ℕ → PageInfos → (ℕ → ℕ) → ℕ → ℕ → ℕ → ℕ → ℕ × ℕ
walk zero infos next start num_pages found walker = (found, walker)
walk (suc fuel) infos next start num_pages found walker =
    let further = walk fuel infos next start num_pages (found + 1) (next walker) in
    if ltb found num_pages
    then (if next walker == 0
        then (found, walker)
        else if (info infos (next walker)).page_addr == add64 start (mul64 found page_size)
        then further
        else (found, walker))
    else (found, walker)

-- The outer loop: the page in front of the range, the range's first page, and its last one.
unfoldable pub search : ℕ → PageInfos → (ℕ → ℕ) → ℕ → ℕ → ℕ → Option (Option (ℕ × ℕ × ℕ))
search zero infos next num_pages prev current = none
search (suc fuel) infos next num_pages prev current =
    let later = search fuel infos next num_pages current (next current) in
    let (found, last) =
      walk num_pages infos next (info infos current).page_addr num_pages 1 current in
    if current == 0
    then some none
    else if found == num_pages
    then some (some (prev, current, last))
    else later

-- The range is taken out of the list.
unfoldable pub unlink : ℕ → ℕ → Linked → Linked
unlink prev last l =
    if prev == 0
    then record l { free_page_info = l.page_next last }
    else record l { page_next = write l.page_next prev (l.page_next last) }

-- The pages of the range are linked: `n` more, of which `first` tells whether the next is the first.
unfoldable pub link_range : ℕ → Bool → ℕ → Linked → Linked
link_range zero first walker l = record l {
  page_next = write l.page_next walker 0;
  page_infos = set_start (index walker) false l.page_infos;
}
link_range (suc n) first walker l = link_range n false (walker + 1) (record l {
  page_next = write l.page_next walker (walker + 1);
  page_infos = set_start (index walker) first l.page_infos;
})

unfoldable pub find_consecutive_pages : ℕ → Linked → Option (ℕ × Linked)
find_consecutive_pages num_pages l = if num_pages == 0 then some (0, l) else do
  found ← search (suc l.total_pages) l.page_infos l.page_next num_pages 0 l.free_page_info
  elim found [
    | none ↦ some (0, l)
    | some (prev, start, last) ↦
        some (start, link_range (num_pages - 1) true start (unlink prev last l))
  ]

-- The loop of `split_page` from `block_ptr` on: the last block, and what the blocks point to.
unfoldable pub link_blocks : ℕ → ℕ → ℕ → (ℕ → ℕ) → ℕ × (ℕ → ℕ)
link_blocks zero block_ptr block_size next = (block_ptr, next)
link_blocks (suc n) block_ptr block_size next =
    link_blocks n (block_ptr + block_size) block_size
      (write next block_ptr (block_ptr + block_size))

unfoldable pub split_page : ℕ → ℕ → Linked → Option Linked
split_page page block_size l = do
  bucket ← get_bucket_index block_size
  let address = (info l.page_infos page).page_addr
  let linked = link_blocks (sub64 (page_size / block_size) 1) address block_size l.block_next
  some (record l {
    freelistarr = write l.freelistarr bucket address;
    block_next = write linked.1 linked.0 (l.freelistarr bucket);
    page_infos =
        update l.page_infos (index page)
          (record (info l.page_infos page) { size = block_size; is_start_of_buffer = false });
  })

-- The end of `alloc` for a small block.
abbrev pub take_first : ℕ → Linked → ℕ × Linked
take_first bucket l =
    let block = l.freelistarr bucket in
    (block, record l { freelistarr = write l.freelistarr bucket (l.block_next block) })

unfoldable pub alloc_small : ℕ → Linked → Option (ℕ × Linked)
alloc_small size l = do
  bucket ← get_bucket_index size
  let page = l.free_page_info
  let without = record l { free_page_info = l.page_next page }
  if l.freelistarr bucket == 0
      then (if page == 0 then some (0, l) else do
        ready ← split_page page (min_block_size * 2 ^ bucket) without
        some (take_first bucket ready))
      else some (take_first bucket l)

unfoldable pub alloc_large : ℕ → Linked → Option (ℕ × Linked)
alloc_large size l = do
  found ← find_consecutive_pages (get_required_pages size) l
  let start = found.0
  let t = found.1
  if start == 0
      then some (0, t)
      else some (
        (info t.page_infos start).page_addr,
        record t {
          page_infos =
              update t.page_infos (index start)
                (record (info t.page_infos start) { size = size; is_start_of_buffer = true });
        },
      )

unfoldable pub alloc : ℕ → Linked → Option (ℕ × Linked)
alloc size l =
    if size == 0
    then some (0, l)
    else if leb size max_block_size
    then alloc_small size l
    else alloc_large size l

unfoldable pub find_page_info : ℕ → Linked → ℕ
find_page_info ptr l =
    let page_index = sub64 (ptr / page_size * page_size) l.initial_memory / page_size in
    if leb (l.total_pages - l.total_meta_pages) page_index then 0 else suc page_index

-- The loop of `free` over the `n` pages from `page` on.
unfoldable pub free_pages : ℕ → ℕ → Linked → Option Linked
free_pages zero page l = some l
free_pages (suc n) page l = do
  t ← insert_sorted page (record l {
    page_infos =
        update l.page_infos (index page)
          (record (info l.page_infos page) { size = 0; is_start_of_buffer = false });
  })
  free_pages n (page + 1) t

unfoldable pub free_block : ℕ → ℕ → Linked → Option Linked
free_block ptr page l = do
  bucket ← get_bucket_index (info l.page_infos page).size
  some (record l {
    block_next = write l.block_next ptr (l.freelistarr bucket);
    freelistarr = write l.freelistarr bucket ptr;
  })

unfoldable pub free : ℕ → Linked → Option Linked
unfolding find_page_info
free ptr l =
    let page = find_page_info ptr l in
    let freed = free_pages (get_required_pages (info l.page_infos page).size) page l in
    if ptr == 0
    then some l
    else if page == 0
    then some l
    else if leb (info l.page_infos page).size max_block_size
    then free_block ptr page l
    else if (info l.page_infos page).is_start_of_buffer
    then freed
    else some l

-- The pages from `page` on are linked, `n` behind it.
abbrev pub link_infos : ℕ → ℕ → (ℕ → ℕ) → ℕ → ℕ
link_infos zero page next = write next page 0
link_infos (suc n) page next = link_infos n (page + 1) (write next page (page + 1))

-- The constructor, with what the pointers in the new mapping are before it writes them.
unfoldable pub init : (ℕ → Option ℕ) → (ℕ → ℕ) → (ℕ → ℕ) → ℕ → Option Linked
init mmap block_cells info_cells memory_size = do
  let total = sub64 (add64 memory_size page_size) 1 / page_size
  memory ← mmap (mul64 total page_size)
  let meta = meta_pages total
  let base = memory + page_size * meta
  if total == meta
      then none
      else some (record {
        freelistarr = λ b. 0;
        free_page_info = 1;
        block_next = block_cells;
        page_next = link_infos (total - meta - 1) 1 info_cells;
        page_infos =
            λ i. record { page_addr = base + i * page_size; size = 0; is_start_of_buffer = false };
        initial_memory = base;
        total_pages = total;
        total_meta_pages = meta;
      })
