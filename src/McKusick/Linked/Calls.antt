-- ===== src/McKusick/Linked/Calls.antt =====
-- The calls of the allocator of Labs/CP/src/Mckusey-Carels.cpp by a client that also writes to the
-- blocks that it holds, and what it sees of them.
use mai_os_labs.Prelude.{ℕ, ◌+◌, ◌≤◌, ◌≡◌, ◌≢◌, ◌⊎◌, List, [], ◌∷◌, ◌++◌, some, word}
use mai_os_labs.McKusick.{McKusickAllocator, page_size}
use mai_os_labs.McKusick.Ownership.{Allocation, Every}
use mai_os_labs.McKusick.Linked.{Linked}
use mai_os_labs.McKusick.Linked
use mai_os_labs.McKusick.Session.{Session, start, refused_alloc, granted_alloc, freed, freed_null}

-- What the client writes goes to the bytes that it holds: a word with no byte there stays.
abbrev pub IsOwnWrite : List Allocation → (ℕ → ℕ) → (ℕ → ℕ) → Type 0
IsOwnWrite held next cells =
    (x : ℕ) → Every (λ h. (x + 8 ≤ h.ptr) ⊎ (h.ptr + h.size ≤ x)) held → cells x ≡ next x

-- A client's calls of the allocator by pointers, and the writes between them to the blocks that it holds,
-- whose memory is that of the pointers `FreeBlock::next`. The page infos lie in front of the pages, where
-- no block is, so the client writes to none.
pub data LinkedSession (l₀ : Linked) : Linked → List Allocation → Type 0 where
  begun : LinkedSession l₀ l₀ []
  refused :
      {l t : Linked} {held : List Allocation} (size : ℕ)
      → LinkedSession l₀ l held
      → size + page_size ≤ word
      → Linked.alloc size l ≡ some (0, t)
      → LinkedSession l₀ t held
  granted :
      {l t : Linked} {held : List Allocation} (size ptr : ℕ)
      → LinkedSession l₀ l held
      → size + page_size ≤ word
      → Linked.alloc size l ≡ some (ptr, t)
      → ptr ≢ 0
      → LinkedSession l₀ t (record { ptr = ptr; size = size } ∷ held)
  given_back :
      {l t : Linked} (before : List Allocation) (h : Allocation) (after : List Allocation)
      {held : List Allocation}
      → LinkedSession l₀ l held
      → held ≡ before ++ h ∷ after
      → Linked.free h.ptr l ≡ some t
      → LinkedSession l₀ t (before ++ after)
  given_null :
      {l t : Linked} {held : List Allocation}
      → LinkedSession l₀ l held
      → Linked.free 0 l ≡ some t
      → LinkedSession l₀ t held
  written :
      {l : Linked} {held : List Allocation} (cells : ℕ → ℕ)
      → LinkedSession l₀ l held
      → IsOwnWrite held l.block_next cells
      → LinkedSession l₀ (record l { block_next = cells }) held

-- What a client sees of a call: a size with the answer, or a pointer that is given back.
pub data Exchange : Type 0 where
  requested : ℕ → ℕ → Exchange
  handed_back : ℕ → Exchange

-- The calls of a history, newest first.
abbrev pub exchanges :
    {s₀ s : McKusickAllocator} {held : List Allocation} → Session s₀ s held → List Exchange
exchanges start = []
exchanges (refused_alloc size h fits e) = requested size 0 ∷ exchanges h
exchanges (granted_alloc size ptr h fits e ne) = requested size ptr ∷ exchanges h
exchanges (freed before x after h e f) = handed_back x.ptr ∷ exchanges h
exchanges (freed_null h f) = handed_back 0 ∷ exchanges h

abbrev pub linked_exchanges :
    {l₀ l : Linked} {held : List Allocation} → LinkedSession l₀ l held → List Exchange
linked_exchanges begun = []
linked_exchanges (refused size h fits e) = requested size 0 ∷ linked_exchanges h
linked_exchanges (granted size ptr h fits e ne) = requested size ptr ∷ linked_exchanges h
linked_exchanges (given_back before x after h e f) = handed_back x.ptr ∷ linked_exchanges h
linked_exchanges (given_null h f) = handed_back 0 ∷ linked_exchanges h
linked_exchanges (written cells h own) = linked_exchanges h
