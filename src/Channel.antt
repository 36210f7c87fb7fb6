-- ===== src/Channel.antt =====
-- Labs/Lab3/src/parent.cpp and its children child1.cpp and child2.cpp: the parent puts lines into one of two
-- blocks of shared memory. The text of child2.cpp is that of child1.cpp, the names of the semaphore and
-- the file included, so both children read the first block and none the second; `true` is the first
-- child. What stands between `sem_wait` and `sem_post` is one step, as are a child's test that takes it
-- to `sem_wait` and the one that ends its loop; a line is what `fgets` gives, without a zero byte.
pub mod Vowels
pub mod Phases
pub mod Delivery
pub mod Ending
pub mod Startup
use mai_os_labs.Prelude.{
  update, ℕ, zero, suc, ◌+◌, ◌≤◌, ◌<◌, ◌≡◌, ◌≢◌, Bool, true, false, ◌&&◌, ◌||◌, List, [], ◌∷◌, ◌++◌,
  length, get_or, set, take, drop, replicate, leb, ◌==◌, if◌then◌else◌,
}

abbrev pub max_line : ℕ
max_line = 1000

-- `tolower`, in the "C" locale.
abbrev pub to_lower : ℕ → ℕ
to_lower c = if leb b'A' c && leb c b'Z' then c + 32 else c

abbrev pub is_one_of : ℕ → List ℕ → Bool
is_one_of c [] = false
is_one_of c (d ∷ ds) = c == d || is_one_of c ds

unfoldable pub is_vowel : ℕ → Bool
is_vowel c = is_one_of (to_lower c) (b'a' ∷ b'e' ∷ b'i' ∷ b'o' ∷ b'u' ∷ [])

-- The loop of `removeVowels`, with the bytes of the array as fuel.
unfoldable pub remove_loop : ℕ → ℕ → ℕ → List ℕ → List ℕ
remove_loop zero i j str = str
remove_loop (suc fuel) i j str =
    let c = get_or str i 0 in
    let skipped = remove_loop fuel (i + 1) j str in
    let copied = remove_loop fuel (i + 1) (j + 1) (set str j c) in
    if c == 0 then set str j 0 else if is_vowel c then skipped else copied

unfoldable pub remove_vowels : List ℕ → List ℕ
remove_vowels str = remove_loop (length str) 0 0 str

-- The string at the start of an array.
unfoldable pub c_string : List ℕ → List ℕ
c_string [] = []
c_string (c ∷ str) = if c == 0 then [] else c ∷ c_string str

-- The `n` bytes that `strncpy` writes.
unfoldable pub strncpy_bytes : ℕ → List ℕ → List ℕ
strncpy_bytes zero src = []
strncpy_bytes (suc n) [] = replicate (suc n) 0
strncpy_bytes (suc n) (c ∷ src) = if c == 0 then replicate (suc n) 0 else c ∷ strncpy_bytes n src

-- A child's array, whether it has seen a line and waits for the semaphore, and whether it has left its loop.
pub record Reader : Type 0 where
  pub buffer : List ℕ
  pub at_sem : Bool
  pub exited : Bool

-- The first block, the children, and `done` of both blocks. Newest first are the lines that the parent
-- has put into the first and the second block, and what the children have written to their files.
pub record Channel : Type 0 where
  pub data_bytes : List ℕ
  pub size : ℕ
  pub done : Bool
  pub children : Bool → Reader
  pub sent : List (List ℕ)
  pub unread : List (List ℕ)
  pub written : List (Bool × List ℕ)

-- The body of the parent's loop, for the first block.
unfoldable pub send_line : List ℕ → Channel → Channel
send_line line s = record s {
  data_bytes = strncpy_bytes (length line) line ++ drop (length line) s.data_bytes;
  size = length line;
  sent = line ∷ s.sent;
}

-- The body of a child's loop behind `sem_wait`. Where the other child has taken the line meanwhile the
-- size is 0, and the child writes the empty string.
unfoldable pub take_line : Bool → Channel → Channel
take_line b s =
    let filled = strncpy_bytes s.size s.data_bytes ++ drop s.size (s.children b).buffer in
    let cleaned = remove_vowels (set filled s.size 0) in
    record s {
      children =
          update s.children b
            (record { buffer = cleaned; at_sem = false; exited = (s.children b).exited });
      written = if s.size == 0 then s.written else (b, c_string cleaned) ∷ s.written;
      size = 0;
    }

-- What `fgets` gives: at least one byte, and one byte of the array for the final zero.
abbrev pub HasNoZero : List ℕ → Type 0
HasNoZero [] = Unit {0}
HasNoZero (c ∷ l) = (c ≢ 0) × HasNoZero l

pub record IsLine (line : List ℕ) : Type 0 where
  pub text : HasNoZero line
  pub some_byte : 0 < length line
  pub short : length line < max_line

pub data Step : Channel → Channel → Type 0 where
  parent_sends :
      (s : Channel) (line : List ℕ) → s.done ≡ false → IsLine line → Step s (send_line line s)
  parent_sends_other :
      (s : Channel) (line : List ℕ)
      → s.done ≡ false
      → IsLine line
      → Step s (record s { unread = line ∷ s.unread })
  parent_ends : (s : Channel) → Step s (record s { done = true })
  child_sees :
      (s : Channel) (b : Bool)
      → (s.children b).exited ≡ false
      → (s.children b).at_sem ≡ false
      → 0 < s.size
      → Step s
          (record s { children = update s.children b (record (s.children b) { at_sem = true }) })
  child_takes :
      (s : Channel) (b : Bool)
      → (s.children b).exited ≡ false
      → (s.children b).at_sem ≡ true
      → Step s (take_line b s)
  child_ends :
      (s : Channel) (b : Bool)
      → (s.children b).exited ≡ false
      → (s.children b).at_sem ≡ false
      → s.done ≡ true
      → s.size ≡ 0
      → Step s
          (record s { children = update s.children b (record (s.children b) { exited = true }) })

pub data Steps : Channel → Channel → Type 0 where
  here : (s : Channel) → Steps s s
  then : {s t u : Channel} → Steps s t → Step t u → Steps s u

-- New blocks; a child's array holds anything.
abbrev pub start : List ℕ → (Bool → List ℕ) → Channel
start data_bytes buffers = record {
  data_bytes = data_bytes;
  size = 0;
  done = false;
  children = λ b. record { buffer = buffers b; at_sem = false; exited = false };
  sent = [];
  unread = [];
  written = [];
}

-- What was written, by either child.
abbrev pub texts : List (Bool × List ℕ) → List (List ℕ)
texts [] = []
texts ((b, text) ∷ written) = text ∷ texts written
