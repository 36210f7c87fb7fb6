-- ===== src/Pipes/System.antt =====
-- The parent's loop and the two children of Labs/Lab1/src as a relation of steps, in any order: a
-- `write` puts its bytes into the pipe at once where there is room, a child reads some bytes, and it is at
-- the end of its input once its pipe is empty and no process can write to it. A child whose `fopen` fails
-- exits, and a `write` to a pipe that no process can read kills the parent by SIGPIPE. `execl` gives
-- each child one argument, so it does not end for its usage.
use mai_os_labs.Prelude.{
  update, ℕ, suc, ◌+◌, ◌≤◌, ◌≡◌, Bool, true, false, List, [], ◌∷◌, ◌++◌, some, length,
}
use mai_os_labs.Pipes.Table.{Table, reads, writes, close, Lacks, no_descriptors}

-- The child's descriptors, the bytes in its pipe, what it has read, and whether it has ended.
pub record Child : Type 0 where
  pub table : Table
  pub pipe : List ℕ
  pub received : List ℕ
  pub ended : Bool

-- The parent's descriptors, the writes to come, whether it is in its loop, whether it has
-- returned, and whether a signal has killed it.
pub record System : Type 0 where
  pub parent : Table
  pub lines : List (Bool × List ℕ)
  pub in_loop : Bool
  pub children : Bool → Child
  pub returned : Bool
  pub killed : Bool

-- `room` is what a pipe holds, `ends b` is the descriptor for writing to pipe `b`, and `opens b` says
-- whether `fopen` gives the child of pipe `b` its file.
module _ (room : ℕ) (ends : Bool → ℕ) (opens : Bool → Bool) where
  pub data Step : System → System → Type 0 where
    parent_writes :
        (s : System) (b : Bool) (bytes : List ℕ) (lines : List (Bool × List ℕ))
        → s.lines ≡ (b, bytes) ∷ lines
        → s.in_loop ≡ true
        → s.parent (ends b) ≡ some (writes b)
        → length (s.children b).pipe + length bytes ≤ room
        → Step s (record s {
          lines = lines;
          children =
              update s.children b (record (s.children b) { pipe = (s.children b).pipe ++ bytes });
        })
    parent_dies :
        (s : System) (b : Bool) (bytes : List ℕ) (lines : List (Bool × List ℕ))
        → s.lines ≡ (b, bytes) ∷ lines
        → s.in_loop ≡ true
        → s.parent (ends b) ≡ some (writes b)
        → Lacks (reads b) s.parent
        → ((c : Bool) → Lacks (reads b) (s.children c).table)
        → Step s (record s { in_loop = false; parent = no_descriptors; killed = true })
    parent_closes :
        (s : System)
        → s.lines ≡ []
        → s.in_loop ≡ true
        → Step s
            (record s { in_loop = false; parent = close (ends false) (close (ends true) s.parent) })
    child_fails :
        (s : System) (b : Bool)
        → (s.children b).ended ≡ false
        → opens b ≡ false
        → Step s (record s {
          children =
              update s.children b (record (s.children b) { ended = true; table = no_descriptors });
        })
    child_reads :
        (s : System) (b : Bool) (c : ℕ) (bytes rest : List ℕ)
        → opens b ≡ true
        → (s.children b).ended ≡ false
        → (s.children b).table 0 ≡ some (reads b)
        → (s.children b).pipe ≡ (c ∷ bytes) ++ rest
        → Step s (record s {
          children = update s.children b (record (s.children b) {
            pipe = rest;
            received = (s.children b).received ++ (c ∷ bytes);
          });
        })
    child_ends :
        (s : System) (b : Bool)
        → opens b ≡ true
        → (s.children b).ended ≡ false
        → (s.children b).table 0 ≡ some (reads b)
        → (s.children b).pipe ≡ []
        → Lacks (writes b) s.parent
        → ((c : Bool) → Lacks (writes b) (s.children c).table)
        → Step s (record s {
          children =
              update s.children b (record (s.children b) { ended = true; table = no_descriptors });
        })
    parent_returns :
        (s : System)
        → s.in_loop ≡ false
        → s.returned ≡ false
        → s.killed ≡ false
        → ((b : Bool) → (s.children b).ended ≡ true)
        → Step s (record s { returned = true })

  pub data Steps : ℕ → System → System → Type 0 where
    here : (s : System) → Steps 0 s s
    then : {n : ℕ} {s t u : System} → Steps n s t → Step t u → Steps (suc n) s u

-- The system as the parent comes to its loop.
abbrev pub launch : Table → (Bool → Table) → List (Bool × List ℕ) → System
launch parent children lines = record {
  parent = parent;
  lines = lines;
  in_loop = true;
  children = λ b. record { table = children b; pipe = []; received = []; ended = false };
  returned = false;
  killed = false;
}

-- The bytes of the writes to pipe `b`, in order.
abbrev pub sent_to : Bool → List (Bool × List ℕ) → List ℕ
sent_to b [] = []
sent_to true ((true, bytes) ∷ lines) = bytes ++ sent_to true lines
sent_to true ((false, bytes) ∷ lines) = sent_to true lines
sent_to false ((true, bytes) ∷ lines) = sent_to false lines
sent_to false ((false, bytes) ∷ lines) = bytes ++ sent_to false lines
