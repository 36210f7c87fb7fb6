-- ===== src/Pipes/Launch.antt =====
-- `main` of Labs/Lab1/src/parent.c up to the parent's loop: the two pipes, the names of the files, and
-- the children with their descriptors. `execl` succeeds, and keeps the descriptors.
use mai_os_labs.Prelude.{
  ℕ, ◌≡◌, ◌≢◌, sym, Bool, true, false, List, Option, none, some, if◌then◌else◌, arith,
}
use mai_os_labs.Pipes.Input.{scanf_word}
use mai_os_labs.Pipes.Table.{
  Table, reads, writes, close, dup2, open_pipe, Lacks, LacksBut, close-Lacks, close-LacksBut,
  close_last, dup2-Lacks, dup2-LacksBut, open_pipe-Lacks, open_pipe-LacksBut, open_pipe-keeps,
}

-- What the parent has when it comes to its loop.
pub record Launched : Type 0 where
  pub parent : Table
  pub children : Bool → Table
  pub filenames : Bool → List ℕ
  pub input : List ℕ

-- An exit before the loop, after no child, or one, was started.
pub data Start : Type 0 where
  no_child : Start
  first_child : Table → Start
  both : Launched → Start

unfoldable pub child1_table : ℕ × ℕ → ℕ × ℕ → Table → Table
child1_table (r1, w1) (r2, w2) t = close w2 (close r2 (close r1 (dup2 r1 0 (close w1 t))))

unfoldable pub child2_table : ℕ × ℕ → ℕ × ℕ → Table → Table
child2_table (r1, w1) (r2, w2) t = close w1 (close r1 (close r2 (dup2 r2 0 (close w2 t))))

-- The parent closes the ends for reading.
unfoldable pub parent_table : ℕ × ℕ → ℕ × ℕ → Table → Table
parent_table (r1, w1) (r2, w2) t = close r2 (close r1 t)

abbrev pub by_child {ℓ} : {A : Type ℓ} → A → A → Bool → A
by_child a b true = a
by_child a b false = b

-- `t` is the table that the parent starts with; `none` where a file's name is missing and its array is
-- used as it is.
unfoldable pub start : Option (ℕ × ℕ) → Option (ℕ × ℕ) → Bool → Bool → List ℕ → Table → Option Start
start none pipe2 fork1 fork2 input t = some no_child
start (some p1) none fork1 fork2 input t = some no_child
start (some p1) (some p2) fork1 fork2 input t =
    let piped = open_pipe false p2 (open_pipe true p1 t) in
    elim (scanf_word 255 input) [
      | none ↦ none
      | some (filename1, rest) ↦ elim (scanf_word 255 rest) [
        | none ↦ none
        | some (filename2, left) ↦
            if fork1
            then (if fork2
                then some (
                    both record {
                      parent = parent_table p1 p2 piped;
                      children = by_child (child1_table p1 p2 piped) (child2_table p1 p2 piped);
                      filenames = by_child filename1 filename2;
                      input = left;
                    })
                else some (first_child (child1_table p1 p2 piped)))
            else some no_child
      ]
    ]

-- What `pipe` promises of a process whose standard input is open and that has no pipe: descriptors
-- that differ from each other and from that of the input.
pub record AreFresh (r1 w1 r2 w2 : ℕ) (t : Table) : Type 0 where
  pub input : (r1 ≢ 0) × (w1 ≢ 0) × (r2 ≢ 0) × (w2 ≢ 0)
  pub first : r1 ≢ w1
  pub second : r2 ≢ w2
  pub apart : (r1 ≢ r2) × (r1 ≢ w2) × (w1 ≢ r2) × (w1 ≢ w2)
  pub no_pipe : (b : Bool) → Lacks (writes b) t

module _ (r1 w1 r2 w2 : ℕ) (t : Table) (f : AreFresh r1 w1 r2 w2 t) where
  abbrev piped : Table
  piped = open_pipe false (r2, w2) (open_pipe true (r1, w1) t)

  true-false : true ≢ false
  true-false p = ground arith

  piped-first : LacksBut w1 (writes true) piped
  piped-first =
      open_pipe-keeps false r2 w2 w1 (writes true) (open_pipe true (r1, w1) t) (λ p. ground arith)
        (λ p. ground arith) (open_pipe-LacksBut true r1 w1 t (f.no_pipe true))

  piped-second : LacksBut w2 (writes false) piped
  piped-second = open_pipe-LacksBut false r2 w2 (open_pipe true (r1, w1) t) (
      open_pipe-Lacks true r1 w1 (writes false) t (λ p. ground arith) (λ p. ground arith)
        (f.no_pipe false))

  -- A child holds no end for writing, and its standard input is its pipe.
  pub child1_table-Lacks : (b : Bool) → Lacks (writes b) (child1_table (r1, w1) (r2, w2) piped)
  unfolding child1_table
  child1_table-Lacks true =
      let gone = close_last w1 (writes true) piped piped-first in
      close-Lacks w2 (writes true) _ (
        close-Lacks r2 (writes true) _
          (close-Lacks r1 (writes true) _ (dup2-Lacks r1 0 (writes true) _ gone)))
  child1_table-Lacks false =
      let kept = close-LacksBut w2 w1 (writes false) piped piped-second in
      close_last w2 (writes false) _ (
        close-LacksBut w2 r2 (writes false) _ (
          close-LacksBut w2 r1 (writes false) _
            (dup2-LacksBut w2 r1 0 (writes false) _ f.apart.1 kept)))

  pub child2_table-Lacks : (b : Bool) → Lacks (writes b) (child2_table (r1, w1) (r2, w2) piped)
  unfolding child2_table
  child2_table-Lacks false =
      let gone = close_last w2 (writes false) piped piped-second in
      close-Lacks w1 (writes false) _ (
        close-Lacks r1 (writes false) _
          (close-Lacks r2 (writes false) _ (dup2-Lacks r2 0 (writes false) _ gone)))
  child2_table-Lacks true =
      let kept = close-LacksBut w1 w2 (writes true) piped piped-first in
      close_last w1 (writes true) _ (
        close-LacksBut w1 r1 (writes true) _ (
          close-LacksBut w1 r2 (writes true) _
            (dup2-LacksBut w1 r2 0 (writes true) _ (λ p. f.apart.2 (sym p)) kept)))

  pub child1_table-input : child1_table (r1, w1) (r2, w2) piped 0 ≡ some (reads true)
  unfolding child1_table close dup2 open_pipe
  child1_table-input = ground (arith, f.input.0, f.input.1, f.input.2, f.input.3, f.first, f.apart)

  pub child2_table-input : child2_table (r1, w1) (r2, w2) piped 0 ≡ some (reads false)
  unfolding child2_table close dup2 open_pipe
  child2_table-input = ground (arith, f.input.0, f.input.1, f.input.2, f.input.3, f.second, f.apart)

  -- The parent can write to either pipe, and has given up both once it closes the two descriptors.
  pub parent_table-writes :
      (parent_table (r1, w1) (r2, w2) piped w1 ≡ some (writes true))
      × (parent_table (r1, w1) (r2, w2) piped w2 ≡ some (writes false))
  unfolding parent_table close open_pipe
  parent_table-writes =
      (ground (arith, f.first, f.second, f.apart), ground (arith, f.first, f.second, f.apart))

  pub parent_table-Lacks :
      (b : Bool) → Lacks (writes b) (close w2 (close w1 (parent_table (r1, w1) (r2, w2) piped)))
  unfolding parent_table
  parent_table-Lacks true = close-Lacks w2 (writes true) _ (
      close_last w1 (writes true) _
        (close-LacksBut w1 r2 (writes true) _ (close-LacksBut w1 r1 (writes true) _ piped-first)))
  parent_table-Lacks false = close_last w2 (writes false) _ (
      close-LacksBut w2 w1 (writes false) _ (
        close-LacksBut w2 r2 (writes false) _ (close-LacksBut w2 r1 (writes false) _ piped-second)))
