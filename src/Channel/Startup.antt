-- ===== src/Channel/Startup.antt =====
-- What Labs/Lab3/src/parent.cpp and its children do before and after their loops: the named semaphores
-- and the files for the shared memory. A name outlives the process that made it, while descriptors and
-- mappings end with it and are left out.
pub mod Leftovers
use mai_os_labs.Prelude.{ℕ, Bool, true, false, not, ◌&&◌, ◌||◌, List, [], ◌∷◌, if◌then◌else◌, ◌==◌}

-- The calls that may fail for reasons of their own; of a child, those on its own objects.
pub data Call : Type 0 where
  create_sem1 create_sem2 create_file1 resize_file1 create_file2 resize_file2 open_file1 open_file2
        map_file1 map_file2 :
      Call
  fork1 fork2 : Call
  open_sem open_file stat_file map_file open_output : Call

-- Which of the names exist: the two semaphores and the two files.
pub record Names : Type 0 where
  pub sem1 : Bool
  pub sem2 : Bool
  pub file1 : Bool
  pub file2 : Bool

-- Whether the system does what is asked, where no name stands in the way.
abbrev pub Answers : Type 0
Answers = Call → Bool

-- `sem_open` with `O_CREAT | O_EXCL`: whether it succeeds.
abbrev pub creates_sem1 : Answers → Names → Bool
creates_sem1 ok n = ok create_sem1 && not n.sem1

abbrev pub creates_sem2 : Answers → Names → Bool
creates_sem2 ok n = ok create_sem2 && not n.sem2

-- Both are tried before either is tested.
unfoldable pub create_sems : Answers → Names → Names
create_sems ok n = record n {
  sem1 = n.sem1 || creates_sem1 ok n;
  sem2 = n.sem2 || creates_sem2 ok n;
}

-- `prepareFileForMapping` on each file: whether it comes back, and the names.
unfoldable pub prepare_file1 : Answers → Names → Bool × Names
prepare_file1 ok n =
    if not (ok create_file1) then (false, n) else (ok resize_file1, record n { file1 = true })

unfoldable pub prepare_file2 : Answers → Names → Bool × Names
prepare_file2 ok n =
    if not (ok create_file2) then (false, n) else (ok resize_file2, record n { file2 = true })

-- `main` of the parent up to its loop: whether it comes there, and the names; otherwise it exits.
unfoldable pub parent_setup : Answers → Names → Bool × Names
parent_setup ok n =
    let sems = create_sems ok n in
    let (ready1, names1) = prepare_file1 ok sems in
    let (ready2, names2) = prepare_file2 ok names1 in
    if not (creates_sem1 ok n && creates_sem2 ok n)
    then (false, sems)
    else if not ready1
    then (false, names1)
    else if not ready2
    then (false, names2)
    else (
      (ok open_file1 && names2.file1 && (ok open_file2 && names2.file2))
          && (ok map_file1 && ok map_file2)
          && (ok fork1 && ok fork2),
      names2,
    )

abbrev pub no_names : Names
no_names = record { sem1 = false; sem2 = false; file1 = false; file2 = false }

-- `sem_unlink` and `unlink`, behind the loop.
abbrev pub parent_cleanup : Names → Names
parent_cleanup n = no_names

-- `main` of the parent: its exit status, and the names that it leaves.
unfoldable pub parent_main : Answers → Names → ℕ × Names
parent_main ok n =
    let (ready, names) = parent_setup ok n in
    if ready then (0, parent_cleanup names) else (1, names)

-- Runs of the program, one after the other: their exit statuses.
unfoldable pub parent_runs : List Answers → Names → List ℕ
parent_runs [] n = []
parent_runs (ok ∷ oks) n = let (status, names) = parent_main ok n in status ∷ parent_runs oks names

-- `main` of the first child up to its loop: whether it comes there; otherwise it returns 1.
unfoldable pub child1_starts : Answers → ℕ → Names → Bool
child1_starts ok argc n =
    argc == 2
    && (ok open_sem && n.sem1)
    && (ok open_file && n.file1)
    && ok stat_file
    && ok map_file
    && ok open_output

-- The same of the second child, which opens the semaphore and the file of the first.
unfoldable pub child2_starts : Answers → ℕ → Names → Bool
child2_starts ok argc n =
    argc == 2
    && (ok open_sem && n.sem1)
    && (ok open_file && n.file1)
    && ok stat_file
    && ok map_file
    && ok open_output
