-- ===== src/Channel/Startup/Leftovers.antt =====
-- What is left of the names by the parent of Labs/Lab3/src, and what its children find.
use mai_os_labs.Prelude.{
  ◌≡◌, ◌⊎◌, inl, inr, refl, true, false, ◌&&◌, ◌||◌, List, [], ◌∷◌, map, arith, Bool-cases,
}
use mai_os_labs.Channel.Startup.{
  Call, create_file1, resize_file1, create_file2, resize_file2, open_file1, open_file2, map_file1,
  map_file2, fork1, fork2, Answers, Names, create_sem1, create_sem2, create_sems, prepare_file1,
  prepare_file2, parent_setup, parent_main, parent_runs, child1_starts, child2_starts, open_sem,
  open_file, stat_file, map_file, open_output, no_names,
}

-- Some semaphore of the program exists.
abbrev pub IsBlocked : Names → Type 0
IsBlocked n = (n.sem1 ≡ true) ⊎ (n.sem2 ≡ true)

-- Where no semaphore exists and no call fails, the parent comes to its loop, each child comes to its own
-- with one argument, and the parent's end leaves none of the names.
pub parent_setup-serves :
    (ok own : Answers) (n : Names)
    → n.sem1 ≡ false
    → n.sem2 ≡ false
    → ((c : Call) → ok c ≡ true)
    → ((c : Call) → own c ≡ true)
    → ((parent_setup ok n).0 ≡ true)
      × (child1_starts own 2 (parent_setup ok n).1 ≡ true)
      × (child2_starts own 2 (parent_setup ok n).1 ≡ true)
      × (parent_main ok n ≡ (0, no_names))
unfolding parent_main parent_setup create_sems prepare_file1 prepare_file2 child1_starts
    child2_starts
parent_setup-serves ok own n free1 free2 every all =
    rw
      (
        parent_main,
        child1_starts,
        child2_starts,
        parent_setup,
        free1,
        free2,
        every create_sem1,
        every create_sem2,
        every create_file1,
        every resize_file1,
        every create_file2,
        every resize_file2,
        every open_file1,
        every open_file2,
        every map_file1,
        every map_file2,
        every fork1,
        every fork2,
        all open_sem,
        all open_file,
        all stat_file,
        all map_file,
        all open_output,
      )
      (refl, refl, refl, refl)

-- A run of the parent that succeeds has found neither semaphore and leaves none of the names, and while it
-- ran a child with one argument could be kept from its loop only by a failing call of its own.
pub parent_main-succeeds :
    (ok own : Answers) (n : Names)
    → (parent_main ok n).0 ≡ 0
    → (n.sem1 ≡ false)
      × (n.sem2 ≡ false)
      × ((parent_main ok n).1 ≡ no_names)
      × (child1_starts own 2 (parent_setup ok n).1
          ≡ (own open_sem && own open_file && own stat_file && own map_file && own open_output))
      × (child2_starts own 2 (parent_setup ok n).1
          ≡ (own open_sem && own open_file && own stat_file && own map_file && own open_output))
unfolding parent_main parent_setup create_sems prepare_file1 prepare_file2 child1_starts
    child2_starts
parent_main-succeeds ok own n e =
    (ground arith, ground arith, ground arith, ground arith, ground arith)

parent_main-IsBlocked :
    (ok : Answers) (n : Names)
    → IsBlocked n
    → ((parent_main ok n).0 ≡ 1) × IsBlocked (parent_main ok n).1
unfolding parent_main parent_setup create_sems prepare_file1 prepare_file2
parent_main-IsBlocked ok n (inl p) = (ground arith, inl (ground arith))
parent_main-IsBlocked ok n (inr p) = (ground arith, inr (ground arith))

parent_runs-fail :
    (oks : List Answers) (n : Names) → IsBlocked n → parent_runs oks n ≡ map (λ ok. 1) oks
unfolding parent_runs
parent_runs-fail [] n b = refl
parent_runs-fail (ok ∷ oks) n b =
    let (fails, b') = parent_main-IsBlocked ok n b in
    rw (parent_runs, fails, parent_runs-fail oks (parent_main ok n).1 b') refl

failed_run :
    (ok : Answers) (n : Names)
    → (ok create_sem1 || ok create_sem2) ≡ true
    → (parent_main ok n).0 ≡ 1
    → IsBlocked (parent_main ok n).1
unfolding parent_main parent_setup create_sems prepare_file1 prepare_file2
failed_run ok n e fails = elim (Bool-cases (ok create_sem1)) [
  | inl first ↦ inl (ground arith)
  | inr not_first ↦ inr (ground arith)
]

-- A run that can create a semaphore and ends with an error leaves one behind, and then every later run
-- ends with an error too.
pub failed_run-blocks :
    (ok : Answers) (later : List Answers) (n : Names)
    → (ok create_sem1 || ok create_sem2) ≡ true
    → (parent_main ok n).0 ≡ 1
    → parent_runs (ok ∷ later) n ≡ map (λ answers. 1) (ok ∷ later)
unfolding parent_runs
failed_run-blocks ok later n e fails =
    rw (parent_runs, fails, parent_runs-fail later (parent_main ok n).1 (failed_run ok n e fails))
      refl
