-- ===== src/Examples/ChannelRuns.antt =====
-- Concrete runs of Labs/Lab3/src/parent.cpp and its children: the line "hi" and its newline.
use mathlib.Core.List.{Sublistᴰ, map}
use mai_os_labs.Prelude.{
  Bool, update, ℕ, false, List, [], ◌∷◌, ◌≡◌, ◌<◌, arith, refl, true, length, replicate,
  length-replicate,
}
use mai_os_labs.Channel.{
  Channel, HasNoZero, IsLine, Steps, parent_sends, parent_ends, child_takes, child_sees, texts,
  child_ends, here, then, start, send_line, take_line, is_vowel,
}
use mai_os_labs.Channel.Vowels.{without_vowels}
use mai_os_labs.Channel.Startup.{
  Answers, create_file2, no_names, create_sems, prepare_file1, prepare_file2, parent_setup,
  parent_main, parent_runs, child1_starts, child2_starts,
}
use mai_os_labs.Channel.Startup.Leftovers.{parent_main-succeeds, failed_run-blocks}
use mai_os_labs.Channel.Delivery.{Steps-written, Steps-EndsWithLast, EndsWithLast}
use mai_os_labs.Channel.Ending.{Steps-can_end}

abbrev hi : List ℕ
hi = b'h' ∷ b'i' ∷ 10 ∷ []

hi-HasNoZero : HasNoZero hi
hi-HasNoZero = (omega arith, (omega arith, (omega arith, tt)))

hi_lost_its_vowel : without_vowels hi ≡ b'h' ∷ 10 ∷ []
unfolding is_vowel
hi_lost_its_vowel = refl

hi-IsLine : IsLine hi
hi-IsLine = record { text = hi-HasNoZero; some_byte = omega arith; short = omega arith }

abbrev empty_array : List ℕ
empty_array = replicate 1000 0

empty_array_room : length empty_array ≡ 1000
empty_array_room = length-replicate {A = ℕ} 1000 0

abbrev begun : Channel
begun = start [] (λ b. empty_array)

-- The parent has sent the line and ended.
abbrev ended : Channel
ended = record (send_line hi begun) { done = true }

ended-Steps : Steps begun ended
ended-Steps =
    then (then (here begun) (parent_sends begun hi refl hi-IsLine))
      (parent_ends (send_line hi begun))

Steps-written_example :
    Sublistᴰ (texts ended.written) (map without_vowels ended.sent)
    × ((b : Bool) → ended.size < length (ended.children b).buffer)
Steps-written_example =
    Steps-written [] (λ b. empty_array) ended (λ b. empty_array_room) ended-Steps

Steps-can_end_example :
    (t : Channel) × Steps ended t
    × ((t.children false).exited ≡ true)
    × (t.sent ≡ ended.sent)
    × EndsWithLast t
unfolding send_line
Steps-can_end_example =
    Steps-can_end [] (λ b. empty_array) ended false (λ b. empty_array_room) ended-Steps refl refl

-- Both children have seen the line, the second has taken it, and the first finds nothing and ends.
abbrev seen : Channel
seen = record ended {
  children = update ended.children true (record (ended.children true) { at_sem = true });
}

abbrev seen_twice : Channel
seen_twice = record seen {
  children = update seen.children false (record (seen.children false) { at_sem = true });
}

abbrev taken : Channel
taken = take_line false seen_twice

abbrev found_nothing : Channel
found_nothing = take_line true taken

abbrev child_ended : Channel
child_ended = record found_nothing {
  children =
      update found_nothing.children true (record (found_nothing.children true) { exited = true });
}

child_ended-Steps : Steps begun child_ended
unfolding take_line send_line
child_ended-Steps =
    then
      (then
        (then
          (then (then ended-Steps (child_sees ended true refl refl (omega arith)))
            (child_sees seen false refl refl (omega arith)))
          (child_takes seen_twice false refl refl))
        (child_takes taken true refl refl))
      (child_ends found_nothing true refl refl refl refl)

Steps-EndsWithLast_example : EndsWithLast child_ended
unfolding take_line send_line
Steps-EndsWithLast_example =
    Steps-EndsWithLast [] (λ b. empty_array) child_ended true (λ b. empty_array_room)
      child_ended-Steps refl

-- Every call succeeds, and one where the second file cannot be made.
abbrev all_well : Answers
all_well c = true

abbrev second_file_fails : Answers
second_file_fails create_file2 = false
second_file_fails c = true

parent_main-succeeds_example :
    (no_names.sem1 ≡ false)
    × (no_names.sem2 ≡ false)
    × ((parent_main all_well no_names).1 ≡ no_names)
    × (child1_starts all_well 2 (parent_setup all_well no_names).1 ≡ true)
    × (child2_starts all_well 2 (parent_setup all_well no_names).1 ≡ true)
unfolding parent_main parent_setup create_sems prepare_file1 prepare_file2
parent_main-succeeds_example = parent_main-succeeds all_well all_well no_names refl

failed_run-blocks_example :
    parent_runs (second_file_fails ∷ all_well ∷ all_well ∷ []) no_names ≡ 1 ∷ 1 ∷ 1 ∷ []
unfolding parent_main parent_setup create_sems prepare_file1 prepare_file2
failed_run-blocks_example =
    failed_run-blocks second_file_fails (all_well ∷ all_well ∷ []) no_names refl refl
