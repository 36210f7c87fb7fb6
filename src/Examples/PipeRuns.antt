-- ===== src/Examples/PipeRuns.antt =====
-- A whole_run of the programs of Labs/Lab1/src: the files are "a" and "b", and one line goes to the first child.
use mai_os_labs.Prelude.{
  update, ℕ, ◌≡◌, refl, Bool, true, false, List, [], ◌∷◌, ◌++◌, some, none, arith, ltb,
}
use mai_os_labs.Channel.{HasNoZero, c_string}
use mai_os_labs.Channel.Vowels.{without_vowels}
use mai_os_labs.Pipes.{child_main, finished, send_lines}
use mai_os_labs.Pipes.Input.{scanf_word, skip_spaces, word_bytes, fgets, line_bytes}
use mai_os_labs.Pipes.Files.{all_bytes, child_main-without_vowels}
use mai_os_labs.Pipes.Table.{Table, Lacks, other, writes, close, no_descriptors}
use mai_os_labs.Pipes.Launch.{
  Launched, both, start, AreFresh, parent_table, by_child, child1_table-Lacks, child2_table-Lacks,
  child1_table-input, child2_table-input, parent_table-writes, parent_table-Lacks,
}
use mai_os_labs.Pipes.System.{
  System, Step, Steps, here, then, sent_to, parent_writes, parent_closes, child_reads, child_ends,
  parent_returns,
}
use mai_os_labs.Pipes.Program.{
  parent_writes_of, beginning, start-delivers, start-goes_on, piped, tables,
}

-- Standard input, output and error.
abbrev terminal : Table
terminal x = elim (ltb x 3) [ true ↦ some other | false ↦ none ]

abbrev before : Table
before = piped 3 4 5 6 terminal

terminal-AreFresh : AreFresh 3 4 5 6 terminal
terminal-AreFresh = record {
  input = (omega arith, omega arith, omega arith, omega arith);
  first = omega arith;
  second = omega arith;
  apart = (omega arith, omega arith, omega arith, omega arith);
  no_pipe = λ b x p. ground arith;
}

abbrev typed : List ℕ
typed = b'a' ∷ 32 ∷ b'b' ∷ 32 ∷ b'h' ∷ b'i' ∷ 10 ∷ []

abbrev line : List ℕ
line = 32 ∷ b'h' ∷ b'i' ∷ 10 ∷ []

abbrev begun : Launched
begun = record {
  parent = parent_table (3, 4) (5, 6) before;
  children = tables 3 4 5 6 terminal;
  filenames = by_child (b'a' ∷ []) (b'b' ∷ []);
  input = line;
}

begun_lem : start (some (3, 4)) (some (5, 6)) true true typed terminal ≡ some (both begun)
unfolding start scanf_word skip_spaces word_bytes
begun_lem = refl

line-HasNoZero : HasNoZero line
line-HasNoZero = (omega arith, (omega arith, (omega arith, (omega arith, tt))))

abbrev always_first : ℕ → Bool
always_first k = true

line_is_sent : parent_writes_of always_first [] begun ≡ (true, line) ∷ []
unfolding send_lines fgets line_bytes c_string
line_is_sent = refl

abbrev ends : Bool → ℕ
ends = by_child 4 6

-- The line is written, the parent closes its ends, the first child reads, and all end.
abbrev s0 : System
s0 = beginning always_first [] begun

abbrev s1 : System
s1 = record s0 {
  lines = [];
  children = update s0.children true (record (s0.children true) { pipe = [] ++ line });
}

abbrev s2 : System
s2 = record s1 { in_loop = false; parent = close 6 (close 4 s1.parent) }

abbrev s3 : System
s3 = record s2 {
  children =
      update s2.children true (record (s2.children true) { pipe = []; received = [] ++ line });
}

abbrev s4 : System
s4 = record s3 {
  children =
      update s3.children true (record (s3.children true) { ended = true; table = no_descriptors });
}

abbrev s5 : System
s5 = record s4 {
  children =
      update s4.children false
        (record (s4.children false) { ended = true; table = no_descriptors });
}

abbrev s6 : System
s6 = record s5 { returned = true }

mute : (b c : Bool) → Lacks (writes b) (tables 3 4 5 6 terminal c)
mute b true = child1_table-Lacks 3 4 5 6 terminal terminal-AreFresh b
mute b false = child2_table-Lacks 3 4 5 6 terminal terminal-AreFresh b

mute_later : (b c : Bool) → Lacks (writes b) (s4.children c).table
mute_later b true = λ x p. ground arith
mute_later b false = mute b false

mute_first : (b c : Bool) → Lacks (writes b) (s3.children c).table
mute_first b true = mute b true
mute_first b false = mute b false

all_ended : (b : Bool) → (s5.children b).ended ≡ true
all_ended true = refl
all_ended false = refl

abbrev always_open : Bool → Bool
always_open b = true

run_to_writes : Steps 4096 ends always_open 1 s0 s1
run_to_writes = then (here s0) (
    parent_writes s0 true line [] line_is_sent refl
      (parent_table-writes 3 4 5 6 terminal terminal-AreFresh).0 (omega arith))

whole_run : Steps 4096 ends always_open 6 s0 s6
whole_run =
    then
      (then
        (then
          (then (then run_to_writes (parent_closes s1 refl refl)) (
            child_reads s2 true 32 (b'h' ∷ b'i' ∷ 10 ∷ []) [] refl refl
              (child1_table-input 3 4 5 6 terminal terminal-AreFresh) refl))
          (child_ends s3 true refl refl (child1_table-input 3 4 5 6 terminal terminal-AreFresh) refl
            (parent_table-Lacks 3 4 5 6 terminal terminal-AreFresh true) (mute_first true)))
        (child_ends s4 false refl refl (child2_table-input 3 4 5 6 terminal terminal-AreFresh) refl
          (parent_table-Lacks 3 4 5 6 terminal terminal-AreFresh false) (mute_later false)))
      (parent_returns s5 refl refl refl all_ended)

start-delivers_example :
    (all_bytes (parent_writes_of always_first [] begun) ≡ line)
    × ((b : Bool) (array' : List ℕ)
        → child_main 2 (always_open b) array' (s6.children b).received
          ≡ finished (without_vowels (sent_to b (parent_writes_of always_first [] begun))))
start-delivers_example =
    start-delivers 3 4 5 6 terminal terminal-AreFresh true true typed begun begun_lem line-HasNoZero
      always_first [] 4096 always_open 6 s6 (λ b. refl) whole_run refl

start-goes_on_example :
    (s1.killed ≡ false) × (s1.returned ≡ false → (u : System) × Step 4096 ends always_open s1 u)
start-goes_on_example =
    start-goes_on 3 4 5 6 terminal terminal-AreFresh true true typed begun begun_lem line-HasNoZero
      always_first [] 4096 always_open 1 s1 (λ b. refl) (omega arith) run_to_writes

child_main-without_vowels_example : child_main 2 true [] line ≡ finished (without_vowels line)
child_main-without_vowels_example = child_main-without_vowels [] line line-HasNoZero
