-- ===== src/Pipes/Program.antt =====
-- The three programs of Labs/Lab1/src together: what the children write, and that the parent returns.
use mai_os_labs.Prelude.{
  ℕ, suc, ◌≤◌, ◌≡◌, refl, sym, ap, subst, Bool, true, false, List, [], ◌∷◌, ◌++◌, Option, some,
  length, arith, inl, inr, Bool-cases, Option-cases,
}
use mai_os_labs.Channel.{HasNoZero}
use mai_os_labs.Channel.Vowels.{without_vowels}
use mai_os_labs.Pipes.{child_main, send_lines, finished}
use mai_os_labs.Pipes.Input.{scanf_word}
use mai_os_labs.Pipes.Files.{
  child_main-without_vowels, send_lines-all_bytes, all_bytes, AreShort, HasNoZero-parts,
}
use mai_os_labs.Pipes.Table.{Table, reads, writes, open_pipe, Lacks}
use mai_os_labs.Pipes.Launch.{
  Launched, Start, both, start, AreFresh, parent_table, child1_table, child2_table, by_child,
  child1_table-Lacks, child2_table-Lacks, child1_table-input, child2_table-input,
  parent_table-writes, parent_table-Lacks,
}
use mai_os_labs.Pipes.System.{System, Step, Steps, launch, sent_to}
use mai_os_labs.Pipes.Invariant.{IsRunning, Steps-IsRunning, launched, received_all}
use mai_os_labs.Pipes.Progress.{goes_on}

-- The writes that the parent's loop makes of what the names leave of the input.
abbrev pub parent_writes_of : (ℕ → Bool) → List ℕ → Launched → List (Bool × List ℕ)
parent_writes_of choose array l = send_lines (suc (length l.input)) choose 0 array l.input

abbrev pub beginning : (ℕ → Bool) → List ℕ → Launched → System
beginning choose array l = launch l.parent l.children (parent_writes_of choose array l)

HasNoZero-together : (a b : List ℕ) → HasNoZero a → HasNoZero b → HasNoZero (a ++ b)
HasNoZero-together [] b ha hb = hb
HasNoZero-together (c ∷ a) b (ne, ha) hb = (ne, HasNoZero-together a b ha hb)

HasNoZero-sent_to :
    (b : Bool) (lines : List (Bool × List ℕ))
    → HasNoZero (all_bytes lines)
    → HasNoZero (sent_to b lines)
HasNoZero-sent_to b [] h = tt
HasNoZero-sent_to true ((true, bytes) ∷ lines) h =
    let (now, later) = HasNoZero-parts bytes (all_bytes lines) h in
    HasNoZero-together bytes _ now (HasNoZero-sent_to true lines later)
HasNoZero-sent_to true ((false, bytes) ∷ lines) h =
    HasNoZero-sent_to true lines (HasNoZero-parts bytes (all_bytes lines) h).1
HasNoZero-sent_to false ((true, bytes) ∷ lines) h =
    HasNoZero-sent_to false lines (HasNoZero-parts bytes (all_bytes lines) h).1
HasNoZero-sent_to false ((false, bytes) ∷ lines) h =
    let (now, later) = HasNoZero-parts bytes (all_bytes lines) h in
    HasNoZero-together bytes _ now (HasNoZero-sent_to false lines later)

of_both : Launched → Option Start → Launched
of_both l (some (both k)) = k
of_both l o = l

module _ (r1 w1 r2 w2 : ℕ) (t : Table) where
  abbrev pub piped : Table
  piped = open_pipe false (r2, w2) (open_pipe true (r1, w1) t)

  abbrev pub tables : Bool → Table
  tables = by_child (child1_table (r1, w1) (r2, w2) piped) (child2_table (r1, w1) (r2, w2) piped)

  -- Where both children are started, their descriptors and the parent's are these.
  start-tables :
      (fork1 fork2 : Bool) (input : List ℕ) (l : Launched)
      → start (some (r1, w1)) (some (r2, w2)) fork1 fork2 input t ≡ some (both l)
      → (l.parent ≡ parent_table (r1, w1) (r2, w2) piped) × (l.children ≡ tables)
  unfolding start of_both
  start-tables fork1 fork2 input l e = elim (Option-cases (scanf_word 255 input)) [
    | inl missing ↦ absurd (ground (arith, rw (start, missing) at e))
    | inr ((name, rest), one) ↦ elim (Option-cases (scanf_word 255 rest)) [
      | inl missing ↦ absurd (ground (arith, rw (start, one, missing) at e))
      | inr (name2, two) ↦ elim (Bool-cases fork1) [
        | inr failed ↦ absurd (ground (arith, rw (start, one, two, failed) at e))
        | inl forked ↦ elim (Bool-cases fork2) [
          | inr failed ↦ absurd (ground (arith, rw (start, one, two, forked, failed) at e))
          | inl forked2 ↦
              let same = ap (of_both l) (rw (start, one, two, forked, forked2) at e) in
              (
                ap (λ (k : Launched). k.parent) (sym same),
                ap (λ (k : Launched). k.children) (sym same),
              )
        ]
      ]
    ]
  ]

module _ (r1 w1 r2 w2 : ℕ) (t : Table) (fresh : AreFresh r1 w1 r2 w2 t) (fork1 fork2 : Bool)
    (input : List ℕ) (l : Launched)
    (starts : start (some (r1, w1)) (some (r2, w2)) fork1 fork2 input t ≡ some (both l))
    (text : HasNoZero l.input) (choose : ℕ → Bool) (array : List ℕ) (room : ℕ)
    (opens : Bool → Bool) where
  abbrev lines : List (Bool × List ℕ)
  lines = parent_writes_of choose array l

  all_sent : (all_bytes lines ≡ l.input) × AreShort lines
  all_sent = send_lines-all_bytes (suc (length l.input)) choose 0 array l.input text (omega arith)

  beginning-IsRunning :
      (all_open : (b : Bool) → opens b ≡ true)
      → IsRunning room
          (by_child w1 w2)
          opens
          (λ b. sent_to b lines)
          all_open
          (beginning choose array l)
  beginning-IsRunning all_open =
      let (same_parent, same_children) = start-tables r1 w1 r2 w2 t fork1 fork2 input l starts in
      rw (same_parent, same_children)
        (launched room (by_child w1 w2) opens (λ b. sent_to b lines) all_open _ _ lines (λ b. refl)
          all_sent.1 can_write (parent_table-Lacks r1 w1 r2 w2 t fresh) inputs mute)
    where
      can_write :
          (b : Bool)
          → parent_table (r1, w1) (r2, w2) (piped r1 w1 r2 w2 t) (by_child w1 w2 b)
            ≡ some (writes b)
      can_write true = (parent_table-writes r1 w1 r2 w2 t fresh).0
      can_write false = (parent_table-writes r1 w1 r2 w2 t fresh).1

      inputs : (b : Bool) → tables r1 w1 r2 w2 t b 0 ≡ some (reads b)
      inputs true = child1_table-input r1 w1 r2 w2 t fresh
      inputs false = child2_table-input r1 w1 r2 w2 t fresh

      mute : (b k : Bool) → Lacks (writes k) (tables r1 w1 r2 w2 t b)
      mute true k = child1_table-Lacks r1 w1 r2 w2 t fresh k
      mute false k = child2_table-Lacks r1 w1 r2 w2 t fresh k

  -- Where the pipes and both children were made, both children can open their files and the lines
  -- have no zero byte: the parent's writes are the bytes of its input, each once and in order; and
  -- however the processes take turns, once the parent has returned, each child has written to the
  -- file that it opened what was written to its pipe, in order and without the vowels.
  pub start-delivers :
      (n : ℕ) (s : System)
      → ((b : Bool) → opens b ≡ true)
      → Steps room (by_child w1 w2) opens n (beginning choose array l) s
      → s.returned ≡ true
      → (all_bytes (parent_writes_of choose array l) ≡ l.input)
        × ((b : Bool) (array' : List ℕ)
            → child_main 2 (opens b) array' (s.children b).received
              ≡ finished (without_vowels (sent_to b (parent_writes_of choose array l))))
  start-delivers n s all_open steps back =
      let r = Steps-IsRunning room _ opens _ all_open steps (beginning-IsRunning all_open) in
      (
        all_sent.0,
        λ b array'.
            let all = received_all room _ opens _ all_open r back b in
            rw (all, all_open b)
              (child_main-without_vowels array' (sent_to b lines)
                (HasNoZero-sent_to b lines (subst HasNoZero (sym all_sent.0) text))),
      )

  -- Where the pipes and both children were made, both children can open their files, the lines have
  -- no zero byte and pipes hold at least 999 bytes, the processes do not get stuck: no signal kills
  -- the parent, and until it has returned, some process can take a step.
  pub start-goes_on :
      (n : ℕ) (s : System)
      → ((b : Bool) → opens b ≡ true)
      → 999 ≤ room
      → Steps room (by_child w1 w2) opens n (beginning choose array l) s
      → (s.killed ≡ false)
        × (s.returned ≡ false → (u : System) × Step room (by_child w1 w2) opens s u)
  start-goes_on n s all_open large steps =
      let r = Steps-IsRunning room _ opens _ all_open steps (beginning-IsRunning all_open) in
      (r.alive, λ waits. goes_on room _ opens _ all_open s r (omega arith) waits)
