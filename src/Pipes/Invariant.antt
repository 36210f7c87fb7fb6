-- ===== src/Pipes/Invariant.antt =====
-- What holds in every run of the processes of Labs/Lab1/src in which both children open their files.
use mai_os_labs.Prelude.{
  update, update-all, ℕ, ◌≡◌, ◌≢◌, refl, sym, ap, subst, ◌∙◌, Bool, true, false, List, [], ◌∷◌,
  ◌++◌, some, arith, append_assoc, append-nil, inl, inr, Bool-cases,
}
use mai_os_labs.Pipes.Files.{AreShort}
use mai_os_labs.Pipes.Table.{Table, reads, writes, close, Lacks, no_descriptors, close-Lacks}
use mai_os_labs.Pipes.System.{
  Child, System, Step, parent_writes, parent_dies, parent_closes, child_fails, child_reads,
  child_ends, parent_returns, Steps, here, then, launch, sent_to,
}

-- A child has read, or has in its pipe, just what was written to it; it ends when there is no more.
pub record IsServed (total : List ℕ) (lines : List (Bool × List ℕ)) (in_loop : Bool) (b : Bool)
    (c : Child) : Type 0 where
  pub content : c.received ++ (c.pipe ++ sent_to b lines) ≡ total
  pub input : c.ended ≡ false → c.table 0 ≡ some (reads b)
  pub mute : (k : Bool) → Lacks (writes k) c.table
  pub done : c.ended ≡ true → (c.pipe ≡ []) × (in_loop ≡ false)

module _ (room : ℕ) (ends : Bool → ℕ) (opens : Bool → Bool) (total : Bool → List ℕ)
    (all_open : (b : Bool) → opens b ≡ true) where
  pub record IsRunning (s : System) : Type 0 where
    pub served : (b : Bool) → IsServed (total b) s.lines s.in_loop b (s.children b)
    pub open_ends : s.in_loop ≡ true → (b : Bool) → s.parent (ends b) ≡ some (writes b)
    pub given_up : (k : Bool) → Lacks (writes k) (close (ends false) (close (ends true) s.parent))
    pub closed : s.in_loop ≡ false → (s.lines ≡ []) × ((k : Bool) → Lacks (writes k) s.parent)
    pub short : AreShort s.lines
    pub over : s.returned ≡ true → (b : Bool) → (s.children b).ended ≡ true
    pub alive : s.killed ≡ false

  -- A write to the child's own pipe, and one to the other's.
  own_write :
      (t bytes : List ℕ) (lines rest : List (Bool × List ℕ)) (b : Bool) (c : Child)
      → sent_to b lines ≡ bytes ++ sent_to b rest
      → IsServed t lines true b c
      → IsServed t rest true b (record c { pipe = c.pipe ++ bytes })
  own_write t bytes lines rest b c e i = record {
    content =
        ap (λ k. c.received ++ k) (append_assoc c.pipe bytes (sent_to b rest))
        ∙ ap (λ k. c.received ++ (c.pipe ++ k)) (sym e)
        ∙ i.content;
    input = i.input;
    mute = i.mute;
    done = λ p. absurd (true-false (i.done p).1);
  }
    where
      true-false : true ≢ false
      true-false p = ground arith

  other_write :
      (t : List ℕ) (lines rest : List (Bool × List ℕ)) (b : Bool) (c : Child)
      → sent_to b lines ≡ sent_to b rest
      → IsServed t lines true b c
      → IsServed t rest true b c
  other_write t lines rest b c e i = record {
    content = ap (λ k. c.received ++ (c.pipe ++ k)) (sym e) ∙ i.content;
    input = i.input;
    mute = i.mute;
    done = i.done;
  }

  writes-IsServed :
      (b : Bool) (bytes : List ℕ) (lines : List (Bool × List ℕ)) (f : Bool → Child)
      → ((x : Bool) → IsServed (total x) ((b, bytes) ∷ lines) true x (f x))
      → (x : Bool)
      → IsServed (total x) lines true x (update f b (record (f b) { pipe = (f b).pipe ++ bytes }) x)
  writes-IsServed true bytes lines f h true = own_write _ bytes _ lines true (f true) refl (h true)
  writes-IsServed true bytes lines f h false = other_write _ _ lines false (f false) refl (h false)
  writes-IsServed false bytes lines f h true = other_write _ _ lines true (f true) refl (h true)
  writes-IsServed false bytes lines f h false =
      own_write _ bytes _ lines false (f false) refl (h false)

  closes-IsServed :
      (t : List ℕ) (lines : List (Bool × List ℕ)) (in_loop : Bool) (b : Bool) (c : Child)
      → IsServed t lines in_loop b c
      → IsServed t lines false b c
  closes-IsServed t lines in_loop b c i = record {
    content = i.content;
    input = i.input;
    mute = i.mute;
    done = λ p. ((i.done p).0, refl);
  }

  reads-IsServed :
      (t : List ℕ) (lines : List (Bool × List ℕ)) (in_loop b : Bool) (c : Child)
      (some_bytes rest : List ℕ)
      → c.ended ≡ false
      → c.pipe ≡ some_bytes ++ rest
      → IsServed t lines in_loop b c
      → IsServed t lines in_loop b (record c { pipe = rest; received = c.received ++ some_bytes })
  reads-IsServed t lines in_loop b c some_bytes rest runs e i = record {
    content =
        append_assoc c.received some_bytes (rest ++ sent_to b lines)
        ∙ ap (λ k. c.received ++ k) (sym (append_assoc some_bytes rest (sent_to b lines)))
        ∙ ap (λ k. c.received ++ (k ++ sent_to b lines)) (sym e)
        ∙ i.content;
    input = i.input;
    mute = i.mute;
    done = λ p. absurd (ground arith);
  }

  ends-IsServed :
      (t : List ℕ) (lines : List (Bool × List ℕ)) (in_loop b : Bool) (c : Child)
      → c.pipe ≡ []
      → in_loop ≡ false
      → IsServed t lines in_loop b c
      → IsServed t lines in_loop b (record c { ended = true; table = no_descriptors })
  ends-IsServed t lines in_loop b c e over i = record {
    content = i.content;
    input = λ p. absurd (ground arith);
    mute = λ k x p. ground arith;
    done = λ p. (e, over);
  }

  Step-IsRunning : {s t : System} → Step room ends opens s t → IsRunning s → IsRunning t
  Step-IsRunning (parent_writes s b bytes lines e looping at fits) r = record {
    served = λ x.
        subst
          (λ k.
            IsServed (total x) lines k x (
              update s.children b (record (s.children b) { pipe = (s.children b).pipe ++ bytes })
                x))
          (sym looping)
          (writes-IsServed b bytes lines s.children
            (λ y.
              subst (λ l. IsServed (total y) l true y (s.children y)) e
                (subst (λ k. IsServed (total y) s.lines k y (s.children y)) looping (r.served y)))
            x);
    open_ends = r.open_ends;
    given_up = r.given_up;
    closed = λ p. absurd (ground arith);
    short = (subst AreShort e r.short).1;
    over = λ p. update-all (λ x c. c.ended ≡ true) s.children b _ (r.over p b) (r.over p);
    alive = r.alive;
  }
  Step-IsRunning (parent_dies s b bytes lines e looping at no_parent no_reader) r =
      elim (Bool-cases (s.children b).ended) [
        | inl done ↦ absurd (ground (arith, ((r.served b).done done).1))
        | inr runs ↦ absurd (no_reader b 0 ((r.served b).input runs))
      ]
  Step-IsRunning (child_fails s b runs fails) r = absurd (ground (arith, all_open b))
  Step-IsRunning (parent_closes s e looping) r = record {
    served = λ x. closes-IsServed _ s.lines s.in_loop x (s.children x) (r.served x);
    open_ends = λ p. absurd (ground arith);
    given_up = λ k. close-Lacks _ (writes k) _ (close-Lacks _ (writes k) _ (r.given_up k));
    closed = λ p. (e, r.given_up);
    short = r.short;
    over = r.over;
    alive = r.alive;
  }
  Step-IsRunning (child_reads s b c bytes rest opened runs at e) r = record {
    served =
        update-all (λ x. IsServed (total x) s.lines s.in_loop x) s.children b _
          (reads-IsServed _ s.lines s.in_loop b (s.children b) (c ∷ bytes) rest runs e (r.served b))
          r.served;
    open_ends = r.open_ends;
    given_up = r.given_up;
    closed = r.closed;
    short = r.short;
    over = λ p. update-all (λ x c. c.ended ≡ true) s.children b _ (r.over p b) (r.over p);
    alive = r.alive;
  }
  Step-IsRunning (child_ends s b opened runs at e no_parent no_child) r =
      let over : s.in_loop ≡ false = elim (Bool-cases s.in_loop) [
        | inl looping ↦ absurd (no_parent (ends b) (r.open_ends looping b))
        | inr over ↦ over
      ] in
      record {
        served =
            update-all (λ x. IsServed (total x) s.lines s.in_loop x) s.children b _
              (ends-IsServed _ s.lines s.in_loop b (s.children b) e over (r.served b)) r.served;
        open_ends = r.open_ends;
        given_up = r.given_up;
        closed = r.closed;
        short = r.short;
        over = λ p. update-all (λ x c. c.ended ≡ true) s.children b _ refl (r.over p);
        alive = r.alive;
      }
  Step-IsRunning (parent_returns s over waits alive ended) r = record {
    served = r.served;
    open_ends = r.open_ends;
    given_up = r.given_up;
    closed = r.closed;
    short = r.short;
    over = λ p. ended;
    alive = r.alive;
  }

  pub Steps-IsRunning :
      {n : ℕ} {s t : System} → Steps room ends opens n s t → IsRunning s → IsRunning t
  Steps-IsRunning (here s) r = r
  Steps-IsRunning (then steps step) r = Step-IsRunning step (Steps-IsRunning steps r)

  pub launched :
      (parent : Table) (tables : Bool → Table) (lines : List (Bool × List ℕ))
      → ((b : Bool) → sent_to b lines ≡ total b)
      → AreShort lines
      → ((b : Bool) → parent (ends b) ≡ some (writes b))
      → ((b : Bool) → Lacks (writes b) (close (ends false) (close (ends true) parent)))
      → ((b : Bool) → tables b 0 ≡ some (reads b))
      → ((b k : Bool) → Lacks (writes k) (tables b))
      → IsRunning (launch parent tables lines)
  launched parent tables lines all short can_write gives_up inputs mute = record {
    served = λ b. record {
      content = all b;
      input = λ p. inputs b;
      mute = mute b;
      done = λ p. absurd (ground arith);
    };
    open_ends = λ p. can_write;
    given_up = gives_up;
    closed = λ p. absurd (ground arith);
    short = short;
    over = λ p. absurd (ground arith);
    alive = refl;
  }

  -- Once the parent has returned, each child has read all that was written to it.
  pub received_all :
      {s : System}
      → IsRunning s
      → s.returned ≡ true
      → (b : Bool) → (s.children b).received ≡ total b
  received_all {s} r back b =
      let c = s.children b in
      let i = r.served b in
      let (empty, over) = i.done (r.over back b) in
      sym (append-nil c.received)
      ∙ ap (λ l. c.received ++ sent_to b l) (sym (r.closed over).0)
      ∙ ap (λ p. c.received ++ (p ++ sent_to b s.lines)) (sym empty)
      ∙ i.content
