-- ===== src/Channel/Delivery.antt =====
-- What the children of Labs/Lab3/src/parent.cpp write of the lines that they are sent.
use mathlib.Core.List.{Sublistᴰ, map}
use mai_os_labs.Prelude.{
  Bool, update, update-all, update_self, ℕ, ◌<◌, ◌≡◌, ◌∙◌, refl, sym, ap, subst, true, false, List,
  [], ◌∷◌, arith, length, ◌⊎◌, inl, inr,
}
use mai_os_labs.Channel.{
  Channel, texts, parent_sends_other, child_sees, send_line, take_line, IsLine, Step, Steps,
  parent_sends, parent_ends, child_takes, child_ends, here, then, start, max_line,
}
use mai_os_labs.Channel.Vowels.{without_vowels}
use mai_os_labs.Channel.Phases.{
  Phase, IsReader, Inv, sent_so_far, send-Phase, take_waiting, take_nothing, unused, idle, waiting,
}

same_Phase :
    (s t : Channel)
    → Phase s
    → s.size ≡ t.size
    → s.data_bytes ≡ t.data_bytes
    → s.sent ≡ t.sent
    → texts s.written ≡ texts t.written
    → Phase t
same_Phase s t (unused z e e') a b c d = unused (sym a ∙ z) (sym c ∙ e) (sym d ∙ e')
same_Phase s t (idle line lines parts z e e' p) a b c d =
    idle line lines parts (sym a ∙ z) (sym c ∙ e) (sym d ∙ e') p
same_Phase s t (waiting line rest lines l e f g p) a b c d =
    waiting line rest lines l (sym a ∙ e) (sym b ∙ f) (sym c ∙ g)
      (subst (λ w. Sublistᴰ w (map without_vowels lines)) d p)

take-Phase :
    (b : Bool) (s : Channel)
    → length (s.children b).buffer ≡ max_line
    → Phase s
    → Phase (take_line b s) × (length ((take_line b s).children b).buffer ≡ max_line)
unfolding take_line
take-Phase b s room (waiting line rest lines l e d sent p) =
    let (w, room') = take_waiting b s line rest l room e d in
    (idle line lines (texts s.written) refl sent w p, room')
take-Phase b s room (unused z e e') =
    let (same, room') = take_nothing b s z in
    (same_Phase s (take_line b s) (unused z e e') z refl refl (ap texts (sym same)), room' ∙ room)
take-Phase b s room (idle line lines parts z e e' p) =
    let (same, room') = take_nothing b s z in
    (
      same_Phase s (take_line b s) (idle line lines parts z e e' p) z refl refl
          (ap texts (sym same)),
      room' ∙ room,
    )

take-Inv : (b : Bool) (s : Channel) → (s.children b).exited ≡ false → Inv s → Inv (take_line b s)
unfolding take_line
take-Inv b s running i =
    let (phase, room) = take-Phase b s (i.reader b).room i.phase in
    record {
      phase = phase;
      reader =
          update-all (λ x r. IsReader s.done 0 r) s.children b _
            (record {
              room = rw (update_self s.children b _) at room;
              at_end = λ h. absurd (ground arith);
            })
            (λ x. record {
              room = (i.reader x).room;
              at_end = λ h. (((i.reader x).at_end h).0, refl);
            });
    }

send-Inv :
    (s : Channel) (line : List ℕ) → s.done ≡ false → IsLine line → Inv s → Inv (send_line line s)
send-Inv s line going l i = record {
  phase = send-Phase s line l i.phase;
  reader =
      unfold send_line in
      λ b. record {
        room = (i.reader b).room;
        at_end = λ h. absurd (ground (arith, ((i.reader b).at_end h).0));
      };
}

-- A child that only changes its flags.
flags-Inv :
    (s : Channel) (b at_sem exited : Bool)
    → (exited ≡ true → (s.done ≡ true) × (s.size ≡ 0))
    → Inv s
    → Inv (record s {
      children =
          update s.children b
            (record { buffer = (s.children b).buffer; at_sem = at_sem; exited = exited });
    })
flags-Inv s b at_sem exited at_end i = record {
  phase = same_Phase s _ i.phase refl refl refl refl;
  reader =
      update-all (λ x r. IsReader s.done s.size r) s.children b _
        (record { room = (i.reader b).room; at_end = at_end }) i.reader;
}

Step-Inv : {s t : Channel} → Step s t → Inv s → Inv t
Step-Inv (parent_sends s line going l) i = send-Inv s line going l i
Step-Inv (parent_sends_other s line going l) i = record {
  phase = same_Phase s _ i.phase refl refl refl refl;
  reader = i.reader;
}
Step-Inv (parent_ends s) i = record {
  phase = same_Phase s _ i.phase refl refl refl refl;
  reader =
      λ b. record { room = (i.reader b).room; at_end = λ h. (refl, ((i.reader b).at_end h).1) };
}
Step-Inv (child_sees s b running waits some_bytes) i = flags-Inv s b true _ (i.reader b).at_end i
Step-Inv (child_takes s b running waits) i = take-Inv b s running i
Step-Inv (child_ends s b running waits ended empty) i = flags-Inv s b _ true (λ h. (ended, empty)) i

pub start-Inv :
    (data_bytes : List ℕ) (buffers : Bool → List ℕ)
    → ((b : Bool) → length (buffers b) ≡ max_line)
    → Inv (start data_bytes buffers)
start-Inv data_bytes buffers room = record {
  phase = unused refl refl refl;
  reader = λ b. record { room = room b; at_end = λ h. absurd (ground arith) };
}

pub Steps-Inv : {s t : Channel} → Steps s t → Inv s → Inv t
Steps-Inv (here s) i = i
Steps-Inv (then steps step) i = Step-Inv step (Steps-Inv steps i)

in_bounds : (s : Channel) → Phase s → s.size < max_line
in_bounds s (unused z e e') = omega (arith, z)
in_bounds s (idle line lines parts z e e' p) = omega (arith, z)
in_bounds s (waiting line rest lines l e d sent p) = omega (arith, e, l.short)

-- Whatever the order of the steps of the parent and of the two children, what the children have written
-- together is a part of the lines of the first block, without their vowels and in their order, each at
-- most once; and the zero byte that a child puts behind a line lies within its array.
pub Steps-written :
    (data_bytes : List ℕ) (buffers : Bool → List ℕ) (s : Channel)
    → ((b : Bool) → length (buffers b) ≡ max_line)
    → Steps (start data_bytes buffers) s
    → Sublistᴰ (texts s.written) (map without_vowels s.sent)
      × ((b : Bool) → s.size < length (s.children b).buffer)
Steps-written data_bytes buffers s room steps =
    let i = Steps-Inv steps (start-Inv data_bytes buffers room) in
    (sent_so_far s i.phase, λ b. omega (arith, (i.reader b).room, in_bounds s i.phase))

-- The last line of the first block, if there was one, is the last that a child has written.
abbrev pub EndsWithLast : Channel → Type 0
EndsWithLast s =
    ((s.sent ≡ []) × (texts s.written ≡ []))
    ⊎ ((line : List ℕ) × (lines parts : List (List ℕ)) × (s.sent ≡ line ∷ lines)
        × (texts s.written ≡ without_vowels line ∷ parts))

pub last_written : (s : Channel) → s.size ≡ 0 → Phase s → EndsWithLast s
last_written s z (unused z' e e') = inl (e, e')
last_written s z (idle line lines parts z' e e' p) = inr (line, lines, parts, e, e')
last_written s z (waiting line rest lines l e d sent p) = absurd (omega (arith, e, l.some_byte))

-- However a child comes to its end, the last line of the first block, if there was one, is then the last
-- that the children have written.
pub Steps-EndsWithLast :
    (data_bytes : List ℕ) (buffers : Bool → List ℕ) (s : Channel) (b : Bool)
    → ((b : Bool) → length (buffers b) ≡ max_line)
    → Steps (start data_bytes buffers) s
    → (s.children b).exited ≡ true
    → EndsWithLast s
Steps-EndsWithLast data_bytes buffers s b room steps ended =
    let i = Steps-Inv steps (start-Inv data_bytes buffers room) in
    last_written s ((i.reader b).at_end ended).1 i.phase
