-- ===== src/Channel/Ending.antt =====
-- The children of Labs/Lab3/src/parent.cpp can come to their ends.
use mai_os_labs.Prelude.{
  Bool, update, update_self, ℕ, ◌<◌, ◌≡◌, ◌∙◌, refl, ap, true, false, List, arith, length,
  Bool-cases, ◌==◌, inl, inr,
}
use mai_os_labs.Channel.{
  Channel, take_line, Steps, child_sees, child_takes, child_ends, here, then, start, max_line,
}
use mai_os_labs.Channel.Delivery.{EndsWithLast, Steps-Inv, start-Inv, last_written}

-- A state that a child can come to from `s`, with nothing more sent and the child at its end.
abbrev CanEnd : Bool → Channel → Type 0
CanEnd b s = (t : Channel) × Steps s t × ((t.children b).exited ≡ true) × (t.sent ≡ s.sent)

ends_now :
    (s : Channel) (b : Bool)
    → (s.children b).exited ≡ false
    → (s.children b).at_sem ≡ false
    → s.done ≡ true
    → s.size ≡ 0
    → CanEnd b s
ends_now s b running waits ended empty = (
  _,
  then (here s) (child_ends s b running waits ended empty),
  ap (λ r. r.exited) (update_self s.children b _),
  refl,
)

takes_and_ends :
    (s : Channel) (b : Bool)
    → (s.children b).exited ≡ false
    → (s.children b).at_sem ≡ true
    → s.done ≡ true
    → CanEnd b s
unfolding take_line
takes_and_ends s b running waits ended =
    let t = take_line b s in
    let same = update_self s.children b _ in
    (
      _,
      then (then (here s) (child_takes s b running waits))
          (child_ends t b (ap (λ r. r.exited) same ∙ running) (ap (λ r. r.at_sem) same) ended refl),
      ap (λ r. r.exited) (update_self t.children b _),
      refl,
    )

sees_takes_and_ends :
    (s : Channel) (b : Bool)
    → (s.children b).exited ≡ false
    → (s.children b).at_sem ≡ false
    → s.done ≡ true
    → 0 < s.size
    → CanEnd b s
sees_takes_and_ends s b running waits ended some_bytes =
    let t : Channel = record s {
      children = update s.children b (record (s.children b) { at_sem = true });
    } in
    let same = update_self s.children b (record (s.children b) { at_sem = true }) in
    let (u, steps, at_end, sent) =
      takes_and_ends t b (ap (λ r. r.exited) same ∙ running) (ap (λ r. r.at_sem) same) ended in
    (u, after (then (here s) (child_sees s b running waits some_bytes)) steps, at_end, sent)
  where
    after : {s t u : Channel} → Steps s t → Steps t u → Steps s u
    after first (here t) = first
    after first (then steps step) = then (after first steps) step

-- Once the parent has ended, a child that has not can always come to its end, with nothing more
-- sent, and then the last line of the first block is the last that the children have written.
pub Steps-can_end :
    (data_bytes : List ℕ) (buffers : Bool → List ℕ) (s : Channel) (b : Bool)
    → ((b : Bool) → length (buffers b) ≡ max_line)
    → Steps (start data_bytes buffers) s
    → s.done ≡ true
    → (s.children b).exited ≡ false
    → (t : Channel) × Steps s t
      × ((t.children b).exited ≡ true)
      × (t.sent ≡ s.sent)
      × EndsWithLast t
Steps-can_end data_bytes buffers s b room steps ended running =
    let i = Steps-Inv steps (start-Inv data_bytes buffers room) in
    let (t, more, at_end, sent) = can_end in
    let j = Steps-Inv more i in
    (t, more, at_end, sent, last_written t ((j.reader b).at_end at_end).1 j.phase)
  where
    can_end : CanEnd b s
    can_end = elim (Bool-cases (s.children b).at_sem) [
      | inl waits ↦ takes_and_ends s b running waits ended
      | inr free ↦ elim (Bool-cases (s.size == 0)) [
        | inl empty ↦ ends_now s b running free ended (ground arith)
        | inr full ↦ sees_takes_and_ends s b running free ended (ground arith)
      ]
    ]
