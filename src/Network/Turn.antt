-- ===== src/Network/Turn.antt =====
-- A turn of the loop in `run` of Labs/Lab5/src/nodes.cpp with its timer. Times are in milliseconds, `now1`
-- and `now2` are the two readings of the clock, and `beats` has, newest first, when the node has
-- sent a heartbeat and the heartbeat time that was then in force.
use mai_os_labs.Prelude.{
  ℕ, ◌+◌, ◌≤◌, ◌<◌, ◌≡◌, List, [], ◌∷◌, ◌&&◌, Option, none, some, ltb, if◌then◌else◌, arith,
  Bool-cases, Option-cases, inl, inr, subst,
}
use mai_os_labs.Prelude.Int.{ℤ, pos, negsuc}
use mai_os_labs.Nodes.{ComputingNode, Message, message, heart_beat, send_parent, from_parent}
use mai_os_labs.Network.{relay}

pub record Timed : Type 0 where
  pub node : ComputingNode
  pub last_beat : ℕ
  pub beats : List (ℕ × ℕ)

-- What a turn receives from the children and from the parent, and its readings of the clock.
pub record Input : Type 0 where
  pub of_children : List Message
  pub now1 : ℕ
  pub now2 : ℕ
  pub of_parent : Message

unfoldable pub beat_after : ℤ → ℕ → ℕ → Timed → Timed
beat_after (negsuc k) now1 now2 s = s
beat_after (pos heartbeat) now1 now2 s =
    if ltb 0 heartbeat && ltb (s.last_beat + heartbeat) now1
    then record {
      node = send_parent (message heart_beat s.node.id (negsuc 0)) s.node;
      last_beat = now2;
      beats = (now1, heartbeat) ∷ s.beats;
    }
    else s

unfoldable pub beat : ℕ → ℕ → Timed → Timed
beat now1 now2 s = beat_after s.node.heartbeat now1 now2 s

unfoldable pub run_turn : (ℤ → Option ℤ) → Input → Timed → Option Timed
run_turn create_process i s =
    let relayed = record s { node = relay i.of_children s.node } in
    let beaten = beat i.now1 i.now2 relayed in
    elim (from_parent create_process i.of_parent beaten.node) [
      | none ↦ none
      | some n ↦ some (record beaten { node = n })
    ]

unfoldable pub run_turns : (ℤ → Option ℤ) → List Input → Timed → Option Timed
run_turns create_process [] s = some s
run_turns create_process (i ∷ inputs) s = elim (run_turn create_process i s) [
  | none ↦ none
  | some t ↦ run_turns create_process inputs t
]

-- The clock does not go back between its two readings of a turn.
abbrev pub AreForward : List Input → Type 0
AreForward [] = Unit {0}
AreForward (i ∷ inputs) = (i.now1 ≤ i.now2) × AreForward inputs

-- Between two beats there is more than the heartbeat time in force at the later one.
abbrev pub AreSpaced : List (ℕ × ℕ) → Type 0
AreSpaced [] = Unit {0}
AreSpaced ((t, h) ∷ []) = Unit {0}
AreSpaced ((t, h) ∷ (t', h') ∷ beats) = (t' + h < t) × AreSpaced ((t', h') ∷ beats)

abbrev IsLatest : ℕ → List (ℕ × ℕ) → Type 0
IsLatest last [] = Unit {0}
IsLatest last ((t, h) ∷ beats) = t ≤ last

abbrev IsTimed : Timed → Type 0
IsTimed s = AreSpaced s.beats × IsLatest s.last_beat s.beats

next-AreSpaced :
    (t h last : ℕ) (beats : List (ℕ × ℕ))
    → last + h < t
    → AreSpaced beats
    → IsLatest last beats
    → AreSpaced ((t, h) ∷ beats)
next-AreSpaced t h last [] late s l = tt
next-AreSpaced t h last ((t', h') ∷ beats) late s l = (omega arith, s)

beat_after-IsTimed :
    (heartbeat : ℤ) (now1 now2 : ℕ) (s : Timed)
    → now1 ≤ now2
    → IsTimed s
    → IsTimed (beat_after heartbeat now1 now2 s)
unfolding beat_after
beat_after-IsTimed (negsuc k) now1 now2 s forward t = t
beat_after-IsTimed (pos heartbeat) now1 now2 s forward (spaced, latest) =
    elim (Bool-cases (ltb 0 heartbeat && ltb (s.last_beat + heartbeat) now1)) [
      | inl due ↦
          rw due (
            next-AreSpaced now1 heartbeat s.last_beat s.beats (ground arith) spaced latest,
            forward,
          )
      | inr early ↦ rw early (spaced, latest)
    ]

run_turn-IsTimed :
    (create_process : ℤ → Option ℤ) (i : Input) (s t : Timed)
    → i.now1 ≤ i.now2
    → IsTimed s
    → run_turn create_process i s ≡ some t
    → IsTimed t
unfolding run_turn beat
run_turn-IsTimed create_process i s t forward timed e =
    let relayed : Timed = record s { node = relay i.of_children s.node } in
    let beaten = beat_after relayed.node.heartbeat i.now1 i.now2 relayed in
    let kept = beat_after-IsTimed relayed.node.heartbeat i.now1 i.now2 relayed forward timed in
    elim (Option-cases (from_parent create_process i.of_parent beaten.node)) [
      | inl failed ↦ absurd (ground (arith, rw (run_turn, failed) at e))
      | inr (n, done) ↦
          let same : record beaten { node = n } ≡ t = ground (arith, rw (run_turn, done) at e) in
          subst IsTimed same kept
    ]

run_turns-IsTimed :
    (create_process : ℤ → Option ℤ) (inputs : List Input) (s t : Timed)
    → AreForward inputs
    → IsTimed s
    → run_turns create_process inputs s ≡ some t
    → IsTimed t
unfolding run_turns
run_turns-IsTimed create_process [] s t forward timed e =
    let same : s ≡ t = ground arith in subst IsTimed same timed
run_turns-IsTimed create_process (i ∷ inputs) s t (now, later) timed e =
    elim (Option-cases (run_turn create_process i s)) [
      | inl failed ↦ absurd (ground (arith, rw (run_turns, failed) at e))
      | inr (u, done) ↦
          run_turns-IsTimed create_process inputs u t later
            (run_turn-IsTimed create_process i s u now timed done) (rw (run_turns, done) at e)
    ]

-- Whatever a node receives, and whatever heartbeat times it is given, between two heartbeats that it
-- sends of its own more time passes than the heartbeat time in force at the later one, if the clock
-- does not go back between its two readings of a turn.
pub run_turns-AreSpaced :
    (create_process : ℤ → Option ℤ) (inputs : List Input) (n : ComputingNode) (start : ℕ)
    (t : Timed)
    → AreForward inputs
    → run_turns create_process inputs (record { node = n; last_beat = start; beats = [] }) ≡ some t
    → AreSpaced t.beats
run_turns-AreSpaced create_process inputs n start t forward e =
    (run_turns-IsTimed create_process inputs _ t forward (tt, tt) e).0
