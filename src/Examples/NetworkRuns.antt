-- ===== src/Examples/NetworkRuns.antt =====
-- A concrete tree of the processes of Labs/Lab5/src/nodes.cpp: 1 over 2 and 4, and 2 over 3, which knows a word.
use mai_os_labs.Prelude.{ℕ, ◌+◌, List, [], ◌∷◌, map, Option, none, some, ◌≡◌, refl, inl, inr, arith}
use mai_os_labs.Prelude.Int.{ℤ, pos, negsuc}
use mai_os_labs.Nodes.{
  ComputingNode, Child, child, find_answer, message, no_command, send_parent, from_parent,
}
use mai_os_labs.Controller.{has_id}
use mai_os_labs.Network.{Forest, branch, no_trees, more, deliver_forest, relay}
use mai_os_labs.Network.Turn.{
  Timed, Input, beat_after, beat, run_turn, run_turns, AreSpaced, run_turns-AreSpaced,
}
use mai_os_labs.Network.Routing.{question}
use mai_os_labs.Network.Answer.{question-one_answer}

abbrev no_process : ℤ → Option ℤ
no_process id = none

abbrev child_node : ℕ → Child
child_node k = record { id = pos k; pid = pos (70 + k) }

abbrev third_node : ComputingNode
third_node = record {
  id = pos 3;
  dictionary = (b'x' ∷ [], pos 9) ∷ [];
  children = [];
  heartbeat = pos 0;
  sent = [];
}

abbrev node_over : ℕ → List Child → ComputingNode
node_over k cs = record { id = pos k; dictionary = []; children = cs; heartbeat = pos 0; sent = [] }

abbrev all_trees : Forest
all_trees =
    more
      (branch (node_over 1 (child_node 2 ∷ child_node 4 ∷ [])) (
        more (branch (node_over 2 (child_node 3 ∷ [])) (more (branch third_node no_trees) no_trees))
          (more (branch (node_over 4 []) no_trees) no_trees)))
      no_trees

question-one_answer_example :
    (f' : Forest) × (deliver_forest no_process
        (map (λ (c : Child). (child c.id, question third_node.id (b'x' ∷ []))) (child_node 1 ∷ []))
        all_trees
      ≡ some (f', find_answer (question third_node.id (b'x' ∷ [])) third_node ∷ []))
unfolding has_id
question-one_answer_example =
    question-one_answer no_process third_node (b'x' ∷ []) (child_node 1 ∷ []) all_trees (refl, tt)
      (refl, tt)
      (
        (
          refl,
          (refl, (refl, tt)),
          ((refl, (refl, tt), ((refl, tt, tt), tt)), ((refl, tt, tt), tt)),
        ),
        tt,
      )
      (refl, (refl, (refl, (refl, tt)))) (inl (inr (inl (inr (inl (inl refl))))))

-- A node with a heartbeat time of two seconds: early, due, and due again.
abbrev quiet : ℕ → Input
quiet t = record {
  of_children = [];
  now1 = t;
  now2 = t;
  of_parent = message no_command (negsuc 0) (negsuc 0);
}

abbrev beating : ComputingNode
beating = record { id = pos 1; dictionary = []; children = []; heartbeat = pos 2000; sent = [] }

abbrev after_beats : Timed
after_beats = beat 4100 4100 (beat 2001 2001 (record { node = beating; last_beat = 0; beats = [] }))

two_beats : after_beats.beats ≡ (4100, 2000) ∷ (2001, 2000) ∷ []
unfolding beat beat_after send_parent
two_beats = refl

run_turns-AreSpaced_example : AreSpaced after_beats.beats
unfolding run_turns run_turn beat beat_after send_parent from_parent relay
run_turns-AreSpaced_example =
    run_turns-AreSpaced (λ id. none) (quiet 100 ∷ quiet 2001 ∷ quiet 4100 ∷ []) beating 0
      after_beats (omega arith, (omega arith, (omega arith, tt))) refl
