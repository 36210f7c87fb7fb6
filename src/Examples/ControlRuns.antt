-- ===== src/Examples/ControlRuns.antt =====
-- Concrete runs of Labs/Lab5/src/control.cpp: the nodes 1 and 2, the second below the first.
use mai_os_labs.Prelude.{List, [], ◌∷◌, ◌++◌, map, Option, some, ◌≡◌, refl}
use mai_os_labs.Prelude.Int.{ℤ, pos, negsuc}
use mai_os_labs.Nodes.{message, ping, create, Child, child}
use mai_os_labs.Controller
use mai_os_labs.Controller.{
  PendingMessage, Line, handle_child_message, check_pending_messages, send_known,
  handle_create_command, Turn, Command, create_command, ping_command, turns, turn, has_id,
  insert_id, set_beat, ok_available, answers, check_entries, late_beats, check_beats,
  handle_messages, handle_command, print_line,
}
use mai_os_labs.Controller.Pending.{Parted, AreReports, IsRecent, IsOld, check_pending_messages_lem}
use mai_os_labs.Controller.Invariant.{IsKnown, turns-IsKnown}
use mai_os_labs.Controller.Answered.{pinged, answer_settles, create_twice}

abbrev process : ℤ → Option ℤ
process id = some (pos 4711)

abbrev two_nodes : Controller.Controller
two_nodes = record {
  node_ids = negsuc 0 ∷ pos 1 ∷ pos 2 ∷ [];
  pending_messages = record { body = message ping (pos 1) (pos 0); sent_time = 5 } ∷ [];
  children = record { id = pos 1; pid = pos 4711 } ∷ [];
  heartbeat = pos 0;
  beat_tracker = [];
  printed = [];
  sent = [];
}

check_pending_messages_example :
    let after = check_pending_messages 7000000000 two_nodes in
    (gone : List PendingMessage) × (lines : List Line) × Parted two_nodes.pending_messages
      after.pending_messages gone
    × IsRecent 7000000000 after.pending_messages
    × IsOld 7000000000 gone
    × AreReports gone lines
    × (after.printed ≡ two_nodes.printed ++ lines)
check_pending_messages_example = check_pending_messages_lem 7000000000 two_nodes

-- The node 1 is created, and created once more.
abbrev script : List Turn
script =
    record { received = []; now = 10; command = some (create_command (pos 1) (negsuc 0)) }
    ∷ record { received = []; now = 20; command = some (create_command (pos 1) (negsuc 0)) }
    ∷ []

abbrev after_script : Controller.Controller
after_script = record {
  node_ids = negsuc 0 ∷ pos 1 ∷ [];
  pending_messages = [];
  children = record { id = pos 1; pid = pos 4711 } ∷ [];
  heartbeat = pos 0;
  beat_tracker = [];
  printed = Controller.ok_created (pos 4711) ∷ Controller.already_exists (pos 1) ∷ [];
  sent = [];
}

script_runs : turns process script Controller.init ≡ some after_script
unfolding turns turn handle_messages check_pending_messages check_entries check_beats handle_command
    handle_create_command has_id insert_id
script_runs = refl

turns-IsKnown_example : IsKnown after_script
turns-IsKnown_example = turns-IsKnown process script after_script script_runs

answer_settles_example :
    let after =
      handle_child_message 20
        (message ping (pos 2) (pos 9))
        (send_known 10 (message ping (pos 2) (pos 0)) two_nodes) in
    (after.pending_messages ≡ two_nodes.pending_messages)
    × (after.printed ≡ two_nodes.printed ++ ok_available (pos 2) ∷ [])
    × (after.sent
        ≡ two_nodes.sent
          ++ map (λ (k : Child). (child k.id, message ping (pos 2) (pos 0))) two_nodes.children)
unfolding has_id answers
answer_settles_example =
    answer_settles 10 20 (message ping (pos 2) (pos 0)) (message ping (pos 2) (pos 9))
      (ok_available (pos 2)) two_nodes (pinged (pos 2) (pos 9)) refl (refl, tt)

create_twice_example :
    let request = message create (pos 1) (pos 3) in
    (c₁ c₂ : Controller.Controller) × (handle_create_command process 10 (pos 3) (pos 1) two_nodes
      ≡ some c₁)
    × (handle_create_command process 20 (pos 3) (pos 1) c₁ ≡ some c₂)
    × (c₂.pending_messages
        ≡ two_nodes.pending_messages
          ++ record { body = request; sent_time = 10 }
            ∷ record { body = request; sent_time = 20 }
            ∷ [])
    × (c₂.sent
        ≡ two_nodes.sent
          ++ (map (λ (k : Child). (child k.id, request)) two_nodes.children
              ++ map (λ (k : Child). (child k.id, request)) two_nodes.children))
unfolding has_id
create_twice_example = create_twice process 10 20 (pos 3) (pos 1) two_nodes refl refl refl
