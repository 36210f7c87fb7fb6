-- ===== src/Examples/SocketRuns.antt =====
-- Nodes of Labs/Lab5/src that are made, moved and destroyed.
use mai_os_labs.Prelude.{◌+◌, ◌≡◌, refl, true, [], ◌∷◌, none, some, arith, length}
use mai_os_labs.Prelude.Int.{pos}
use mai_os_labs.Sockets.{
  Zmq, World, Steps, creates, forks, assigns, destroys, here, then, no_nodes, node_at, keep,
  create_node, create_process, assigned, destroy, assign_node, MakesSockets, context, socket,
}
use mai_os_labs.Sockets.Making.{owners, times_opened, times_closed}
use mai_os_labs.Sockets.Balance.{Steps-balance, create_node-closes_twice}

-- Every pointer is new.
abbrev library : Zmq
library = record {
  ctx_new = λ log. length log + 1;
  new_socket = λ c log. length log + 1;
  ready = λ s port is_child log. true;
}

library-MakesSockets : MakesSockets library
library-MakesSockets log c e = omega arith

abbrev w1 : World
w1 = keep (create_node library (pos 1) (pos 100) true []) []

abbrev w2 : World
w2 = keep (create_process library (pos 2) (pos 100) (some (pos 101)) w1.log) w1.nodes

-- The first node is assigned the second, whose own context and socket are closed first.
abbrev w3 : World
w3 = assigned 0 1 w2

abbrev w4 : World
w4 = record { nodes = node_at 1 w3 ∷ []; log = destroy (node_at 0 w3) w3.log }

w4-Steps : Steps library no_nodes w4
unfolding create_node create_process assign_node destroy
w4-Steps =
    then
      (then
        (then (then (here no_nodes) (creates no_nodes (pos 1) (pos 100) true))
          (forks w1 (pos 2) (pos 100) (some (pos 101))))
        (assigns w2 0 1 (omega arith) (omega arith)))
      (destroys w3 [] (node_at 1 w3 ∷ []) (node_at 0 w3) refl)

Steps-balance_example :
    times_opened socket 4 w4.log ≡ times_closed socket 4 w4.log + owners socket 4 w4.nodes
Steps-balance_example = Steps-balance library-MakesSockets w4-Steps socket 4 (omega arith)

-- No socket can be made.
abbrev no_sockets : Zmq
no_sockets = record {
  ctx_new = λ log. 7;
  new_socket = λ c log. 0;
  ready = λ s port is_child log. true;
}

create_node-closes_twice_example :
    let (node, after) = create_node no_sockets (pos 1) (pos 100) true [] in
    (node ≡ none) × (times_opened context 7 after ≡ 1 + 0) × (times_closed context 7 after ≡ 2 + 0)
create_node-closes_twice_example =
    create_node-closes_twice no_sockets (pos 1) (pos 100) true [] 7 refl (omega arith) refl
