-- ===== src/Sockets.antt =====
-- Who owns the sockets in Labs/Lab5/src: the class `Node` of include/nodes.h, its moves and destructor, and
-- `create_node` and `create_process` of nodes.cpp. The socket library and `fork` are parameters, and a log,
-- newest first, has the calls that open and close something.
pub mod Making
pub mod Balance
use mai_os_labs.Prelude.{
  ℕ, ◌+◌, ◌<◌, ◌≡◌, ◌≢◌, Bool, true, false, List, [], ◌∷◌, ◌++◌, Option, none, some, length, get_or,
  set, ◌==◌, if◌then◌else◌,
}
use mai_os_labs.Prelude.Int.{ℤ, pos, negsuc, ◌+ℤ◌}

pub data Kind : Type 0 where
  context : Kind
  socket : Kind

pub data Call : Type 0 where
  opened : Kind → ℕ → Call
  closed : Kind → ℕ → Call

-- A null pointer is 0; the address is the number of its port.
pub record Node : Type 0 where
  pub id : ℤ
  pub pid : ℤ
  pub context_ptr : ℕ
  pub socket_ptr : ℕ
  pub address : Option ℤ

-- What the library answers after the calls of the log; `ready` is what `zmq_connect` or `zmq_bind` answers.
pub record Zmq : Type 0 where
  pub ctx_new : List Call → ℕ
  pub new_socket : ℕ → List Call → ℕ
  pub ready : ℕ → ℤ → Bool → List Call → Bool

abbrev pub empty_node : Node
empty_node = record {
  id = negsuc 0;
  pid = negsuc 0;
  context_ptr = 0;
  socket_ptr = 0;
  address = none;
}

-- `if (p) zmq_close(p)` and the like.
abbrev pub close_if : Kind → ℕ → List Call → List Call
close_if kind p log = if p == 0 then log else closed kind p ∷ log

-- `~Node`.
unfoldable pub destroy : Node → List Call → List Call
destroy n log = close_if context n.context_ptr (close_if socket n.socket_ptr log)

-- What a move leaves of its source.
abbrev pub moved_from : Node → Node
moved_from other = record other { context_ptr = 0; socket_ptr = 0; address = none }

-- The new node of the move constructor, and its source.
unfoldable pub move_node : Node → Node × Node
move_node other = (other, moved_from other)

-- The assignment of a move: `this` and the source, which may be the same node.
unfoldable pub assign_node : Bool → Node → Node → List Call → Node × Node × List Call
assign_node same this other log =
    if same then (this, other, log) else (other, moved_from other, destroy this log)

-- `create_node`: `none` is the exception. What has been made of the node is destroyed as it leaves.
unfoldable pub create_node : Zmq → ℤ → ℤ → Bool → List Call → Option Node × List Call
create_node zmq id pid is_child log =
    let port = pos 5555 +ℤ id in
    let node₁ = record empty_node { id = id; pid = pid; context_ptr = zmq.ctx_new log } in
    let log₁ = opened context node₁.context_ptr ∷ log in
    let node₂ = record node₁ { socket_ptr = zmq.new_socket node₁.context_ptr log₁ } in
    let log₂ = opened socket node₂.socket_ptr ∷ log₁ in
    let node₃ = record node₂ { address = some port } in
    if node₁.context_ptr == 0
    then (none, destroy node₁ log)
    else if node₂.socket_ptr == 0
    then (none, destroy node₂ (closed context node₂.context_ptr ∷ log₁))
    else if zmq.ready node₃.socket_ptr port is_child log₂
    then (some node₃, log₂)
    else (none, destroy node₃ log₂)

-- `create_process` in the parent: `none` as the answer of `fork` is its failure.
unfoldable pub create_process : Zmq → ℤ → ℤ → Option ℤ → List Call → Option Node × List Call
create_process zmq id self none log = (none, log)
create_process zmq id self (some pid) log =
    let (node, log₁) = create_node zmq id self false log in
    (elim node [ none ↦ none | some n ↦ some (record n { pid = pid }) ], log₁)

-- The nodes of a process, wherever they stand, and its calls.
pub record World : Type 0 where
  pub nodes : List Node
  pub log : List Call

-- A node that was made joins the others.
abbrev pub keep : Option Node × List Call → List Node → World
keep (none, log) nodes = record { nodes = nodes; log = log }
keep (some n, log) nodes = record { nodes = n ∷ nodes; log = log }

abbrev pub node_at : ℕ → World → Node
node_at i w = get_or w.nodes i empty_node

-- The node at `i` is assigned that at `j`.
abbrev pub assigned : ℕ → ℕ → World → World
assigned i j w =
    let (this, other, log) = assign_node (i == j) (node_at i w) (node_at j w) w.log in
    record { nodes = set (set w.nodes i this) j other; log = log }

-- `zmq_socket` does not fail where `zmq_ctx_new` has not.
abbrev pub MakesSockets : Zmq → Type 0
MakesSockets zmq = (log : List Call) (c : ℕ) → zmq.new_socket c log ≢ 0

pub data Step (zmq : Zmq) : World → World → Type 0 where
  creates :
      (w : World) (id pid : ℤ) (is_child : Bool)
      → Step zmq w (keep (create_node zmq id pid is_child w.log) w.nodes)
  forks :
      (w : World) (id self : ℤ) (pid : Option ℤ)
      → Step zmq w (keep (create_process zmq id self pid w.log) w.nodes)
  moves :
      (w : World) (i : ℕ)
      → i < length w.nodes
      → Step zmq w (record w {
        nodes = (move_node (node_at i w)).0 ∷ set w.nodes i (move_node (node_at i w)).1;
      })
  assigns :
      (w : World) (i j : ℕ) → i < length w.nodes → j < length w.nodes → Step zmq w (assigned i j w)
  destroys :
      (w : World) (xs ys : List Node) (n : Node)
      → w.nodes ≡ xs ++ n ∷ ys
      → Step zmq w (record { nodes = xs ++ ys; log = destroy n w.log })

pub data Steps (zmq : Zmq) : World → World → Type 0 where
  here : (w : World) → Steps zmq w w
  then : {u v w : World} → Steps zmq u v → Step zmq v w → Steps zmq u w

abbrev pub no_nodes : World
no_nodes = record { nodes = []; log = [] }
