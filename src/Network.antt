-- ===== src/Network.antt =====
-- Labs/Lab5/src/nodes.cpp: the tree of processes below the controller. A node handles what its
-- parent sent, its children handle what the node sent to them, and the node passes on what they
-- send back (`run`). In a round every message that a node sends arrives, in the order of sending, and
-- `sent` is what the node sends in it. The processes stay the same in a round: the one that a node
-- creates is not in the tree yet.
pub mod Routing
pub mod Answer
pub mod Turn
use mai_os_labs.Prelude.{
  ℕ, Bool, true, false, List, [], ◌∷◌, ◌++◌, map, Option, none, some, if◌then◌else◌,
}
use mai_os_labs.Prelude.Int.{ℤ}
use mai_os_labs.Nodes.{
  Message, ComputingNode, Receiver, parent, child, same_int, from_parent, from_child,
}

mutual
  pub data Tree : Type 0 where
    branch : ComputingNode → Forest → Tree

  pub data Forest : Type 0 where
    no_trees : Forest
    more : Tree → Forest → Forest

abbrev pub root_id : Tree → ℤ
root_id (branch n f) = n.id

-- What is sent to the child `id`, and to the parent.
unfoldable pub for_child : ℤ → List (Receiver × Message) → List Message
for_child id [] = []
for_child id ((parent, m) ∷ sent) = for_child id sent
for_child id ((child k, m) ∷ sent) =
    if same_int id k then m ∷ for_child id sent else for_child id sent

unfoldable pub for_parent : List (Receiver × Message) → List Message
for_parent [] = []
for_parent ((parent, m) ∷ sent) = m ∷ for_parent sent
for_parent ((child k, m) ∷ sent) = for_parent sent

unfoldable pub handle_all : (ℤ → Option ℤ) → List Message → ComputingNode → Option ComputingNode
handle_all create_process [] n = some n
handle_all create_process (m ∷ ms) n = elim (from_parent create_process m n) [
  | none ↦ none
  | some next ↦ handle_all create_process ms next
]

unfoldable pub relay : List Message → ComputingNode → ComputingNode
relay [] n = n
relay (m ∷ ms) n = relay ms (from_child m n)

-- One round: the tree afterwards, and what it sends to its parent.
unfoldable mutual
  pub deliver : (ℤ → Option ℤ) → List Message → Tree → Option (Tree × List Message)
  deliver create_process ms (branch n f) =
      elim (handle_all create_process ms (record n { sent = [] })) [
        | none ↦ none
        | some n₁ ↦ elim (deliver_forest create_process n₁.sent f) [
          | none ↦ none
          | some r ↦ some (branch (relay r.1 n₁) r.0, for_parent (relay r.1 n₁).sent)
        ]
      ]

  pub deliver_forest :
      (ℤ → Option ℤ) → List (Receiver × Message) → Forest → Option (Forest × List Message)
  deliver_forest create_process sent no_trees = some (no_trees, [])
  deliver_forest create_process sent (more t f) =
      elim (deliver create_process (for_child (root_id t) sent) t) [
        | none ↦ none
        | some r ↦ elim (deliver_forest create_process sent f) [
          | none ↦ none
          | some rs ↦ some (more r.0 rs.0, r.1 ++ rs.1)
        ]
      ]
