-- ===== src/Nodes.antt =====
-- Labs/Lab5/src/nodes.cpp: the handlers of a `ComputingNode` and what its loop does with a message.
-- What a node sends is a list of messages with their receivers, the last one last. The time of
-- sending, which nodes never read, and the timer of the heartbeat are left out. `create_process`
-- is a parameter: the process id for a node's id, or `none` for the exception.
pub mod Answers
use mai_os_labs.Prelude.{
  ℕ, zero, suc, Bool, true, false, ◌&&◌, List, [], ◌∷◌, ◌++◌, map, Option, none, some, ◌==◌,
  if◌then◌else◌, take,
}
use mai_os_labs.Prelude.Int.{ℤ, pos, negsuc}

pub data CommandType : Type 0 where
  no_command create ping exec_add exec_find exec_error heart_beat : CommandType

-- `val` is the text in front of the zero byte.
pub record Message : Type 0 where
  pub command : CommandType
  pub id : ℤ
  pub add_data : ℤ
  pub val : List ℕ

-- The two constructors; the array `val` has 30 bytes, the last of them zero.
abbrev pub message : CommandType → ℤ → ℤ → Message
message command id add_data = record { command = command; id = id; add_data = add_data; val = [] }

abbrev pub text_message : CommandType → ℤ → ℤ → List ℕ → Message
text_message command id add_data s = record {
  command = command;
  id = id;
  add_data = add_data;
  val = take 29 s;
}

-- Whether two `int`s are equal.
abbrev pub same_int : ℤ → ℤ → Bool
same_int (pos a) (pos b) = a == b
same_int (negsuc a) (negsuc b) = a == b
same_int (pos a) (negsuc b) = false
same_int (negsuc a) (pos b) = false

-- Whether two strings are equal.
unfoldable pub same_text : List ℕ → List ℕ → Bool
same_text [] [] = true
same_text [] (d ∷ t) = false
same_text (c ∷ s) [] = false
same_text (c ∷ s) (d ∷ t) = c == d && same_text s t

-- `std::map<std::string, int>`: `find`, and the assignment through `[]`.
abbrev pub Dictionary : Type 0
Dictionary = List (List ℕ × ℤ)

unfoldable pub find_word : List ℕ → Dictionary → Option ℤ
find_word s [] = none
find_word s (entry ∷ d) = if same_text s entry.0 then some entry.1 else find_word s d

unfoldable pub set_word : List ℕ → ℤ → Dictionary → Dictionary
set_word s v [] = (s, v) ∷ []
set_word s v (entry ∷ d) = if same_text s entry.0 then (entry.0, v) ∷ d else entry ∷ set_word s v d

-- A `Node` of the list `children_`: its id and its process.
pub record Child : Type 0 where
  pub id : ℤ
  pub pid : ℤ

pub data Receiver : Type 0 where
  parent : Receiver
  child : ℤ → Receiver

pub record ComputingNode : Type 0 where
  pub id : ℤ
  pub dictionary : Dictionary
  pub children : List Child
  pub heartbeat : ℤ
  pub sent : List (Receiver × Message)

-- `send_message(node_, message)`
unfoldable pub send_parent : Message → ComputingNode → ComputingNode
send_parent m n = record n { sent = n.sent ++ (parent, m) ∷ [] }

unfoldable pub broadcast_to_children : Message → ComputingNode → ComputingNode
broadcast_to_children m n = record n {
  sent = n.sent ++ map (λ (c : Child). (child c.id, m)) n.children;
}

unfoldable pub handle_create : (ℤ → Option ℤ) → Message → ComputingNode → Option ComputingNode
handle_create create_process m n =
    if same_int m.id n.id
    then elim (create_process m.add_data) [
      | none ↦ none
      | some pid ↦ some (
          send_parent (message create m.add_data pid)
            (record n { children = n.children ++ record { id = m.add_data; pid = pid } ∷ [] }))
    ]
    else some (broadcast_to_children m n)

unfoldable pub handle_ping : Message → ComputingNode → ComputingNode
handle_ping m n = if same_int m.id n.id then send_parent m n else broadcast_to_children m n

unfoldable pub handle_heartbeat : Message → ComputingNode → ComputingNode
handle_heartbeat m n = broadcast_to_children m (record n { heartbeat = m.add_data })

unfoldable pub handle_exec_add : Message → ComputingNode → ComputingNode
handle_exec_add m n =
    if same_int m.id n.id
    then send_parent m (record n { dictionary = set_word m.val m.add_data n.dictionary })
    else broadcast_to_children m n

-- The answer of `handle_exec_find`.
unfoldable pub find_answer : Message → ComputingNode → Message
find_answer m n = elim (find_word m.val n.dictionary) [
  | none ↦ text_message exec_error n.id (negsuc 0) m.val
  | some v ↦ text_message exec_find n.id v m.val
]

unfoldable pub handle_exec_find : Message → ComputingNode → ComputingNode
handle_exec_find m n =
    if same_int m.id n.id then send_parent (find_answer m n) n else broadcast_to_children m n

-- The part of the loop in `run` for a message of a child.
unfoldable pub from_child : Message → ComputingNode → ComputingNode
from_child m n = elim m.command [
  | no_command ↦ n
  | create ↦ send_parent m n
  | ping ↦ send_parent m n
  | exec_add ↦ send_parent m n
  | exec_find ↦ send_parent m n
  | exec_error ↦ send_parent m n
  | heart_beat ↦ send_parent m n
]

-- The `switch` of `run`, for a message of the parent.
unfoldable pub from_parent : (ℤ → Option ℤ) → Message → ComputingNode → Option ComputingNode
from_parent create_process m n = elim m.command [
  | no_command ↦ some n
  | create ↦ handle_create create_process m n
  | ping ↦ some (handle_ping m n)
  | exec_add ↦ some (handle_exec_add m n)
  | exec_find ↦ some (handle_exec_find m n)
  | exec_error ↦ some n
  | heart_beat ↦ some (handle_heartbeat m n)
]
