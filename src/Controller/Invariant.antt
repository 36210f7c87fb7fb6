-- ===== src/Controller/Invariant.antt =====
-- What the controller of Labs/Lab5/src/control.cpp keeps over every turn of its loop.
use mathlib.Core.List.{map-append}
use mai_os_labs.Prelude.{
  ℕ, ◌≡◌, refl, subst, true, false, List, [], ◌∷◌, ◌++◌, Option, none, some, Bool-cases,
  Option-cases, inl, inr, ◌==◌,
}
use mai_os_labs.Prelude.Int.{ℤ, pos, negsuc}
use mai_os_labs.Nodes.{
  CommandType, no_command, create, ping, exec_add, exec_find, exec_error, heart_beat, Message,
  same_int, Child, message, text_message,
}
use mai_os_labs.Controller.{
  Controller, PendingMessage, has_id, insert_id, remove_pending_message, handle_child_message,
  check_pending_messages, send_to_children, broadcast_message, handle_create_command, send_known,
  key_value, key_only, unreadable, handle_exec_command, handle_ping_command,
  handle_heartbeat_command, check_beats, Command, create_command, exec_command, ping_command,
  heartbeat_command, other_command, handle_command, Turn, handle_messages, turn, turns, init,
}
use mai_os_labs.Controller.Known.{
  AllIn, NoRepeat, ids_of, targets, has_id-insert_id, insert_id_self, AllIn-insert_id, AllIn-append,
  not_in_part, NoRepeat-append, NoRepeat-insert_id, AllIn-erase_answered, AllIn-check_entries,
}

-- The root -1 is known; the controller waits only for nodes that it knows, its sockets are to nodes
-- that it knows, and no node is known or connected twice.
pub record Known (ids : List ℤ) (ps : List PendingMessage) (cs : List Child) : Type 0 where
  pub root : has_id (negsuc 0) ids ≡ true
  pub waiting : AllIn ids (targets ps)
  pub reached : AllIn ids (ids_of cs)
  pub distinct : NoRepeat ids
  pub sockets : NoRepeat (ids_of cs)

abbrev pub IsKnown : Controller → Type 0
IsKnown c = Known c.node_ids c.pending_messages c.children

Known-insert_id :
    (y : ℤ) (ids : List ℤ) (ps : List PendingMessage) (cs : List Child)
    → Known ids ps cs
    → Known (insert_id y ids) ps cs
Known-insert_id y ids ps cs k = record {
  root = has_id-insert_id (negsuc 0) y ids k.root;
  waiting = AllIn-insert_id y ids (targets ps) k.waiting;
  reached = AllIn-insert_id y ids (ids_of cs) k.reached;
  distinct = NoRepeat-insert_id y ids k.distinct;
  sockets = k.sockets;
}

-- Fewer messages are waited for.
Known-waiting :
    (ids : List ℤ) (ps ps' : List PendingMessage) (cs : List Child)
    → Known ids ps cs
    → AllIn ids (targets ps')
    → Known ids ps' cs
Known-waiting ids ps ps' cs k w = record {
  root = k.root;
  waiting = w;
  reached = k.reached;
  distinct = k.distinct;
  sockets = k.sockets;
}

remove-IsKnown :
    (cmd : CommandType) (id : ℤ) (c : Controller)
    → IsKnown c
    → IsKnown (remove_pending_message cmd id c)
unfolding remove_pending_message
remove-IsKnown cmd id c k =
    Known-waiting c.node_ids c.pending_messages _ c.children k
      (AllIn-erase_answered c.node_ids cmd id c.pending_messages k.waiting)

handle_child_message-IsKnown :
    (now : ℕ) (m : Message) (c : Controller) → IsKnown c → IsKnown (handle_child_message now m c)
unfolding handle_child_message
handle_child_message-IsKnown now m c k = go m.command refl
  where
    go : (cmd : CommandType) → m.command ≡ cmd → IsKnown (handle_child_message now m c)
    go no_command e = rw e k
    go create e = rw e (remove-IsKnown create m.id _ (Known-insert_id m.id c.node_ids _ _ k))
    go ping e = rw e (remove-IsKnown ping m.id _ k)
    go exec_add e = rw e (remove-IsKnown exec_add m.id _ k)
    go exec_find e = rw e (remove-IsKnown exec_find m.id _ k)
    go exec_error e = rw e (remove-IsKnown exec_find m.id _ k)
    go heart_beat e = rw e k

handle_messages-IsKnown :
    (ms : List (ℕ × Message)) (c : Controller) → IsKnown c → IsKnown (handle_messages ms c)
unfolding handle_messages
handle_messages-IsKnown [] c k = k
handle_messages-IsKnown (m ∷ ms) c k =
    handle_messages-IsKnown ms (handle_child_message m.0 m.1 c)
      (handle_child_message-IsKnown m.0 m.1 c k)

check_pending-IsKnown :
    (now : ℕ) (c : Controller) → IsKnown c → IsKnown (check_pending_messages now c)
unfolding check_pending_messages
check_pending-IsKnown now c k =
    Known-waiting c.node_ids c.pending_messages _ c.children k
      (AllIn-check_entries c.node_ids now c.pending_messages c.printed k.waiting)

check_beats-IsKnown : (now : ℕ) (c : Controller) → IsKnown c → IsKnown (check_beats now c)
unfolding check_beats
check_beats-IsKnown now c k = go c.heartbeat refl
  where
    go : (h : ℤ) → c.heartbeat ≡ h → IsKnown (check_beats now c)
    go (pos beat) e = elim (Bool-cases (beat == 0)) [
      | inl off ↦ rw (e, off) k
      | inr on ↦ rw (e, on) k
    ]
    go (negsuc n) e = rw e k

send_known-IsKnown :
    (now : ℕ) (m : Message) (c : Controller) → IsKnown c → IsKnown (send_known now m c)
unfolding send_known broadcast_message send_to_children
send_known-IsKnown now m c k = elim (Bool-cases (has_id m.id c.node_ids)) [
  | inl known ↦ rw known (
      Known-waiting c.node_ids c.pending_messages _ c.children k
        (rw map-append (AllIn-append c.node_ids (targets c.pending_messages) m.id k.waiting known)))
  | inr missing ↦ rw missing k
]

-- What a command leaves, unless the program has ended.
abbrev Kept : Option Controller → Type 0
Kept none = Unit {0}
Kept (some c) = IsKnown c

connect-IsKnown :
    (child_id pid : ℤ) (ids : List ℤ) (ps : List PendingMessage) (cs : List Child)
    → has_id child_id ids ≡ false
    → Known ids ps cs
    → Known (insert_id child_id ids) ps (cs ++ record { id = child_id; pid = pid } ∷ [])
connect-IsKnown child_id pid ids ps cs new k =
    let more = Known-insert_id child_id ids ps cs k in
    record {
      root = more.root;
      waiting = more.waiting;
      reached = rw map-append (
          AllIn-append (insert_id child_id ids) (ids_of cs) child_id more.reached
            (insert_id_self child_id ids));
      distinct = more.distinct;
      sockets = rw map-append (
          NoRepeat-append (ids_of cs) child_id k.sockets
            (not_in_part child_id ids (ids_of cs) k.reached new));
    }

broadcast-IsKnown :
    (now : ℕ) (m : Message) (c : Controller)
    → has_id m.id c.node_ids ≡ true
    → IsKnown c
    → IsKnown (broadcast_message now m c)
unfolding broadcast_message send_to_children
broadcast-IsKnown now m c known k =
    Known-waiting c.node_ids c.pending_messages _ c.children k
      (rw map-append (AllIn-append c.node_ids (targets c.pending_messages) m.id k.waiting known))

create-Kept :
    (create_process : ℤ → Option ℤ) (now : ℕ) (child_id parent_id : ℤ) (c : Controller)
    → IsKnown c
    → Kept (handle_create_command create_process now child_id parent_id c)
unfolding handle_create_command
create-Kept create_process now child_id parent_id c k =
    elim (Bool-cases (has_id child_id c.node_ids)) [
      | inl old ↦ rw old k
      | inr new ↦ elim (Bool-cases (has_id parent_id c.node_ids)) [
        | inr missing ↦ rw (new, missing) k
        | inl known ↦ elim (Bool-cases (same_int parent_id (negsuc 0))) [
          | inr inner ↦
              rw (new, known, inner)
                (broadcast-IsKnown now (message create parent_id child_id) c known k)
          | inl top ↦ elim (Option-cases (create_process child_id)) [
            | inl failed ↦ rw (new, known, top, failed) tt
            | inr (pid, e) ↦
                rw (new, known, top, e)
                  (connect-IsKnown child_id pid c.node_ids c.pending_messages c.children new k)
          ]
        ]
      ]
    ]

command-Kept :
    (create_process : ℤ → Option ℤ) (now : ℕ) (cmd : Command) (c : Controller)
    → IsKnown c
    → Kept (handle_command create_process now cmd c)
unfolding handle_command handle_exec_command handle_ping_command handle_heartbeat_command
    send_to_children
command-Kept create_process now (create_command child_id parent_id) c k =
    create-Kept create_process now child_id parent_id c k
command-Kept create_process now (exec_command (key_value id key val)) c k =
    send_known-IsKnown now (text_message exec_add id val key) c k
command-Kept create_process now (exec_command (key_only id key)) c k =
    send_known-IsKnown now (text_message exec_find id (negsuc 0) key) c k
command-Kept create_process now (exec_command unreadable) c k = k
command-Kept create_process now (ping_command id) c k =
    send_known-IsKnown now (message ping id (pos 0)) c k
command-Kept create_process now (heartbeat_command time) c k = k
command-Kept create_process now other_command c k = k

turn-Kept :
    (create_process : ℤ → Option ℤ) (t : Turn) (c : Controller)
    → IsKnown c
    → Kept (turn create_process t c)
unfolding turn
turn-Kept create_process t c k = go t.command refl
  where
    checked : Controller
    checked = check_beats t.now (check_pending_messages t.now (handle_messages t.received c))

    checked-IsKnown : IsKnown checked
    checked-IsKnown =
        check_beats-IsKnown t.now _
          (check_pending-IsKnown t.now _ (handle_messages-IsKnown t.received c k))

    go : (cmd : Option Command) → t.command ≡ cmd → Kept (turn create_process t c)
    go none e = rw e checked-IsKnown
    go (some cmd) e = rw e (command-Kept create_process t.now cmd checked checked-IsKnown)

turns-Kept :
    (create_process : ℤ → Option ℤ) (ts : List Turn) (c : Controller)
    → IsKnown c
    → Kept (turns create_process ts c)
unfolding turns
turns-Kept create_process [] c k = k
turns-Kept create_process (t ∷ ts) c k = elim (Option-cases (turn create_process t c)) [
  | inl ended ↦ rw (turns, ended) tt
  | inr (next, e) ↦
      rw (turns, e) (turns-Kept create_process ts next (rw e at (turn-Kept create_process t c k)))
]

init-IsKnown : IsKnown init
unfolding has_id
init-IsKnown = record {
  root = refl;
  waiting = tt;
  reached = tt;
  distinct = (refl, tt);
  sockets = tt;
}

-- After any turns of the loop of `run`, whatever the children send and the user types, the root is
-- known, the controller waits only for nodes that it knows, its sockets are to nodes that it knows,
-- and no node is known or connected twice.
pub turns-IsKnown :
    (create_process : ℤ → Option ℤ) (ts : List Turn) (c : Controller)
    → turns create_process ts init ≡ some c
    → IsKnown c
turns-IsKnown create_process ts c e = subst Kept e (turns-Kept create_process ts init init-IsKnown)
