-- ===== src/Controller.antt =====
-- Labs/Lab5/src/control.cpp: the class `Controller`. A clock reading, in nanoseconds, is an argument
-- of what reads the clock. What is printed and what is sent are lists, the last one last.
-- `create_process` is a parameter: the process id for a node's id, or `none` for the exception,
-- which ends the program. Reading the numbers of a command is left out.
pub mod Pending
pub mod Known
pub mod Invariant
pub mod Answered
use mai_os_labs.Prelude.{
  ℕ, zero, suc, ◌+◌, ◌-◌, ◌*◌, ◌/◌, Bool, true, false, ◌&&◌, ◌||◌, List, [], ◌∷◌, ◌++◌, map, Option,
  none, some, ltb, ◌==◌, if◌then◌else◌,
}
use mai_os_labs.Prelude.Int.{ℤ, pos, negsuc, ltb_ℤ}
use mai_os_labs.Nodes.{
  CommandType, no_command, create, ping, exec_add, exec_find, exec_error, heart_beat, Message,
  message, text_message, same_int, Child, Receiver, child,
}

-- The numbers of the `enum`.
abbrev pub code : CommandType → ℕ
code no_command = 0
code create = 1
code ping = 2
code exec_add = 3
code exec_find = 4
code exec_error = 5
code heart_beat = 6

-- An entry of `pending_messages_`.
pub record PendingMessage : Type 0 where
  pub body : Message
  pub sent_time : ℕ

pub data Line : Type 0 where
  ok_created ok_available ok_added ok_beat : ℤ → Line
  ok_not_found : ℤ → List ℕ → Line
  ok_found : ℤ → List ℕ → ℤ → Line
  ping_unavailable parent_unavailable node_unavailable : ℤ → Line
  already_exists parent_not_found not_existing no_beat : ℤ → Line
  no_such_command : Line

pub record Controller : Type 0 where
  pub node_ids : List ℤ
  pub pending_messages : List PendingMessage
  pub children : List Child
  pub heartbeat : ℤ
  pub beat_tracker : List (ℤ × ℕ)
  pub printed : List Line
  pub sent : List (Receiver × Message)

-- `node_ids_.count(id)` and `node_ids_.insert(id)`
unfoldable pub has_id : ℤ → List ℤ → Bool
has_id id [] = false
has_id id (x ∷ xs) = same_int id x || has_id id xs

unfoldable pub insert_id : ℤ → List ℤ → List ℤ
insert_id id ids = if has_id id ids then ids else ids ++ id ∷ []

-- `beat_tracker[id] = now`, in the order of the ids
unfoldable pub set_beat : ℤ → ℕ → List (ℤ × ℕ) → List (ℤ × ℕ)
set_beat id now [] = (id, now) ∷ []
set_beat id now (b ∷ bs) =
    if same_int id b.0
    then (b.0, now) ∷ bs
    else if ltb_ℤ id b.0
    then (id, now) ∷ b ∷ bs
    else b ∷ set_beat id now bs

abbrev pub print_line : Line → Controller → Controller
print_line l c = record c { printed = c.printed ++ l ∷ [] }

-- The test of `remove_pending_message`.
unfoldable pub answers : CommandType → ℤ → Message → Bool
answers cmd id m =
    (code m.command == code cmd && same_int m.id id)
    || (code m.command == code cmd && (code m.command == code create && same_int m.add_data id))

-- The first entry that passes the test is erased.
unfoldable pub erase_answered : CommandType → ℤ → List PendingMessage → List PendingMessage
erase_answered cmd id [] = []
erase_answered cmd id (p ∷ ps) = if answers cmd id p.body then ps else p ∷ erase_answered cmd id ps

unfoldable pub remove_pending_message : CommandType → ℤ → Controller → Controller
remove_pending_message cmd id c = record c {
  pending_messages = erase_answered cmd id c.pending_messages;
}

unfoldable pub handle_child_message : ℕ → Message → Controller → Controller
handle_child_message now m c = elim m.command [
  | no_command ↦ c
  | create ↦ remove_pending_message create m.id (
      print_line (ok_created m.add_data) (record c {
        node_ids = insert_id m.id c.node_ids;
        beat_tracker = set_beat m.id now c.beat_tracker;
      }))
  | ping ↦ remove_pending_message ping m.id (print_line (ok_available m.id) c)
  | exec_error ↦ remove_pending_message exec_find m.id (print_line (ok_not_found m.id m.val) c)
  | exec_add ↦ remove_pending_message exec_add m.id (print_line (ok_added m.id) c)
  | exec_find ↦
      remove_pending_message exec_find m.id (print_line (ok_found m.id m.val m.add_data) c)
  | heart_beat ↦
      print_line (ok_beat m.id) (record c { beat_tracker = set_beat m.id now c.beat_tracker })
]

-- What `handle_timeout` prints.
unfoldable pub timeout_lines : Message → List Line
timeout_lines m = elim m.command [
  | ping ↦ ping_unavailable m.id ∷ []
  | create ↦ parent_unavailable m.id ∷ []
  | exec_add ↦ node_unavailable m.id ∷ []
  | exec_find ↦ node_unavailable m.id ∷ []
  | no_command ↦ []
  | exec_error ↦ []
  | heart_beat ↦ []
]

-- More than 5 whole seconds have passed.
abbrev pub is_overdue : ℕ → PendingMessage → Bool
is_overdue now p = ltb 5 ((now - p.sent_time) / 1000000000)

-- The loop of `check_pending_messages`: the entries that stay, and the lines that are printed.
unfoldable pub check_entries : ℕ → List PendingMessage → List Line → List PendingMessage × List Line
check_entries now [] lines = ([], lines)
check_entries now (p ∷ ps) lines =
    let (kept, all) =
      check_entries now ps (if is_overdue now p then lines ++ timeout_lines p.body else lines) in
    (if is_overdue now p then kept else p ∷ kept, all)

unfoldable pub check_pending_messages : ℕ → Controller → Controller
check_pending_messages now c =
    let (kept, lines) = check_entries now c.pending_messages c.printed in
    record c { pending_messages = kept; printed = lines }

unfoldable pub send_to_children : Message → Controller → Controller
send_to_children m c = record c { sent = c.sent ++ map (λ (k : Child). (child k.id, m)) c.children }

unfoldable pub broadcast_message : ℕ → Message → Controller → Controller
broadcast_message now m c = send_to_children m (record c {
  pending_messages = c.pending_messages ++ record { body = m; sent_time = now } ∷ [];
})

unfoldable pub handle_create_command : (ℤ → Option ℤ) → ℕ → ℤ → ℤ → Controller → Option Controller
handle_create_command create_process now child_id parent_id c =
    if has_id child_id c.node_ids
    then some (print_line (already_exists child_id) c)
    else if has_id parent_id c.node_ids
    then (if same_int parent_id (negsuc 0)
        then elim (create_process child_id) [
          | none ↦ none
          | some pid ↦ some (
              print_line (ok_created pid) (record c {
                children = c.children ++ record { id = child_id; pid = pid } ∷ [];
                node_ids = insert_id child_id c.node_ids;
              }))
        ]
        else some (broadcast_message now (message create parent_id child_id) c))
    else some (print_line (parent_not_found parent_id) c)

-- A message is sent to a node that is known.
unfoldable pub send_known : ℕ → Message → Controller → Controller
send_known now m c =
    if has_id m.id c.node_ids then broadcast_message now m c else print_line (not_existing m.id) c

-- What `sscanf` reads of the line behind `exec`.
pub data ExecInput : Type 0 where
  key_value : ℤ → List ℕ → ℤ → ExecInput
  key_only : ℤ → List ℕ → ExecInput
  unreadable : ExecInput

unfoldable pub handle_exec_command : ℕ → ExecInput → Controller → Controller
handle_exec_command now (key_value id key val) c =
    send_known now (text_message exec_add id val key) c
handle_exec_command now (key_only id key) c =
    send_known now (text_message exec_find id (negsuc 0) key) c
handle_exec_command now unreadable c = c

unfoldable pub handle_ping_command : ℕ → ℤ → Controller → Controller
handle_ping_command now id c = send_known now (message ping id (pos 0)) c

unfoldable pub handle_heartbeat_command : ℕ → ℤ → Controller → Controller
handle_heartbeat_command now time c =
    send_to_children (message heart_beat (negsuc 0) time)
      (record c { heartbeat = time; beat_tracker = map (λ (b : ℤ × ℕ). (b.0, now)) c.beat_tracker })

-- The loop of `check_beats`, for a heartbeat of `beat` milliseconds.
unfoldable pub late_beats : ℕ → ℕ → List (ℤ × ℕ) → List (ℤ × ℕ) × List Line
late_beats now beat [] = ([], [])
late_beats now beat (b ∷ bs) =
    let (rest, lines) = late_beats now beat bs in
    if ltb (4 * beat) ((now - b.1) / 1000000)
    then ((b.0, now) ∷ rest, no_beat b.0 ∷ lines)
    else (b ∷ rest, lines)

-- `if (heartbeat > 0) check_beats();`
unfoldable pub check_beats : ℕ → Controller → Controller
check_beats now c = elim c.heartbeat [
  | pos beat ↦
      (if beat == 0
        then c
        else (let (beats, lines) = late_beats now beat c.beat_tracker in
            record c { beat_tracker = beats; printed = c.printed ++ lines }))
  | negsuc n ↦ c
]

pub data Command : Type 0 where
  create_command : ℤ → ℤ → Command
  exec_command : ExecInput → Command
  ping_command heartbeat_command : ℤ → Command
  other_command : Command

unfoldable pub handle_command : (ℤ → Option ℤ) → ℕ → Command → Controller → Option Controller
handle_command create_process now (create_command child_id parent_id) c =
    handle_create_command create_process now child_id parent_id c
handle_command create_process now (exec_command input) c = some (handle_exec_command now input c)
handle_command create_process now (ping_command id) c = some (handle_ping_command now id c)
handle_command create_process now (heartbeat_command time) c =
    some (handle_heartbeat_command now time c)
handle_command create_process now other_command c = some (print_line no_such_command c)

-- What one turn of the loop of `run` meets: the messages of the children with their times, and a
-- command, if one was typed.
pub record Turn : Type 0 where
  pub received : List (ℕ × Message)
  pub now : ℕ
  pub command : Option Command

unfoldable pub handle_messages : List (ℕ × Message) → Controller → Controller
handle_messages [] c = c
handle_messages (m ∷ ms) c = handle_messages ms (handle_child_message m.0 m.1 c)

unfoldable pub turn : (ℤ → Option ℤ) → Turn → Controller → Option Controller
turn create_process t c =
    let checked = check_beats t.now (check_pending_messages t.now (handle_messages t.received c)) in
    elim t.command [
      | none ↦ some checked
      | some cmd ↦ handle_command create_process t.now cmd checked
    ]

unfoldable pub turns : (ℤ → Option ℤ) → List Turn → Controller → Option Controller
turns create_process [] c = some c
turns create_process (t ∷ ts) c = elim (turn create_process t c) [
  | none ↦ none
  | some next ↦ turns create_process ts next
]

-- The constructor.
abbrev pub init : Controller
init = record {
  node_ids = negsuc 0 ∷ [];
  pending_messages = [];
  children = [];
  heartbeat = pos 0;
  beat_tracker = [];
  printed = [];
  sent = [];
}
