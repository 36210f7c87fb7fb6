-- ===== src/Controller/Pending.antt =====
-- The timeouts of Labs/Lab5/src/control.cpp.
use mai_os_labs.Prelude.{
  ℕ, ◌-◌, ◌≤◌, ◌<◌, ◌≡◌, refl, sym, ap, List, [], ◌∷◌, ◌++◌, arith, Bool-cases, inl, inr,
  append_assoc, append-nil, if◌then◌else◌, ◌⊎◌,
}
use mai_os_labs.Nodes.{
  CommandType, no_command, create, ping, exec_add, exec_find, exec_error, heart_beat, Message,
}
use mai_os_labs.Controller.{
  ping_unavailable, parent_unavailable, node_unavailable, Controller, PendingMessage, Line,
  is_overdue, timeout_lines, check_entries, check_pending_messages,
}

-- The entries that have timed out, and those that have not.
abbrev pub timed_out : ℕ → List PendingMessage → List PendingMessage
timed_out now [] = []
timed_out now (p ∷ ps) = if is_overdue now p then p ∷ timed_out now ps else timed_out now ps

abbrev pub still_waiting : ℕ → List PendingMessage → List PendingMessage
still_waiting now [] = []
still_waiting now (p ∷ ps) =
    if is_overdue now p then still_waiting now ps else p ∷ still_waiting now ps

abbrev all_lines : List PendingMessage → List Line
all_lines [] = []
all_lines (p ∷ ps) = timeout_lines p.body ++ all_lines ps

-- What tells the user that a message had no answer in time: one line with its node for a command of
-- the user, and nothing for the others.
pub data IsReport (m : Message) : List Line → Type 0 where
  pinged : m.command ≡ ping → IsReport m (ping_unavailable m.id ∷ [])
  created : m.command ≡ create → IsReport m (parent_unavailable m.id ∷ [])
  asked : (m.command ≡ exec_add) ⊎ (m.command ≡ exec_find) → IsReport m (node_unavailable m.id ∷ [])
  silent :
      (m.command ≡ no_command) ⊎ ((m.command ≡ exec_error) ⊎ (m.command ≡ heart_beat))
      → IsReport m []

-- The lines report each of the messages, in order.
pub data AreReports : List PendingMessage → List Line → Type 0 where
  no_more : AreReports [] []
  next_report :
      {p : PendingMessage} {ps : List PendingMessage} {lines rest : List Line}
      → IsReport p.body lines
      → AreReports ps rest
      → AreReports (p ∷ ps) (lines ++ rest)

-- A list is parted into those that stay and those that go, each in their order.
pub data Parted : List PendingMessage → List PendingMessage → List PendingMessage → Type 0 where
  parted : Parted [] [] []
  stays :
      {p : PendingMessage} {ps kept gone : List PendingMessage}
      → Parted ps kept gone
      → Parted (p ∷ ps) (p ∷ kept) gone
  goes :
      {p : PendingMessage} {ps kept gone : List PendingMessage}
      → Parted ps kept gone
      → Parted (p ∷ ps) kept (p ∷ gone)

timeout_lines-IsReport : (m : Message) → IsReport m (timeout_lines m)
unfolding timeout_lines
timeout_lines-IsReport m = by_command m.command refl
  where
    by_command :
        (k : CommandType)
        → m.command ≡ k
        → IsReport m (elim k [
          | ping ↦ ping_unavailable m.id ∷ []
          | create ↦ parent_unavailable m.id ∷ []
          | exec_add ↦ node_unavailable m.id ∷ []
          | exec_find ↦ node_unavailable m.id ∷ []
          | no_command ↦ []
          | exec_error ↦ []
          | heart_beat ↦ []
        ])
    by_command ping e = pinged e
    by_command create e = created e
    by_command exec_add e = asked (inl e)
    by_command exec_find e = asked (inr e)
    by_command no_command e = silent (inl e)
    by_command exec_error e = silent (inr (inl e))
    by_command heart_beat e = silent (inr (inr e))

all_lines-AreReports : (ps : List PendingMessage) → AreReports ps (all_lines ps)
all_lines-AreReports [] = no_more
all_lines-AreReports (p ∷ ps) =
    next_report (timeout_lines-IsReport p.body) (all_lines-AreReports ps)

-- No entry is older than 6 seconds, and each of `gone` was sent at least 6 seconds ago.
abbrev pub IsRecent : ℕ → List PendingMessage → Type 0
IsRecent now [] = Unit {0}
IsRecent now (p ∷ ps) = (now - p.sent_time < 6000000000) × IsRecent now ps

abbrev pub IsOld : ℕ → List PendingMessage → Type 0
IsOld now [] = Unit {0}
IsOld now (p ∷ ps) = (6000000000 ≤ now - p.sent_time) × IsOld now ps

check_entries-split :
    (now : ℕ) (ps : List PendingMessage) (lines : List Line)
    → ◌≡◌ {A = List PendingMessage × List Line}
        (check_entries now ps lines)
        (still_waiting now ps, lines ++ all_lines (timed_out now ps))
unfolding check_entries
check_entries-split now [] lines = ap (λ l. ([], l)) (sym (append-nil lines))
check_entries-split now (p ∷ ps) lines = elim (Bool-cases (is_overdue now p)) [
  | inl late ↦
      rw (late, check_entries-split now ps (lines ++ timeout_lines p.body))
        (ap (λ l. (still_waiting now ps, l)) (append_assoc lines (timeout_lines p.body) _))
  | inr early ↦ rw (early, check_entries-split now ps lines)
]

still_waiting-IsRecent : (now : ℕ) (ps : List PendingMessage) → IsRecent now (still_waiting now ps)
still_waiting-IsRecent now [] = tt
still_waiting-IsRecent now (p ∷ ps) = elim (Bool-cases (is_overdue now p)) [
  | inl late ↦ rw late (still_waiting-IsRecent now ps)
  | inr early ↦ rw early (ground arith, still_waiting-IsRecent now ps)
]

timed_out-IsOld : (now : ℕ) (ps : List PendingMessage) → IsOld now (timed_out now ps)
timed_out-IsOld now [] = tt
timed_out-IsOld now (p ∷ ps) = elim (Bool-cases (is_overdue now p)) [
  | inl late ↦ rw late (ground arith, timed_out-IsOld now ps)
  | inr early ↦ rw early (timed_out-IsOld now ps)
]

waiting-timed_out-Parted :
    (now : ℕ) (ps : List PendingMessage) → Parted ps (still_waiting now ps) (timed_out now ps)
waiting-timed_out-Parted now [] = parted
waiting-timed_out-Parted now (p ∷ ps) = elim (Bool-cases (is_overdue now p)) [
  | inl late ↦ rw late (goes (waiting-timed_out-Parted now ps))
  | inr early ↦ rw early (stays (waiting-timed_out-Parted now ps))
]

-- The check parts the pending messages, each part in the order of sending: those that stay were sent
-- less than 6 seconds ago, and those that go at least 6 seconds ago. In the order of sending, the
-- controller prints for each of those that go one line that says which node did not answer, if it is a
-- ping, a create or an exec message, and nothing for the others.
pub check_pending_messages_lem :
    (now : ℕ) (c : Controller)
    → let after = check_pending_messages now c in
      (gone : List PendingMessage) × (lines : List Line) × Parted c.pending_messages
        after.pending_messages gone
      × IsRecent now after.pending_messages
      × IsOld now gone
      × AreReports gone lines
      × (after.printed ≡ c.printed ++ lines)
unfolding check_pending_messages
check_pending_messages_lem now c = rw (check_entries-split now c.pending_messages c.printed) (
  timed_out now c.pending_messages,
  all_lines (timed_out now c.pending_messages),
  waiting-timed_out-Parted now c.pending_messages,
  still_waiting-IsRecent now c.pending_messages,
  timed_out-IsOld now c.pending_messages,
  all_lines-AreReports (timed_out now c.pending_messages),
  refl,
)
