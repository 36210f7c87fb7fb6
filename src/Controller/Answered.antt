-- ===== src/Controller/Answered.antt =====
-- Requests of the controller of Labs/Lab5/src/control.cpp and their answers.
use mai_os_labs.Prelude.{
  ℕ, ◌≡◌, refl, true, false, List, [], ◌∷◌, ◌++◌, map, Option, some, append_assoc,
}
use mai_os_labs.Prelude.Int.{ℤ, pos, negsuc}
use mai_os_labs.Nodes.{
  CommandType, create, ping, exec_add, exec_find, exec_error, Message, same_int, Child, child,
  message, text_message,
}
use mai_os_labs.Nodes.Answers.{same_int_refl}
use mai_os_labs.Controller.{
  Controller, PendingMessage, Line, ok_available, ok_added, ok_found, ok_not_found, has_id, answers,
  erase_answered, remove_pending_message, handle_child_message, send_to_children, broadcast_message,
  send_known, handle_create_command,
}

-- A request, the answer of its node, and what the controller prints of it.
pub data IsAnswer : Message → Message → Line → Type 0 where
  pinged : (id d : ℤ) → IsAnswer (message ping id (pos 0)) (message ping id d) (ok_available id)
  added :
      (id v : ℤ) (key : List ℕ)
      → IsAnswer (text_message exec_add id v key) (text_message exec_add id v key) (ok_added id)
  found :
      (id v : ℤ) (key : List ℕ)
      → IsAnswer
          (text_message exec_find id (negsuc 0) key)
          (text_message exec_find id v key)
          (ok_found id (text_message exec_find id v key).val v)
  not_found :
      (id : ℤ) (key : List ℕ)
      → IsAnswer
          (text_message exec_find id (negsuc 0) key)
          (text_message exec_error id (negsuc 0) key)
          (ok_not_found id (text_message exec_error id (negsuc 0) key).val)

-- No message of this kind waits for this node.
abbrev pub NoneWaits : CommandType → ℤ → List PendingMessage → Type 0
NoneWaits cmd id [] = Unit {0}
NoneWaits cmd id (p ∷ ps) = (answers cmd id p.body ≡ false) × NoneWaits cmd id ps

erase-append :
    (cmd : CommandType) (id : ℤ) (ps : List PendingMessage) (p : PendingMessage)
    → NoneWaits cmd id ps
    → answers cmd id p.body ≡ true
    → erase_answered cmd id (ps ++ p ∷ []) ≡ ps
unfolding erase_answered
erase-append cmd id [] p w h = rw h
erase-append cmd id (q ∷ ps) p (e, w) h = rw (e, erase-append cmd id ps p w h)

-- A request to a known node, for which no other of its kind waits, is sent to all children. When
-- its answer comes, the controller prints it once and waits for just what it waited for before.
pub answer_settles :
    (now then : ℕ) (request answer : Message) (line : Line) (c : Controller)
    → IsAnswer request answer line
    → has_id request.id c.node_ids ≡ true
    → NoneWaits request.command request.id c.pending_messages
    → let after = handle_child_message then answer (send_known now request c) in
      (after.pending_messages ≡ c.pending_messages)
      × (after.printed ≡ c.printed ++ line ∷ [])
      × (after.sent ≡ c.sent ++ map (λ (k : Child). (child k.id, request)) c.children)
unfolding send_known broadcast_message send_to_children handle_child_message remove_pending_message
    answers
answer_settles now then request answer line c (pinged id d) known w =
    rw known (erase-append ping id c.pending_messages _ w (rw (same_int_refl id)), refl, refl)
answer_settles now then request answer line c (added id v key) known w =
    rw known (erase-append exec_add id c.pending_messages _ w (rw (same_int_refl id)), refl, refl)
answer_settles now then request answer line c (found id v key) known w =
    rw known (erase-append exec_find id c.pending_messages _ w (rw (same_int_refl id)), refl, refl)
answer_settles now then request answer line c (not_found id key) known w =
    rw known (erase-append exec_find id c.pending_messages _ w (rw (same_int_refl id)), refl, refl)

-- Until the answer to a request for a new node comes, the controller sends a second request for the
-- same node too, and waits for both.
pub create_twice :
    (create_process : ℤ → Option ℤ) (now then : ℕ) (child_id parent_id : ℤ) (c : Controller)
    → has_id child_id c.node_ids ≡ false
    → has_id parent_id c.node_ids ≡ true
    → same_int parent_id (negsuc 0) ≡ false
    → let request = message create parent_id child_id in
      (c₁ c₂ : Controller) × (handle_create_command create_process now child_id parent_id c
        ≡ some c₁)
      × (handle_create_command create_process then child_id parent_id c₁ ≡ some c₂)
      × (c₂.pending_messages
          ≡ c.pending_messages
            ++ record { body = request; sent_time = now }
              ∷ record { body = request; sent_time = then }
              ∷ [])
      × (c₂.sent
          ≡ c.sent
            ++ (map (λ (k : Child). (child k.id, request)) c.children
                ++ map (λ (k : Child). (child k.id, request)) c.children))
unfolding handle_create_command broadcast_message send_to_children
create_twice create_process now then child_id parent_id c new known inner =
    let request = message create parent_id child_id in
    let c₁ = broadcast_message now request c in
    (
      c₁,
      broadcast_message then request c₁,
      rw (new, known, inner),
      rw (new, known, inner),
      append_assoc c.pending_messages _ _,
      append_assoc c.sent _ _,
    )
