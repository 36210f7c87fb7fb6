-- ===== src/Nodes/Answers.antt =====
-- The answers of a node of Labs/Lab5/src/nodes.cpp.
use mai_os_labs.Prelude.{
  ℕ, zero, suc, ◌≡◌, ◌≢◌, ◌≤◌, ◌⊎◌, inl, inr, ap, refl, sym, ◌∙◌, true, List, [], ◌∷◌, ◌++◌, map,
  Option, some, take, arith, length, Bool-cases, append_assoc,
}
use mai_os_labs.Prelude.Int.{ℤ, pos, negsuc}
use mai_os_labs.Nodes.{
  create, ping, exec_add, exec_find, Message, text_message, same_int, same_text, Dictionary,
  find_word, set_word, Child, parent, child, ComputingNode, send_parent, broadcast_to_children,
  from_parent, handle_exec_add, handle_exec_find, handle_ping, handle_create, find_answer,
}

pub same_int_refl : (a : ℤ) → same_int a a ≡ true
same_int_refl (pos n) = ground arith
same_int_refl (negsuc n) = ground arith

pub same_int_sound : (a b : ℤ) → same_int a b ≡ true → a ≡ b
same_int_sound (pos a) (pos b) h = ap pos (ground arith)
same_int_sound (negsuc a) (negsuc b) h = ap negsuc (ground arith)
same_int_sound (pos a) (negsuc b) h = absurd (ground arith)
same_int_sound (negsuc a) (pos b) h = absurd (ground arith)

same_text_refl : (s : List ℕ) → same_text s s ≡ true
unfolding same_text
same_text_refl [] = refl
same_text_refl (c ∷ s) = ground (arith, same_text_refl s)

same_text_sound : (s t : List ℕ) → same_text s t ≡ true → s ≡ t
unfolding same_text
same_text_sound [] [] h = refl
same_text_sound [] (d ∷ t) h = absurd (ground arith)
same_text_sound (c ∷ s) [] h = absurd (ground arith)
same_text_sound (c ∷ s) (d ∷ t) h =
    let same : c ≡ d = ground arith in
    ap (◌∷◌ c) (same_text_sound s t (ground arith)) ∙ ap (λ k. k ∷ t) same

find_word-set_word : (s : List ℕ) (v : ℤ) (d : Dictionary) → find_word s (set_word s v d) ≡ some v
unfolding find_word set_word
find_word-set_word s v [] = rw (same_text_refl s)
find_word-set_word s v (e ∷ d) = elim (Bool-cases (same_text s e.0)) [
  | inl hit ↦ rw (hit, hit)
  | inr miss ↦ rw (miss, miss) (find_word-set_word s v d)
]

find_word-set_other :
    (s t : List ℕ) (v : ℤ) (d : Dictionary) → t ≢ s → find_word t (set_word s v d) ≡ find_word t d
unfolding find_word set_word
find_word-set_other s t v [] ne = elim (Bool-cases (same_text t s)) [
  | inl hit ↦ absurd (ne (same_text_sound t s hit))
  | inr miss ↦ rw miss
]
find_word-set_other s t v (e ∷ d) ne = elim (Bool-cases (same_text s e.0)) [
  | inl hit ↦ elim (Bool-cases (same_text t e.0)) [
    | inl same ↦ absurd (ne (same_text_sound t e.0 same ∙ sym (same_text_sound s e.0 hit)))
    | inr other ↦ rw (hit, other)
  ]
  | inr miss ↦ rw miss (ground (arith, find_word-set_other s t v d ne))
]

take_all : (n : ℕ) (s : List ℕ) → length s ≤ n → take n s ≡ s
take_all zero [] h = refl
take_all zero (c ∷ s) h = absurd (omega arith)
take_all (suc n) [] h = refl
take_all (suc n) (c ∷ s) h = ap (◌∷◌ c) (take_all n s (omega arith))

-- A word of at most 29 bytes is added at a node, and the node is then asked for it: it echoes the
-- first message, and answers the second with the value. What it knows of another word is as before.
pub find-after_add :
    (create_process : ℤ → Option ℤ) (n : ComputingNode) (s t : List ℕ) (v w : ℤ)
    → length s ≤ 29
    → t ≢ s
    → (n₁ n₂ : ComputingNode) × (from_parent create_process (text_message exec_add n.id v s) n
        ≡ some n₁)
      × (from_parent create_process (text_message exec_find n.id w s) n₁ ≡ some n₂)
      × (n₂.sent
          ≡ n.sent
            ++ (parent, text_message exec_add n.id v s)
              ∷ (parent, text_message exec_find n.id v s)
              ∷ [])
      × (find_word t n₂.dictionary ≡ find_word t n.dictionary)
unfolding from_parent handle_exec_add handle_exec_find send_parent find_answer
find-after_add create_process n s t v w short ne =
    let whole = take_all 29 s short in
    let hit = same_int_refl n.id in
    let known = find_word-set_word s v n.dictionary in
    let n₁ : ComputingNode =
      send_parent (text_message exec_add n.id v s)
        (record n { dictionary = set_word s v n.dictionary }) in
    (
      n₁,
      send_parent (text_message exec_find n.id v s) n₁,
      rw (hit, whole),
      rw (whole, hit, find_answer, known, whole, whole),
      append_assoc n.sent _ _,
      find_word-set_other s t v n.dictionary ne,
    )

-- A message for another node leaves this one as it is and goes to all its children.
pub routes_on :
    (create_process : ℤ → Option ℤ) (m : Message) (n : ComputingNode)
    → m.id ≢ n.id
    → (m.command ≡ create) ⊎ (m.command ≡ ping) ⊎ (m.command ≡ exec_add) ⊎ (m.command ≡ exec_find)
    → from_parent create_process m n
      ≡ some (record n { sent = n.sent ++ map (λ (c : Child). (child c.id, m)) n.children })
unfolding from_parent handle_create handle_ping handle_exec_add handle_exec_find
    broadcast_to_children
routes_on create_process m n other kind = elim (Bool-cases (same_int m.id n.id)) [
  | inl hit ↦ absurd (other (same_int_sound m.id n.id hit))
  | inr miss ↦ elim kind [
    | inl e ↦ rw (e, miss)
    | inr (inl e) ↦ rw (e, miss)
    | inr (inr (inl e)) ↦ rw (e, miss)
    | inr (inr (inr e)) ↦ rw (e, miss)
  ]
]
