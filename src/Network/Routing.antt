-- ===== src/Network/Routing.antt =====
-- Where a question of the controller goes in the tree of Labs/Lab5/src/nodes.cpp, and what comes back.
use mai_os_labs.Prelude.{
  ℕ, ◌≡◌, ◌∙◌, refl, sym, ap, subst, true, false, List, [], ◌∷◌, ◌++◌, map, Option, some, arith,
  Bool-cases, Option-cases, inl, inr, if◌then◌else◌, append_assoc, append-nil, ◌⊎◌,
}
use mai_os_labs.Prelude.Int.{ℤ, negsuc}
use mai_os_labs.Nodes.{
  Message, ComputingNode, Child, Receiver, parent, child, same_int, from_parent, from_child,
  find_answer, text_message, exec_find, exec_error, handle_exec_find, send_parent,
  broadcast_to_children, find_word,
}
use mai_os_labs.Nodes.Answers.{same_int_refl, same_int_sound}
use mai_os_labs.Controller.{has_id}
use mai_os_labs.Controller.Known.{AllIn, NoRepeat, ids_of}
use mai_os_labs.Network.{
  Tree, branch, Forest, no_trees, more, root_id, for_child, for_parent, handle_all, relay, deliver,
  deliver_forest,
}

abbrev pub roots : Forest → List ℤ
roots no_trees = []
roots (more t f) = root_id t ∷ roots f

-- Each node's list of children is that of its subtrees, without repetition.
abbrev mutual
  pub IsLinked : Tree → Type 0
  IsLinked (branch n f) = (ids_of n.children ≡ roots f) × NoRepeat (roots f) × AreLinked f

  pub AreLinked : Forest → Type 0
  AreLinked no_trees = Unit {0}
  AreLinked (more t f) = IsLinked t × AreLinked f

-- The answers of the nodes that a question is for.
abbrev mutual
  pub reached : Message → Tree → List Message
  reached m (branch n f) = if same_int m.id n.id then find_answer m n ∷ [] else reached_in m f

  pub reached_in : Message → Forest → List Message
  reached_in m no_trees = []
  reached_in m (more t f) = reached m t ++ reached_in m f

-- The question for a word, as the controller sends it.
abbrev pub question : ℤ → List ℕ → Message
question id key = text_message exec_find id (negsuc 0) key

abbrev IsReply : Message → Type 0
IsReply m = (m.command ≡ exec_find) ⊎ (m.command ≡ exec_error)

abbrev AreReplies : List Message → Type 0
AreReplies [] = Unit {0}
AreReplies (m ∷ ms) = IsReply m × AreReplies ms

AreReplies-append : (ms ks : List Message) → AreReplies ms → AreReplies ks → AreReplies (ms ++ ks)
AreReplies-append [] ks a b = b
AreReplies-append (m ∷ ms) ks (h, a) b = (h, AreReplies-append ms ks a b)

find_answer-IsReply : (m : Message) (n : ComputingNode) → IsReply (find_answer m n)
unfolding find_answer
find_answer-IsReply m n = elim (Option-cases (find_word m.val n.dictionary)) [
  | inl missing ↦ rw (find_answer, missing) (inr refl)
  | inr (v, e) ↦ rw (find_answer, e) (inl refl)
]

mutual
  reached-AreReplies : (m : Message) (t : Tree) → AreReplies (reached m t)
  reached-AreReplies m (branch n f) = elim (Bool-cases (same_int m.id n.id)) [
    | inl hit ↦ rw hit (find_answer-IsReply m n, tt)
    | inr miss ↦ rw miss (reached_in-AreReplies m f)
  ]

  reached_in-AreReplies : (m : Message) (f : Forest) → AreReplies (reached_in m f)
  reached_in-AreReplies m no_trees = tt
  reached_in-AreReplies m (more t f) =
      AreReplies-append (reached m t) (reached_in m f) (reached-AreReplies m t)
        (reached_in-AreReplies m f)

abbrev upwards : List Message → List (Receiver × Message)
upwards = map λ m. (parent, m)

relay_sent :
    (rs : List Message) (n : ComputingNode)
    → AreReplies rs
    → (relay rs n).sent ≡ n.sent ++ upwards rs
unfolding relay from_child send_parent
relay_sent [] n a = sym (append-nil n.sent)
relay_sent (m ∷ rs) n (inl e, a) =
    ap (λ (k : ComputingNode). (relay rs k).sent) (rw e)
    ∙ relay_sent rs (send_parent m n) a
    ∙ append_assoc n.sent _ _
relay_sent (m ∷ rs) n (inr e, a) =
    ap (λ (k : ComputingNode). (relay rs k).sent) (rw e)
    ∙ relay_sent rs (send_parent m n) a
    ∙ append_assoc n.sent _ _

for_parent-upwards : (rs : List Message) → for_parent (upwards rs) ≡ rs
unfolding for_parent
for_parent-upwards [] = refl
for_parent-upwards (m ∷ rs) = ap (◌∷◌ m) (for_parent-upwards rs)

-- What is sent to the children `cs` and then upwards.
for_parent-down_and_up :
    (m : Message) (cs : List Child) (rs : List Message)
    → for_parent (map (λ (c : Child). (child c.id, m)) cs ++ upwards rs) ≡ rs
unfolding for_parent
for_parent-down_and_up m [] rs = for_parent-upwards rs
for_parent-down_and_up m (c ∷ cs) rs = for_parent-down_and_up m cs rs

for_child_absent :
    (m : Message) (id : ℤ) (cs : List Child)
    → has_id id (ids_of cs) ≡ false
    → for_child id (map (λ (c : Child). (child c.id, m)) cs) ≡ []
unfolding for_child has_id
for_child_absent m id [] h = refl
for_child_absent m id (c ∷ cs) h = ground (arith, for_child_absent m id cs)

for_child_present :
    (m : Message) (id : ℤ) (cs : List Child)
    → has_id id (ids_of cs) ≡ true
    → NoRepeat (ids_of cs)
    → for_child id (map (λ (c : Child). (child c.id, m)) cs) ≡ m ∷ []
unfolding for_child has_id
for_child_present m id [] h n = absurd (ground arith)
for_child_present m id (c ∷ cs) h (new, n) = elim (Bool-cases (same_int id c.id)) [
  | inl hit ↦ rw hit (ap (◌∷◌ m) (for_child_absent m id cs (rw (same_int_sound id c.id hit) new)))
  | inr miss ↦ rw miss (for_child_present m id cs (rw miss at h) n)
]

AllIn-cons : (x : ℤ) (ids xs : List ℤ) → AllIn ids xs → AllIn (x ∷ ids) xs
unfolding has_id
AllIn-cons x ids [] a = tt
AllIn-cons x ids (y ∷ xs) (h, a) = (ground arith, AllIn-cons x ids xs a)

AllIn-self : (ids : List ℤ) → AllIn ids ids
unfolding has_id
AllIn-self [] = tt
AllIn-self (x ∷ ids) = (rw (same_int_refl x), AllIn-cons x ids ids (AllIn-self ids))

nothing_for_child : (id : ℤ) → for_child id [] ≡ []
unfolding for_child
nothing_for_child id = refl

only_up : (m : Message) (id : ℤ) → for_child id ((parent, m) ∷ []) ≡ []
unfolding for_child
only_up m id = refl

module _ (create_process : ℤ → Option ℤ) where
  deliver_branch :
      (ms : List Message) (n n₁ : ComputingNode) (f f' : Forest) (rs : List Message)
      → handle_all create_process ms (record n { sent = [] }) ≡ some n₁
      → deliver_forest create_process n₁.sent f ≡ some (f', rs)
      → deliver create_process ms (branch n f)
        ≡ some (branch (relay rs n₁) f', for_parent (relay rs n₁).sent)
  unfolding deliver
  deliver_branch ms n n₁ f f' rs handled passed = cc (handled, passed)

  deliver_more :
      (sent : List (Receiver × Message)) (t t' : Tree) (f f' : Forest) (ms rs : List Message)
      → deliver create_process (for_child (root_id t) sent) t ≡ some (t', ms)
      → deliver_forest create_process sent f ≡ some (f', rs)
      → deliver_forest create_process sent (more t f) ≡ some (more t' f', ms ++ rs)
  unfolding deliver_forest
  deliver_more sent t t' f f' ms rs first others = cc (first, others)

  nothing_handled : (n : ComputingNode) → handle_all create_process [] n ≡ some n
  unfolding handle_all
  nothing_handled n = refl

  unchanged_by_none :
      (sent : List (Receiver × Message))
      → deliver_forest create_process sent no_trees ≡ some (no_trees, [])
  unfolding deliver_forest
  unchanged_by_none sent = refl

  mutual
    unfolding relay for_parent

    nothing_delivered : (t : Tree) → (t' : Tree) × (deliver create_process [] t ≡ some (t', []))
    nothing_delivered (branch n f) =
        let (f', e) = nothing_passed [] nothing_for_child f in
        (branch (record n { sent = [] }) f', deliver_branch [] n _ f f' [] (nothing_handled _) e)

    nothing_passed :
        (sent : List (Receiver × Message))
        → ((id : ℤ) → for_child id sent ≡ [])
        → (f : Forest) → (f' : Forest) × (deliver_forest create_process sent f ≡ some (f', []))
    nothing_passed sent h no_trees = (no_trees, unchanged_by_none sent)
    nothing_passed sent h (more t f) =
        let (t', e) = nothing_delivered t in
        let (f', e') = nothing_passed sent h f in
        (more t' f', deliver_more sent t t' f f' [] [] (rw (h (root_id t)) e) e')

  module _ (id : ℤ) (key : List ℕ) where
    -- The node that the question is for answers it, and any other passes it on.
    question_hit :
        (n : ComputingNode)
        → same_int id n.id ≡ true
        → handle_all create_process (question id key ∷ []) (record n { sent = [] })
          ≡ some (record n { sent = (parent, find_answer (question id key) n) ∷ [] })
    unfolding handle_all from_parent handle_exec_find send_parent find_answer
    question_hit n hit = rw hit

    question_miss :
        (n : ComputingNode)
        → same_int id n.id ≡ false
        → handle_all create_process (question id key ∷ []) (record n { sent = [] })
          ≡ some (record n { sent = map (λ (c : Child). (child c.id, question id key)) n.children })
    unfolding handle_all from_parent handle_exec_find broadcast_to_children
    question_miss n miss = rw miss

    mutual
      unfolding relay for_parent

      pub asked :
          (t : Tree)
          → IsLinked t
          → (t' : Tree) × (deliver create_process (question id key ∷ []) t
              ≡ some (t', reached (question id key) t))
      asked (branch n f) (same, distinct, linked) = elim (Bool-cases (same_int id n.id)) [
        | inl hit ↦
            let sent = (parent, find_answer (question id key) n) ∷ [] in
            let (f', e) = nothing_passed sent (only_up _) f in
            (
              branch (record n { sent = sent }) f',
              rw hit (deliver_branch _ n _ f f' [] (question_hit n hit) e),
            )
        | inr miss ↦
            let (f', e) =
              asked_forest n.children f (subst NoRepeat (sym same) distinct)
                (subst (λ ids. AllIn ids (roots f)) (sym same) (AllIn-self (roots f))) linked in
            let rs = reached_in (question id key) f in
            let n₁ : ComputingNode = record n {
              sent = map (λ (c : Child). (child c.id, question id key)) n.children;
            } in
            (
              branch (relay rs n₁) f',
              rw miss (
                  deliver_branch _ n n₁ f f' rs (question_miss n miss) e
                  ∙ ap (λ ms. some (branch (relay rs n₁) f', ms))
                      (ap for_parent (relay_sent rs n₁ (reached_in-AreReplies _ f))
                        ∙ for_parent-down_and_up (question id key) n.children rs)),
            )
      ]

      pub asked_forest :
          (cs : List Child) (f : Forest)
          → NoRepeat (ids_of cs)
          → AllIn (ids_of cs) (roots f)
          → AreLinked f
          → (f' : Forest) × (deliver_forest create_process
                (map (λ (c : Child). (child c.id, question id key)) cs)
                f
              ≡ some (f', reached_in (question id key) f))
      asked_forest cs no_trees distinct all linked = (no_trees, unchanged_by_none _)
      asked_forest cs (more t f) distinct (here, all) (linked, rest) =
          let (t', e) = asked t linked in
          let (f', e') = asked_forest cs f distinct all rest in
          (
            more t' f',
            deliver_more _ t t' f f' _ _
                (rw (for_child_present (question id key) (root_id t) cs here distinct) e) e',
          )
