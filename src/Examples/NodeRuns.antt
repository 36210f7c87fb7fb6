-- ===== src/Examples/NodeRuns.antt =====
-- A concrete run of the handlers of Labs/Lab5/src/nodes.cpp: the node 1 with the child 2.
use mai_os_labs.Prelude.{length, ℕ, List, [], ◌∷◌, ◌++◌, Option, none, some, ◌≡◌, ◌≢◌, arith, ap}
use mai_os_labs.Prelude.Int.{ℤ, pos, negsuc, pos_part}
use mai_os_labs.Nodes.{
  ComputingNode, parent, from_parent, find_word, text_message, exec_add, exec_find,
}
use mai_os_labs.Nodes.Answers.{find-after_add}

abbrev no_process : ℤ → Option ℤ
no_process id = none

abbrev first_node : ComputingNode
first_node = record {
  id = pos 1;
  dictionary = (b'x' ∷ [], pos 3) ∷ [];
  children = record { id = pos 2; pid = pos 77 } ∷ [];
  heartbeat = pos 0;
  sent = [];
}

x_is_not_ab : ◌≢◌ {A = List ℕ} (b'x' ∷ []) (b'a' ∷ b'b' ∷ [])
x_is_not_ab e = ground (arith, ap length e)

find-after_add_example :
    (n₁ n₂ : ComputingNode) × (from_parent no_process
        (text_message exec_add (pos 1) (pos 5) (b'a' ∷ b'b' ∷ []))
        first_node
      ≡ some n₁)
    × (from_parent no_process (text_message exec_find (pos 1) (negsuc 0) (b'a' ∷ b'b' ∷ [])) n₁
        ≡ some n₂)
    × (n₂.sent
        ≡ []
          ++ (parent, text_message exec_add (pos 1) (pos 5) (b'a' ∷ b'b' ∷ []))
            ∷ (parent, text_message exec_find (pos 1) (pos 5) (b'a' ∷ b'b' ∷ []))
            ∷ [])
    × (find_word (b'x' ∷ []) n₂.dictionary ≡ find_word (b'x' ∷ []) first_node.dictionary)
find-after_add_example =
    find-after_add no_process first_node (b'a' ∷ b'b' ∷ []) (b'x' ∷ []) (pos 5) (negsuc 0)
      (omega arith) x_is_not_ab

two_is_not_one : pos 2 ≢ pos 1
two_is_not_one e = absurd (omega (arith, ap pos_part e))
