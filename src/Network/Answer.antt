-- ===== src/Network/Answer.antt =====
-- The answer to a question of the controller for one node of the tree of Labs/Lab5/src/nodes.cpp.
use mai_os_labs.Prelude.{
  ℕ, subst, ◌≡◌, ◌∙◌, refl, sym, ap, Bool-cases, true, false, List, [], ◌∷◌, ◌++◌, map, Option,
  some, arith, inl, inr, ◌⊎◌,
}
use mai_os_labs.Prelude.Int.{ℤ}
use mai_os_labs.Nodes.{ComputingNode, Child, child, same_int, find_answer}
use mai_os_labs.Nodes.Answers.{same_int_refl, same_int_sound}
use mai_os_labs.Controller.{has_id}
use mai_os_labs.Controller.Known.{AllIn, NoRepeat, ids_of, has_id-append}
use mai_os_labs.Network.{Tree, branch, Forest, no_trees, more, deliver_forest}
use mai_os_labs.Network.Routing.{roots, AreLinked, question, reached, reached_in, asked_forest}

abbrev mutual
  pub all_ids : Tree → List ℤ
  all_ids (branch n f) = n.id ∷ ids_in f

  pub ids_in : Forest → List ℤ
  ids_in no_trees = []
  ids_in (more t f) = all_ids t ++ ids_in f

abbrev mutual
  pub Has : ComputingNode → Tree → Type 0
  Has n (branch k f) = (n ≡ k) ⊎ HasIn n f

  pub HasIn : ComputingNode → Forest → Type 0
  HasIn n no_trees = ⊥
  HasIn n (more t f) = Has n t ⊎ HasIn n f

left_part-NoRepeat : (xs ys : List ℤ) → NoRepeat (xs ++ ys) → NoRepeat xs
left_part-NoRepeat [] ys n = tt
left_part-NoRepeat (x ∷ xs) ys (h, n) =
    (ground (arith, has_id-append x xs ys), left_part-NoRepeat xs ys n)

right_part-NoRepeat : (xs ys : List ℤ) → NoRepeat (xs ++ ys) → NoRepeat ys
right_part-NoRepeat [] ys n = n
right_part-NoRepeat (x ∷ xs) ys (h, n) = right_part-NoRepeat xs ys n

module _ (id : ℤ) where
  only_left : (xs ys : List ℤ) → NoRepeat (xs ++ ys) → has_id id xs ≡ true → has_id id ys ≡ false
  unfolding has_id
  only_left [] ys n h = absurd (ground arith)
  only_left (x ∷ xs) ys (new, n) h = elim (Bool-cases (same_int id x)) [
    | inl same ↦
        let absent : has_id id (xs ++ ys) ≡ false =
          subst (λ k. has_id k (xs ++ ys) ≡ false) (sym (same_int_sound id x same)) new in
        ground (arith, has_id-append id xs ys)
    | inr other ↦ only_left xs ys n (rw other at h)
  ]

  only_right : (xs ys : List ℤ) → NoRepeat (xs ++ ys) → has_id id ys ≡ true → has_id id xs ≡ false
  only_right xs ys n h = elim (Bool-cases (has_id id xs)) [
    | inl here ↦ absurd (ground (arith, only_left xs ys n here))
    | inr absent ↦ absent
  ]

  module _ (key : List ℕ) where
    mutual
      unfolding has_id

      unasked : (t : Tree) → has_id id (all_ids t) ≡ false → reached (question id key) t ≡ []
      unasked (branch n f) h = elim (Bool-cases (same_int id n.id)) [
        | inl hit ↦ absurd (ground arith)
        | inr miss ↦ rw miss (unasked_in f (ground arith))
      ]

      unasked_in : (f : Forest) → has_id id (ids_in f) ≡ false → reached_in (question id key) f ≡ []
      unasked_in no_trees h = refl
      unasked_in (more t f) h =
          let split = has_id-append id (all_ids t) (ids_in f) in
          rw (unasked t (ground arith)) (unasked_in f (ground arith))

mutual
  unfolding has_id

  Has-all_ids : (n : ComputingNode) (t : Tree) → Has n t → has_id n.id (all_ids t) ≡ true
  Has-all_ids n (branch k f) (inl e) = rw (e, same_int_refl k.id)
  Has-all_ids n (branch k f) (inr h) = let below = HasIn-ids_in n f h in ground arith

  HasIn-ids_in : (n : ComputingNode) (f : Forest) → HasIn n f → has_id n.id (ids_in f) ≡ true
  HasIn-ids_in n no_trees h = absurd h
  HasIn-ids_in n (more t f) (inl h) =
      ground (arith, Has-all_ids n t h, has_id-append n.id (all_ids t) (ids_in f))
  HasIn-ids_in n (more t f) (inr h) =
      ground (arith, HasIn-ids_in n f h, has_id-append n.id (all_ids t) (ids_in f))

module _ (n : ComputingNode) (key : List ℕ) where
  mutual
    unfolding has_id

    reached-one :
        (t : Tree)
        → NoRepeat (all_ids t)
        → Has n t
        → reached (question n.id key) t ≡ find_answer (question n.id key) n ∷ []
    reached-one (branch k f) (new, rest) (inl e) = rw (e, same_int_refl k.id) refl
    reached-one (branch k f) (new, rest) (inr h) = elim (Bool-cases (same_int n.id k.id)) [
      | inl hit ↦
          let below = HasIn-ids_in n f h in
          let absent : has_id n.id (ids_in f) ≡ false =
            subst (λ x. has_id x (ids_in f) ≡ false) (sym (same_int_sound n.id k.id hit)) new in
          absurd (ground arith)
      | inr miss ↦ rw miss (reached_in-one f rest h)
    ]

    reached_in-one :
        (f : Forest)
        → NoRepeat (ids_in f)
        → HasIn n f
        → reached_in (question n.id key) f ≡ find_answer (question n.id key) n ∷ []
    reached_in-one no_trees d h = absurd h
    reached_in-one (more t f) d (inl h) = rw (
      reached-one t (left_part-NoRepeat (all_ids t) (ids_in f) d) h,
      unasked_in n.id key f (only_left n.id (all_ids t) (ids_in f) d (Has-all_ids n t h)),
    )
    reached_in-one (more t f) d (inr h) =
        rw (unasked n.id key t (only_right n.id (all_ids t) (ids_in f) d (HasIn-ids_in n f h)))
          (reached_in-one f (right_part-NoRepeat (all_ids t) (ids_in f) d) h)

-- A question for a word, sent to the children of a node, each of them the root of one tree and no
-- identifier twice in the trees, brings back exactly one message: the answer of the node that it is for,
-- wherever in the trees that node is.
pub question-one_answer :
    (create_process : ℤ → Option ℤ) (n : ComputingNode) (key : List ℕ) (cs : List Child)
    (f : Forest)
    → NoRepeat (ids_of cs)
    → AllIn (ids_of cs) (roots f)
    → AreLinked f
    → NoRepeat (ids_in f)
    → HasIn n f
    → (f' : Forest) × (deliver_forest create_process
          (map (λ (c : Child). (child c.id, question n.id key)) cs)
          f
        ≡ some (f', find_answer (question n.id key) n ∷ []))
question-one_answer create_process n key cs f distinct all linked unique within =
    let (f', e) = asked_forest create_process n.id key cs f distinct all linked in
    (f', e ∙ ap (λ ms. some (f', ms)) (reached_in-one n key f unique within))
