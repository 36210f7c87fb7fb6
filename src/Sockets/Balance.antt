-- ===== src/Sockets/Balance.antt =====
-- Every socket and context of Labs/Lab5/src that is opened has one owner, who closes it once.
use mai_os_labs.Prelude.{
  ℕ, zero, suc, ◌+◌, ◌<◌, ◌≡◌, ◌≢◌, refl, ap, Bool, true, false, List, [], ◌∷◌, none, length,
  get_or, set, ◌==◌, arith, Bool-cases, inl, inr, length-set,
}
use mai_os_labs.Prelude.Int.{ℤ}
use mai_os_labs.Sockets.{
  Kind, context, socket, Call, opened, Node, Zmq, empty_node, destroy, moved_from, move_node,
  assign_node, create_node, create_process, World, node_at, assigned, MakesSockets, Step, creates,
  forks, moves, assigns, destroys, Steps, here, then, no_nodes,
}
use mai_os_labs.Sockets.Making.{
  one_if, times_opened, times_closed, pointer, owners, IsBalanced, destroy_lem, owners-append,
  owners-set, keep-IsBalanced, create_node-Adds, create_process-Adds,
}

moved_from-owned :
    (kind : Kind) (p : ℕ) (n : Node) → p ≢ 0 → one_if (pointer kind (moved_from n) == p) ≡ 0
moved_from-owned context p n ne = ground arith
moved_from-owned socket p n ne = ground arith

get_or-set_ne :
    (nodes : List Node) (i j : ℕ) (n : Node)
    → i ≢ j
    → get_or (set nodes i n) j empty_node ≡ get_or nodes j empty_node
get_or-set_ne [] i j n ne = refl
get_or-set_ne (x ∷ nodes) zero zero n ne = absurd (ne refl)
get_or-set_ne (x ∷ nodes) zero (suc j) n ne = refl
get_or-set_ne (x ∷ nodes) (suc i) zero n ne = refl
get_or-set_ne (x ∷ nodes) (suc i) (suc j) n ne = get_or-set_ne nodes i j n (λ e. ne (ap suc e))

set_same : (nodes : List Node) (i : ℕ) → set nodes i (get_or nodes i empty_node) ≡ nodes
set_same [] i = refl
set_same (x ∷ nodes) zero = refl
set_same (x ∷ nodes) (suc i) = ap (◌∷◌ x) (set_same nodes i)

assigned-IsBalanced :
    (w : World) (i j : ℕ)
    → i < length w.nodes
    → j < length w.nodes
    → IsBalanced w
    → IsBalanced (assigned i j w)
unfolding assign_node
assigned-IsBalanced w i j hi hj b kind p ne = elim (Bool-cases (i == j)) [
  | inl same ↦
      let here : i ≡ j = ground arith in
      rw (assign_node, same, set_same w.nodes i, set_same w.nodes j) (b kind p ne)
  | inr differ ↦
      let this = node_at i w in
      let other = node_at j w in
      let apart : i ≢ j = ground arith in
      let (o, c) = destroy_lem kind p this w.log ne in
      let first = owners-set kind p i w.nodes other hi in
      let second =
        owners-set kind p j (set w.nodes i other) (moved_from other)
          (omega (arith, length-set w.nodes i other)) in
      rw (assign_node, differ)
        (omega (
          arith,
          o,
          c,
          b kind p ne,
          first,
          rw (get_or-set_ne w.nodes i j other apart) at second,
          moved_from-owned kind p other ne,
        ))
]

Step-IsBalanced :
    {zmq : Zmq} {v w : World} → MakesSockets zmq → Step zmq v w → IsBalanced v → IsBalanced w
unfolding move_node
Step-IsBalanced {zmq = z} makes (creates w id pid is_child) b =
    keep-IsBalanced (create_node z id pid is_child w.log) w
      (create_node-Adds z id pid is_child w.log makes) b
Step-IsBalanced {zmq = z} makes (forks w id self pid) b =
    keep-IsBalanced (create_process z id self pid w.log) w
      (create_process-Adds z id self pid w.log makes) b
Step-IsBalanced makes (moves w i h) b = λ kind p ne. omega (
  arith,
  b kind p ne,
  owners-set kind p i w.nodes (moved_from (node_at i w)) h,
  moved_from-owned kind p (node_at i w) ne,
)
Step-IsBalanced makes (assigns w i j hi hj) b = assigned-IsBalanced w i j hi hj b
Step-IsBalanced makes (destroys w xs ys n e) b = λ kind p ne.
    let (o, c) = destroy_lem kind p n w.log ne in
    omega (
      arith,
      o,
      c,
      b kind p ne,
      ap (owners kind p) e,
      owners-append kind p xs (n ∷ ys),
      owners-append kind p xs ys,
    )

Steps-IsBalanced :
    {zmq : Zmq} {v w : World} → MakesSockets zmq → Steps zmq v w → IsBalanced v → IsBalanced w
Steps-IsBalanced makes (here w) b = b
Steps-IsBalanced makes (then steps step) b =
    Step-IsBalanced makes step (Steps-IsBalanced makes steps b)

-- Where `zmq_socket` never fails, but contexts, connections and `fork` may, whatever nodes are made,
-- moved, assigned, to themselves too, and destroyed: each socket and each context has been opened as often
-- as it has been closed and as there are nodes that own it.
pub Steps-balance :
    {zmq : Zmq} {w : World}
    → MakesSockets zmq
    → Steps zmq no_nodes w
    → (kind : Kind) (p : ℕ) → p ≢ 0
    → times_opened kind p w.log ≡ times_closed kind p w.log + owners kind p w.nodes
Steps-balance makes steps = Steps-IsBalanced makes steps (λ kind p ne. refl)

-- Where `zmq_ctx_new` gives a context and `zmq_socket` fails, `create_node` throws, and has closed the
-- context that it opened once twice.
pub create_node-closes_twice :
    (zmq : Zmq) (id pid : ℤ) (is_child : Bool) (log : List Call) (c : ℕ)
    → zmq.ctx_new log ≡ c
    → c ≢ 0
    → zmq.new_socket c (opened context c ∷ log) ≡ 0
    → (let (node, after) = create_node zmq id pid is_child log in
        (node ≡ none)
        × (times_opened context c after ≡ 1 + times_opened context c log)
        × (times_closed context c after ≡ 2 + times_closed context c log))
unfolding create_node destroy
create_node-closes_twice zmq id pid is_child log c e ne fails =
    let some_context : (c == 0) ≡ false = ground arith in
    let itself : (c == c) ≡ true = ground arith in
    rw (create_node, e, fails, some_context, itself) (refl, omega arith, omega arith)
