-- ===== src/Sockets/Making.antt =====
-- What is opened and closed when a node of Labs/Lab5/src is made or destroyed.
use mai_os_labs.Prelude.{
  ℕ, zero, suc, ◌+◌, ◌<◌, ◌≡◌, ◌≢◌, refl, Bool, true, false, List, [], ◌∷◌, ◌++◌, ◌&&◌, Option,
  none, some, length, get_or, set, ◌==◌, arith, Bool-cases, inl, inr,
}
use mai_os_labs.Prelude.Int.{ℤ, pos, ◌+ℤ◌}
use mai_os_labs.Sockets.{
  Kind, context, socket, Call, opened, closed, Node, Zmq, empty_node, destroy, create_node,
  create_process, World, keep, MakesSockets,
}

abbrev same_kind : Kind → Kind → Bool
same_kind context context = true
same_kind context socket = false
same_kind socket context = false
same_kind socket socket = true

abbrev pub one_if : Bool → ℕ
one_if true = 1
one_if false = 0

-- How often `p` was opened, and how often it was closed.
abbrev pub times_opened : Kind → ℕ → List Call → ℕ
times_opened kind p [] = 0
times_opened kind p (opened k q ∷ log) =
    one_if (same_kind kind k && q == p) + times_opened kind p log
times_opened kind p (closed k q ∷ log) = times_opened kind p log

abbrev pub times_closed : Kind → ℕ → List Call → ℕ
times_closed kind p [] = 0
times_closed kind p (opened k q ∷ log) = times_closed kind p log
times_closed kind p (closed k q ∷ log) =
    one_if (same_kind kind k && q == p) + times_closed kind p log

abbrev pub pointer : Kind → Node → ℕ
pointer context n = n.context_ptr
pointer socket n = n.socket_ptr

-- How many of the nodes have the pointer `p`.
abbrev pub owners : Kind → ℕ → List Node → ℕ
owners kind p [] = 0
owners kind p (n ∷ nodes) = one_if (pointer kind n == p) + owners kind p nodes

-- What was opened and not closed is what the nodes own.
abbrev pub IsBalanced : World → Type 0
IsBalanced w =
    (kind : Kind) (p : ℕ)
    → p ≢ 0
    → times_opened kind p w.log ≡ times_closed kind p w.log + owners kind p w.nodes

pub destroy_lem :
    (kind : Kind) (p : ℕ) (n : Node) (log : List Call)
    → p ≢ 0
    → (times_opened kind p (destroy n log) ≡ times_opened kind p log)
      × (times_closed kind p (destroy n log)
          ≡ times_closed kind p log + one_if (pointer kind n == p))
unfolding destroy
destroy_lem context p n log ne = (ground arith, ground arith)
destroy_lem socket p n log ne = (ground arith, ground arith)

pub owners-append :
    (kind : Kind) (p : ℕ) (xs ys : List Node)
    → owners kind p (xs ++ ys) ≡ owners kind p xs + owners kind p ys
owners-append kind p [] ys = omega arith
owners-append kind p (x ∷ xs) ys = omega (arith, owners-append kind p xs ys)

pub owners-set :
    (kind : Kind) (p i : ℕ) (nodes : List Node) (n : Node)
    → i < length nodes
    → owners kind p (set nodes i n) + one_if (pointer kind (get_or nodes i empty_node) == p)
      ≡ owners kind p nodes + one_if (pointer kind n == p)
owners-set kind p i [] n h = absurd (omega arith)
owners-set kind p zero (x ∷ nodes) n h = omega arith
owners-set kind p (suc i) (x ∷ nodes) n h = omega (arith, owners-set kind p i nodes n (omega arith))

abbrev owned : Kind → ℕ → Option Node → ℕ
owned kind p none = 0
owned kind p (some n) = one_if (pointer kind n == p)

-- A result of making a node, and the calls before it: what was opened is closed again or the node's.
abbrev Adds : List Call → Option Node × List Call → Type 0
Adds log (node, after) =
    (kind : Kind) (p : ℕ)
    → p ≢ 0
    → times_opened kind p after + times_closed kind p log
      ≡ times_closed kind p after + times_opened kind p log + owned kind p node

pub keep-IsBalanced :
    (r : Option Node × List Call) (w : World)
    → Adds w.log r
    → IsBalanced w
    → IsBalanced (keep r w.nodes)
keep-IsBalanced (none, log) w a b kind p ne = omega (arith, a kind p ne, b kind p ne)
keep-IsBalanced (some n, log) w a b kind p ne = omega (arith, a kind p ne, b kind p ne)

pub create_node-Adds :
    (zmq : Zmq) (id pid : ℤ) (is_child : Bool) (log : List Call)
    → MakesSockets zmq
    → Adds log (create_node zmq id pid is_child log)
unfolding create_node
create_node-Adds zmq id pid is_child log makes kind p ne =
    let ctx = zmq.ctx_new log in
    let log₁ = opened context ctx ∷ log in
    let sock = zmq.new_socket ctx log₁ in
    let log₂ = opened socket sock ∷ log₁ in
    let port = pos 5555 +ℤ id in
    let node : Node = record {
      id = id;
      pid = pid;
      context_ptr = ctx;
      socket_ptr = sock;
      address = some port;
    } in
    elim (Bool-cases (ctx == 0)) [
      | inl no_context ↦
          rw (create_node, no_context)
            (let (o, c) =
                destroy_lem kind p (record empty_node { id = id; pid = pid; context_ptr = ctx }) log
                  ne in
              elim kind [ context ↦ ground (arith, o, c) | socket ↦ ground (arith, o, c) ])
      | inr has_context ↦ elim (Bool-cases (sock == 0)) [
        | inl no_socket ↦ absurd (makes log₁ ctx (ground arith))
        | inr has_socket ↦ elim (Bool-cases (zmq.ready sock port is_child log₂)) [
          | inl ready ↦
              rw (create_node, has_context, has_socket, ready)
                (elim kind [ context ↦ ground arith | socket ↦ ground arith ])
          | inr refused ↦
              rw (create_node, has_context, has_socket, refused)
                (let (o, c) = destroy_lem kind p node log₂ ne in
                  elim kind [ context ↦ ground (arith, o, c) | socket ↦ ground (arith, o, c) ])
        ]
      ]
    ]

pid_not_owned :
    (kind : Kind) (p : ℕ) (n : Node) (pid : ℤ)
    → owned kind p (some (record n { pid = pid })) ≡ owned kind p (some n)
pid_not_owned context p n pid = refl
pid_not_owned socket p n pid = refl

pub create_process-Adds :
    (zmq : Zmq) (id self : ℤ) (pid : Option ℤ) (log : List Call)
    → MakesSockets zmq
    → Adds log (create_process zmq id self pid log)
unfolding create_process
create_process-Adds zmq id self none log makes kind p ne = omega arith
create_process-Adds zmq id self (some pid) log makes kind p ne = omega (
  arith,
  create_node-Adds zmq id self false log makes kind p ne,
  same_owner (create_node zmq id self false log).0,
)
  where
    same_owner :
        (r : Option Node)
        → owned kind p (elim r [ none ↦ none | some n ↦ some (record n { pid = pid }) ])
          ≡ owned kind p r
    same_owner none = refl
    same_owner (some n) = pid_not_owned kind p n pid
