-- ===== src/Events/Laws.antt =====
-- How often a task is started, and how full the queues are.
use esp32_mesh.Common.{
  ℕ, ◌+◌, ◌≤◌, ◌≡◌, Bool, false, List, [], ◌∷◌, ◌++◌, Option, none, some, arith, length,
  length-append, ltb, if◌then◌else◌, Bool-cases, inl, inr, ltb→lt,
}
use esp32_mesh.Common.Runs.{if-Holds}
use esp32_mesh.Events.{
  Event, Task, EventState, Seen, Reaction, cleared, send_to, event_loop_cb, event_loop,
  parent_connected, node_task, tcp_client_read_task, root_mesh_read_task, started,
  parent_disconnected, routing_table_add, routing_table_remove, root_got_ip, mupgrade_started,
  other, mupgrade_status,
}

-- How many tasks of the list are the reader of the socket, and the reader of the mesh.
abbrev pub tcp_starts : List Task → ℕ
tcp_starts [] = 0
tcp_starts (node_task ∷ ts) = tcp_starts ts
tcp_starts (tcp_client_read_task ∷ ts) = 1 + tcp_starts ts
tcp_starts (root_mesh_read_task ∷ ts) = tcp_starts ts

abbrev pub mesh_starts : List Task → ℕ
mesh_starts [] = 0
mesh_starts (node_task ∷ ts) = mesh_starts ts
mesh_starts (tcp_client_read_task ∷ ts) = mesh_starts ts
mesh_starts (root_mesh_read_task ∷ ts) = 1 + mesh_starts ts

abbrev pub one_if : Bool → ℕ
one_if b = if b then 1 else 0

tcp_starts-append : (xs ys : List Task) → tcp_starts (xs ++ ys) ≡ tcp_starts xs + tcp_starts ys
tcp_starts-append [] ys = omega arith
tcp_starts-append (node_task ∷ xs) ys = tcp_starts-append xs ys
tcp_starts-append (tcp_client_read_task ∷ xs) ys = omega (arith, tcp_starts-append xs ys)
tcp_starts-append (root_mesh_read_task ∷ xs) ys = tcp_starts-append xs ys

mesh_starts-append : (xs ys : List Task) → mesh_starts (xs ++ ys) ≡ mesh_starts xs + mesh_starts ys
mesh_starts-append [] ys = omega arith
mesh_starts-append (node_task ∷ xs) ys = mesh_starts-append xs ys
mesh_starts-append (tcp_client_read_task ∷ xs) ys = mesh_starts-append xs ys
mesh_starts-append (root_mesh_read_task ∷ xs) ys = omega (arith, mesh_starts-append xs ys)

-- An event starts a reader exactly where its handle is set by it.
event_loop_cb-starts :
    (seen : Seen) (s : EventState) (e : Event)
    → let r = event_loop_cb seen s e in
      (one_if s.tcp_task + tcp_starts r.tasks ≡ one_if r.state.tcp_task)
      × (one_if s.mesh_task + mesh_starts r.tasks ≡ one_if r.state.mesh_task)
unfolding event_loop_cb
event_loop_cb-starts seen s started = (ground arith, ground arith)
event_loop_cb-starts seen s parent_connected = (ground arith, ground arith)
event_loop_cb-starts seen s parent_disconnected = (ground arith, ground arith)
event_loop_cb-starts seen s routing_table_add = (ground arith, ground arith)
event_loop_cb-starts seen s routing_table_remove = (ground arith, ground arith)
event_loop_cb-starts seen s root_got_ip = (ground arith, ground arith)
event_loop_cb-starts seen s mupgrade_started = (ground arith, ground arith)
event_loop_cb-starts seen s (mupgrade_status p) = (ground arith, ground arith)
event_loop_cb-starts seen s other = (ground arith, ground arith)

-- How often the reader of the socket, and that of the mesh, come to their end.
abbrev pub tcp_ends : List (Seen × Event) → ℕ
tcp_ends [] = 0
tcp_ends (e ∷ es) = one_if e.0.tcp_ended + tcp_ends es

abbrev pub mesh_ends : List (Seen × Event) → ℕ
mesh_ends [] = 0
mesh_ends (e ∷ es) = one_if e.0.mesh_ended + mesh_ends es

cleared_ends :
    (ended set : Bool) → one_if set ≤ one_if (if ended then false else set) + one_if ended
cleared_ends ended set = ground arith

-- Each of the root's two readers runs at most once at a time: over any sequence of events, among which
-- the readers may come to their ends, each is started at most once more than it comes to its end, and
-- not even that if it was running before, or is not running behind them.
pub event_loop-starts :
    (s : EventState) (es : List (Seen × Event))
    → let r = event_loop s es in
      (tcp_starts r.0 + one_if s.tcp_task ≤ one_if r.1.tcp_task + tcp_ends es)
      × (mesh_starts r.0 + one_if s.mesh_task ≤ one_if r.1.mesh_task + mesh_ends es)
unfolding event_loop
event_loop-starts s [] = (omega arith, omega arith)
event_loop-starts s (e ∷ es) =
    let s1 = cleared e.0 s in
    let r = event_loop_cb e.0 s1 e.1 in
    let here = event_loop_cb-starts e.0 s1 e.1 in
    let later = event_loop-starts r.state es in
    (
      omega (
        arith,
        here.0,
        later.0,
        cleared_ends e.0.tcp_ended s.tcp_task,
        tcp_starts-append r.tasks (event_loop r.state es).0,
      ),
      omega (
        arith,
        here.1,
        later.1,
        cleared_ends e.0.mesh_ended s.mesh_task,
        mesh_starts-append r.tasks (event_loop r.state es).0,
      ),
    )

-- A device that is no root, and on which no task runs or ends.
abbrev pub leaf : (Task → Bool) → Seen
leaf creates = record {
  is_root = false;
  node_running = false;
  creates = creates;
  tcp_ended = false;
  mesh_ended = false;
}

-- A queue that is there has at most 3 messages.
abbrev pub AtMost3 : Option (List ℕ) → Type 0
AtMost3 none = Unit {0}
AtMost3 (some q) = length q ≤ 3

send_to-AtMost3 : (q : Option (List ℕ)) (cmd : ℕ) → AtMost3 q → AtMost3 (send_to q cmd)
send_to-AtMost3 none cmd h = tt
send_to-AtMost3 (some q) cmd h = elim (Bool-cases (ltb (length q) 3)) [
  | inl room ↦ rw room (omega (arith, length-append q (cmd ∷ []), ltb→lt (length q) 3 room))
  | inr full ↦ rw full h
]

abbrev pub Bounded : EventState → Type 0
Bounded s = AtMost3 s.mesh_queue × AtMost3 s.tcp_queue

event_loop_cb-Bounded :
    (seen : Seen) (s : EventState) (e : Event) → Bounded s → Bounded (event_loop_cb seen s e).state
unfolding event_loop_cb
event_loop_cb-Bounded seen s started h = h
event_loop_cb-Bounded seen s parent_connected h = h
event_loop_cb-Bounded seen s parent_disconnected h = h
event_loop_cb-Bounded seen s routing_table_add h = (send_to-AtMost3 s.mesh_queue 1 h.0, h.1)
event_loop_cb-Bounded seen s routing_table_remove h = (h.0, send_to-AtMost3 s.tcp_queue 2 h.1)
event_loop_cb-Bounded seen s root_got_ip h =
    if-Holds (λ (r : Reaction). Bounded r.state) seen.is_root h h
event_loop_cb-Bounded seen s mupgrade_started h = h
event_loop_cb-Bounded seen s (mupgrade_status p) h = h
event_loop_cb-Bounded seen s other h = h

-- Where the queues that are there have at most 3 messages, no sequence of events puts more on them.
pub event_loop-Bounded :
    (s : EventState) (es : List (Seen × Event)) → Bounded s → Bounded (event_loop s es).1
unfolding event_loop
event_loop-Bounded s [] h = h
event_loop-Bounded s (e ∷ es) h =
    event_loop-Bounded (event_loop_cb e.0 (cleared e.0 s) e.1).state es
      (event_loop_cb-Bounded e.0 (cleared e.0 s) e.1 h)
