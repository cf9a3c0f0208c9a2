-- ===== src/Events/Tests.antt =====
-- The theorems on events, on a root that loses its address and gets one again, and on a node.
use esp32_mesh.Common.{
  ◌+◌, ◌≤◌, ◌≡◌, refl, true, false, List, [], ◌∷◌, some, none, arith, ◌++◌, if◌then◌else◌,
}
use esp32_mesh.Events.{
  Event, EventState, Seen, event_loop, root_got_ip, routing_table_add, routing_table_remove,
}
use esp32_mesh.DevList.Laws.{version_of}
use esp32_mesh.Root.TestData.{
  quiet_round, mac_root, mac_a, mac_b, two, two-IsUnique, state, message,
}
use esp32_mesh.Root.Offline.Table.{is_in}
use esp32_mesh.Root.MeshTask.{MeshTask, offline_phase}
use esp32_mesh.Root.MeshTask.Reading.{waiting}
use esp32_mesh.Events.Queues.{first_of}
use esp32_mesh.Events.Departures.{departure_handled}
use esp32_mesh.Events.Arrivals.{arrival_pinged}
use esp32_mesh.Common.Memory.{read}
use esp32_mesh.Effect.{mesh_write}
use esp32_mesh.Root.Restart.{broadcast}
use esp32_mesh.Root.Ping.{root_send_ping}
use esp32_mesh.Root.Ping.Laws.{InRows}
use esp32_mesh.Events.Laws.{tcp_starts, mesh_starts, tcp_ends, mesh_ends, one_if, event_loop-starts}

abbrev start_state : EventState
start_state = record {
  tcp_task = false;
  mesh_task = false;
  mesh_queue = some [];
  tcp_queue = some [];
}

abbrev as_root : Seen
as_root = record {
  is_root = true;
  node_running = false;
  creates = λ t. true;
  tcp_ended = false;
  mesh_ended = false;
}

abbrev as_node : Seen
as_node = record {
  is_root = false;
  node_running = false;
  creates = λ t. true;
  tcp_ended = false;
  mesh_ended = false;
}

-- The reader of the socket ends before the root gets its address for the second time.
abbrev twice : List (Seen × Event)
twice =
    (as_root, root_got_ip)
    ∷ (as_root, routing_table_add)
    ∷ (record as_root { tcp_ended = true }, root_got_ip)
    ∷ []

event_loop-starts_example :
    let r = event_loop start_state twice in
    (tcp_starts r.0 + 0 ≤ one_if r.1.tcp_task + tcp_ends twice)
    × (mesh_starts r.0 + 0 ≤ one_if r.1.mesh_task + mesh_ends twice)
event_loop-starts_example = event_loop-starts start_state twice

-- A node leaves while tcpQueue is full of earlier departures.
abbrev full : EventState
full = record start_state { tcp_queue = some (2 ∷ 2 ∷ 2 ∷ []) }

abbrev loop : MeshTask
loop = waiting (message []) 0 false (state (message [])) 0

departure_handled_example :
    let queue =
      (event_loop full (
        ((as_root, routing_table_add) ∷ [])
        ++ (as_root, routing_table_remove) ∷ (as_root, root_got_ip) ∷ [])).1.tcp_queue in
    let t' =
      (offline_phase
        (record quiet_round { tcp_queue = first_of queue; table = some (mac_a ∷ []) })
        loop).1 in
    version_of t'.root.nodes mac_b
    ≡ (if is_in (mac_a ∷ []) mac_b then version_of two mac_b else none)
departure_handled_example =
    departure_handled full ((as_root, routing_table_add) ∷ []) ((as_root, root_got_ip) ∷ []) as_root
      quiet_round loop (mac_a ∷ []) (refl, (refl, (refl, tt))) (refl, tt) (refl, (refl, tt))
      two-IsUnique refl (omega arith) mac_b

-- A node joins just after the last ping.
arrival_pinged_example :
    let queue =
      (event_loop start_state
        (((as_root, root_got_ip) ∷ []) ++ (as_root, routing_table_add) ∷ [])).1.mesh_queue in
    let o = root_send_ping 3 90000 0 (first_of queue) mac_root two 89999 (message []) in
    (o.effects ≡ mesh_write (some broadcast) o.msg 1430 ∷ [])
    × (o.msg 8 ≡ 1)
    × (read o.msg 9 6 ≡ mac_root)
    × InRows two 0 o.msg
arrival_pinged_example =
    arrival_pinged start_state ((as_root, root_got_ip) ∷ []) [] as_root 3 90000 0 mac_root two 89999
      (message []) tt refl refl (refl, (refl, tt)) (omega arith)
