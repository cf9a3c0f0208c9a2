-- ===== src/Events/Departures.antt =====
-- What becomes of the event that a device has left the mesh: from `event_loop_cb` over tcpQueue to the
-- device list of the root.
use esp32_mesh.Common.{◌≤◌, ◌≡◌, ap, ◌∙◌, List, ◌∷◌, ◌++◌, none, some, length, if◌then◌else◌}
use esp32_mesh.DevList.{Mac}
use esp32_mesh.DevList.Laws.{version_of, IsUnique, HasMacs}
use esp32_mesh.Root.MeshTask.{MeshTask, MeshSeen, at_buffer, offline_phase}
use esp32_mesh.Root.Offline.Table.{AllMac, is_in}
use esp32_mesh.Root.Offline.Steps.{gone}
use esp32_mesh.Root.Offline.Laws.{root_do_child_offline_lem}
use esp32_mesh.Events.{EventState, Seen, Event, event_loop_cb, event_loop, routing_table_remove}
use esp32_mesh.Events.Queues.{
  AllOf, first_of, IsWaiting, send_to-AllOf, send_to-IsWaiting, IsSent, event_loop-Reaches,
}

-- tcpQueue has only removals; and one of them is waiting.
abbrev removals-IsSent : IsSent (λ m t. AllOf 2 t)
removals-IsSent = record { add = λ m t h. h; remove = λ m t h. send_to-AllOf 2 t h }

abbrev removal_waits-IsSent : IsSent (λ m t. IsWaiting 2 t)
removal_waits-IsSent = record { add = λ m t h. h; remove = λ m t h. send_to-IsWaiting 2 t h.0 }

removal_waits :
    (s : EventState) (before after : List (Seen × Event)) (seen : Seen)
    → AllOf 2 s.tcp_queue
    → IsWaiting 2 (event_loop s (before ++ (seen, routing_table_remove) ∷ after)).1.tcp_queue
removal_waits =
    event_loop-Reaches (λ m t. AllOf 2 t) (λ m t. IsWaiting 2 t) removals-IsSent
      removal_waits-IsSent routing_table_remove
      (λ seen s h. unfold event_loop_cb in send_to-IsWaiting 2 s.tcp_queue h)

-- A device that leaves the mesh is not forgotten, even where tcpQueue is full: once the event has come,
-- among whatever other events, and the loop over the mesh then takes its message from tcpQueue, with
-- only removals there at first, exactly the devices that the routing table does not have are taken off
-- the list, where the mesh gives the table, at most 20 devices of the list are not in it, every
-- address has 6 bytes and none is in the list twice.
pub departure_handled :
    (s : EventState) (before after : List (Seen × Event)) (seen : Seen) (mesh : MeshSeen)
    → (t : MeshTask) (table : List Mac) → AllOf 2 s.tcp_queue
    → AllMac table
    → HasMacs t.root.nodes
    → IsUnique t.root.nodes
    → length t.root.self_mac ≡ 6
    → length (gone table t.root.nodes) ≤ 20
    → let queue = (event_loop s (before ++ (seen, routing_table_remove) ∷ after)).1.tcp_queue in
      let t' =
        (offline_phase (record mesh { tcp_queue = first_of queue; table = some table }) t).1 in
      (b : Mac)
      → version_of t'.root.nodes b ≡ (if is_in table b then version_of t.root.nodes b else none)
unfolding offline_phase
departure_handled s before after seen mesh t table h macs named unique six few b =
    let pending = removal_waits s before after seen h in
    ap
      (λ o.
        version_of
          (offline_phase (record mesh { tcp_queue = o; table = some table }) t).1.root.nodes b)
      pending.1
    ∙ (root_do_child_offline_lem table (at_buffer t) macs named unique six few).0 b
