-- ===== src/Events/Arrivals.antt =====
-- What becomes of the event that a device has joined the mesh: from `event_loop_cb` over MeshQueue to the
-- ping of the root.
use esp32_mesh.Common.{
  ℕ, ◌≤◌, ◌≡◌, refl, sym, false, List, [], ◌∷◌, ◌++◌, some, arith, length, ◌==◌,
}
use mathlib.Core.Path.{subst}
use esp32_mesh.Common.Memory.{Store, read}
use esp32_mesh.Effect.{mesh_write}
use esp32_mesh.DevList.{NodeInfo}
use esp32_mesh.DevList.Laws.{HasMacs}
use esp32_mesh.Root.Restart.{broadcast}
use esp32_mesh.Root.Ping.{root_send_ping}
use esp32_mesh.Root.Ping.Laws.{InRows, root_send_ping_lem}
use esp32_mesh.Events.{EventState, Seen, Event, event_loop_cb, event_loop, routing_table_add}
use esp32_mesh.Events.Queues.{
  AllOf, first_of, IsWaiting, send_to-AllOf, send_to-IsWaiting, IsSent, event_loop-Reaches,
}

-- MeshQueue has only arrivals; and one of them is waiting.
abbrev arrivals-IsSent : IsSent (λ m t. AllOf 1 m)
arrivals-IsSent = record { add = λ m t h. send_to-AllOf 1 m h; remove = λ m t h. h }

abbrev arrival_waits-IsSent : IsSent (λ m t. IsWaiting 1 m)
arrival_waits-IsSent = record { add = λ m t h. send_to-IsWaiting 1 m h.0; remove = λ m t h. h }

arrival_waits :
    (s : EventState) (before after : List (Seen × Event)) (seen : Seen)
    → AllOf 1 s.mesh_queue
    → IsWaiting 1 (event_loop s (before ++ (seen, routing_table_add) ∷ after)).1.mesh_queue
arrival_waits =
    event_loop-Reaches (λ m t. AllOf 1 m) (λ m t. IsWaiting 1 m) arrivals-IsSent
      arrival_waits-IsSent routing_table_add
      (λ seen s h. unfold event_loop_cb in send_to-IsWaiting 1 s.mesh_queue h)

-- A device that joins the mesh is pinged at once: after the event, among whatever others and even where
-- MeshQueue is full, with only arrivals there at first, a root that is not alone and has an address of
-- 6 bytes, as have its nodes, at most 235 of them, sends a ping to all when it next takes a message
-- from MeshQueue, however short a time ago it sent its last; the ping says that a device has joined,
-- and has the addresses of the root and, within the 1430 bytes that are sent, of its nodes.
pub arrival_pinged :
    (s : EventState) (before after : List (Seen × Event)) (seen : Seen)
    → (total now junk : ℕ) (self_mac : List ℕ) (ns : List NodeInfo) (last : ℕ) (m : Store)
    → AllOf 1 s.mesh_queue
    → (total == 1) ≡ false
    → length self_mac ≡ 6
    → HasMacs ns
    → length ns ≤ 235
    → let queue = (event_loop s (before ++ (seen, routing_table_add) ∷ after)).1.mesh_queue in
      let o = root_send_ping total now junk (first_of queue) self_mac ns last m in
      (o.effects ≡ mesh_write (some broadcast) o.msg 1430 ∷ [])
      × (o.msg 8 ≡ 1)
      × (read o.msg 9 6 ≡ self_mac)
      × InRows ns 0 o.msg
arrival_pinged s before after seen total now junk self_mac ns last m h many six macs few =
    let first = (arrival_waits s before after seen h).1 in
    let told =
      root_send_ping_lem total now junk (some 1) self_mac ns last m many refl six (omega arith) macs
        few in
    subst
      (λ q.
        let o = root_send_ping total now junk q self_mac ns last m in
        (o.effects ≡ mesh_write (some broadcast) o.msg 1430 ∷ [])
        × (o.msg 8 ≡ 1)
        × (read o.msg 9 6 ≡ self_mac)
        × InRows ns 0 o.msg)
      (sym first) (told.0, told.4, told.5, told.7)
