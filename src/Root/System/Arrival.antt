-- ===== src/Root/System/Arrival.antt =====
-- A command of the server for a node, from the socket to the mesh, while the two loops of the root run in
-- any order.
use esp32_mesh.Common.{
  ℕ, ◌<◌, ◌≡◌, refl, ap, ◌∙◌, true, false, List, [], ◌∷◌, ◌++◌, none, some, length, bytes_eq,
  if◌then◌else◌,
}
use esp32_mesh.Common.Memory.{Store}
use esp32_mesh.Effect.{mesh_write}
use esp32_mesh.DevList.{check_node_is_exist}
use esp32_mesh.Root.MeshTask.{MeshTask, MeshSeen, ServerMsg}
use esp32_mesh.Root.Socket.{stream, socket_round}
use esp32_mesh.Root.Socket.Commands.{between, header_of, queued_for, socket_round-IsCommand}
use esp32_mesh.Root.Relay.{IsPassedOn, packet_for-IsPassedOn}
use esp32_mesh.Root.System.{MeshAt, at_server, System, sees, socket_step, mesh_step}
use esp32_mesh.Root.System.Delivery.{packet_of, server_at-dest}
use esp32_mesh.Root.System.InOrder.{Looks, looks_in_order}

-- The system while the reader waits for a command, with these in the queue.
abbrev pub reading :
    MeshTask → Store → (empty_reads : ℕ) → Store → List ServerMsg → Store → MeshAt → System
reading mesh buffer k local qs sqmsg at = record {
  mesh = mesh;
  socket = between buffer k local qs;
  sqmsg = sqmsg;
  at = at;
}

-- A command for a node of the list, which the reader gets in one piece while the socket is open, no
-- update is under way and the queue has room, is sent to its node: in whatever order the two loops go on,
-- once the loop over the mesh has looked at the queue as often as there were commands before it, at its
-- next look it makes one call, which writes to that node a message with a header of 0xff and the
-- command's bytes up to the 94th; the last 7 are what the loop's copy held.
pub command_arrives :
    (mesh : MeshTask) (buffer local sqmsg : Store) (k : ℕ) (qs : List ServerMsg) (at : MeshAt)
    → (cmd later : List ℕ) (u : System) (seen : MeshSeen) → mesh.root.sock_open ≡ true
    → mesh.root.device_ota ≡ false
    → length cmd ≡ 101
    → length qs < 3
    → bytes_eq mesh.root.self_mac (header_of cmd) ≡ false
    → check_node_is_exist mesh.root.nodes (header_of cmd) ≡ true
    → Looks
        (socket_step (stream (cmd ++ later)) (reading mesh buffer k local qs sqmsg at)).1
        (length qs)
        u
    → u.at ≡ at_server
    → (packet : Store) × ((w : System) × ((mesh_step seen u
            ≡ some (mesh_write (some (header_of cmd)) packet 1430 ∷ [], w))
          × IsPassedOn cmd u.sqmsg packet))
command_arrives mesh buffer local sqmsg k qs at cmd later u seen opened idle whole room other known
      r turn =
    let s = reading mesh buffer k local qs sqmsg at in
    let found = sees s (stream (cmd ++ later)) in
    let header = header_of cmd in
    let (c, (queue, is, _, _, _)) =
      socket_round-IsCommand found buffer local k qs cmd later idle refl whole room in
    let item : ServerMsg = record { dest = some header; command = c } in
    let for_node : queued_for found header c ≡ item ∷ [] =
      ap
        (λ b.
          if b
          then record { dest = none; command = c } ∷ []
          else (if check_node_is_exist mesh.root.nodes header then item ∷ [] else []))
        other
      ∙ ap (λ b. if b then item ∷ [] else []) known in
    let queued : (socket_step (stream (cmd ++ later)) s).1.socket.queue ≡ some (qs ++ item ∷ []) =
      ap (λ b. (socket_round found (record (between buffer k local qs) { sock_open = b })).1.queue)
        opened
      ∙ queue
      ∙ ap (λ items. some (qs ++ items)) for_node in
    let (rest, taken) =
      looks_in_order qs item [] (socket_step (stream (cmd ++ later)) s).1 u seen queued r turn in
    let (w, sent) = server_at-dest u item rest header seen refl in
    (
      packet_of u item,
      (
        w,
        (
          taken.1 ∙ sent.0,
          packet_for-IsPassedOn u.mesh.gather.mem u.mesh.gather.cmd u.sqmsg c cmd is,
        ),
      ),
    )
