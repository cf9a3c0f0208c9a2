-- ===== src/Root/Relay.antt =====
-- A command of the server for a node, from the socket of the root over the mesh to the node, and the
-- node's answer back to the server.
pub mod Answer
mod Tests
use mathlib.Core.Option
use esp32_mesh.Common.{
  ℕ, suc, ◌+◌, ◌-◌, ◌<◌, ◌≤◌, ◌≡◌, ◌⊎◌, inl, inr, refl, sym, ap, ◌∙◌, Bool, true, false, List, [],
  ◌∷◌, ◌++◌, Option, none, some, arith, length, get_or, bytes_eq, ◌==◌, if◌then◌else◌, Bool-cases,
}
use esp32_mesh.Common.Memory.{Store, memcpy, memcpy_in, memcpy_out, read, read_congr}
use esp32_mesh.Effect.{Effect, at, mesh_write, send, feed_dog_in}
use esp32_mesh.Message.{
  set_header, set_header_out, set_header_fields, put_bytes, read-put_bytes, put_bytes_out,
}
use esp32_mesh.Light.{set_light_color}
use esp32_mesh.DevList.{Mac, check_node_is_exist}
use esp32_mesh.Node.Handlers.{NodeState, Surroundings, Outcome, node_handle_led}
use esp32_mesh.Node.Task.{message, node_round, on_message, then_feed}
use esp32_mesh.Node.Lamp.{led_request}
use esp32_mesh.Root.State.{RootState, RootEnv}
use esp32_mesh.Root.FromNode.{process_node_data}
use esp32_mesh.Root.MeshTask.{
  MeshTask, MeshSeen, ServerMsg, with_mem, at_buffer, put_back, after_handler, server_phase,
  read_phase,
}
use esp32_mesh.Root.MeshTask.Reading.{waiting, message_of, landed, landed_sent, read_phase-node}
use esp32_mesh.Root.Socket.{SocketTask, SocketSeen, stream, received, socket_round}
use esp32_mesh.Root.Socket.Commands.{
  between, header_of, IsCommand, queued_for, socket_round-IsCommand,
}

-- What the root writes to the mesh for a command that it takes from the queue.
abbrev pub packet_for : Store → (cmd : ℕ) → (stale c : Store) → Store
packet_for mem cmd stale c = at (memcpy mem cmd (memcpy stale 0 c 0 94) 0 101) cmd

-- The first 94 bytes of a message are the command's, and the 7 behind them what `sqmsg` held.
abbrev pub IsPassedOn : List ℕ → (stale packet : Store) → Type 0
IsPassedOn cmd stale packet =
    ((j : ℕ) → j < 6 → packet j ≡ 255)
    × ((j : ℕ) → 6 ≤ j → j < 94 → packet j ≡ get_or cmd j 0)
    × ((j : ℕ) → 94 ≤ j → j < 101 → packet j ≡ stale j)

pub packet_for-IsPassedOn :
    (mem : Store) (p : ℕ) (stale c : Store) (cmd : List ℕ)
    → IsCommand cmd c
    → IsPassedOn cmd stale (packet_for mem p stale c)
packet_for-IsPassedOn mem p stale c cmd is = (
  (λ j l. kept j (omega arith) ∙ is.0 j l),
  (λ j low high. kept j high ∙ is.1 j low (omega arith)),
  λ j low high. in_packet j high ∙ memcpy_out stale 0 c 0 94 j (omega arith),
)
  where
    in_packet : (j : ℕ) → j < 101 → packet_for mem p stale c j ≡ memcpy stale 0 c 0 94 j
    in_packet j l =
        memcpy_in mem p (memcpy stale 0 c 0 94) 0 101 (p + j) (omega arith) (omega arith)
        ∙ ap (memcpy stale 0 c 0 94) (omega arith)

    kept : (j : ℕ) → j < 94 → packet_for mem p stale c j ≡ c j
    kept j l =
        in_packet j (omega arith)
        ∙ memcpy_in stale 0 c 0 94 j (omega arith) (omega arith)
        ∙ ap c (omega arith)

server_phase-dest :
    (seen : MeshSeen) (mem : Store) (errors : ℕ) (begun : Bool) (root : RootState) (last : ℕ)
    → (header : Mac) (stale c : Store)
    → (t : MeshTask) × (server_phase
          (record seen {
            server_queue = some (received stale (record { dest = some header; command = c }));
          })
          (waiting mem errors begun root last)
        ≡ some (mesh_write (some header) (packet_for mem 6 stale c) 1430 ∷ [], t))
unfolding server_phase
server_phase-dest seen mem errors begun root last header stale c = (_, refl)

-- A command of 101 bytes that the root reads in one piece between two others, with room in the queue and
-- no update under way, and whose header is not the root's address but that of a node of the list, is
-- put into the queue behind the others; and the loop over the mesh, when it takes it, makes one
-- call: it writes a message to that node, which has a header of 0xff and the command's bytes up to
-- the 94th; the last 7 are not those of the command but what was in the loop's copy before.
pub command_to_node :
    (seen : SocketSeen) (buffer local : Store) (k : ℕ) (qs : List ServerMsg) (cmd later : List ℕ)
    → (mesh : MeshSeen) (mem : Store) (errors : ℕ) (begun : Bool) (root : RootState) (last : ℕ)
    → (stale : Store) → seen.device_ota ≡ false
    → seen.found ≡ stream (cmd ++ later)
    → length cmd ≡ 101
    → length qs < 3
    → bytes_eq seen.self_mac (header_of cmd) ≡ false
    → check_node_is_exist seen.nodes (header_of cmd) ≡ true
    → (item : ServerMsg) × ((packet : Store) × ((t : MeshTask) × (((socket_round seen
                (between buffer k local qs)).1.queue
              ≡ some (qs ++ item ∷ []))
            × (server_phase
                  (record mesh { server_queue = some (received stale item) })
                  (waiting mem errors begun root last)
                ≡ some (mesh_write (some (header_of cmd)) packet 1430 ∷ [], t))
            × IsPassedOn cmd stale packet)))
command_to_node seen buffer local k qs cmd later mesh mem errors begun root last stale idle came
      whole room other known =
    let (c, (queue, is, _, _, _)) =
      socket_round-IsCommand seen buffer local k qs cmd later idle came whole room in
    let header = header_of cmd in
    let mine =
      ap
        (λ b.
          if b
          then record { dest = none; command = c } ∷ []
          else (if check_node_is_exist seen.nodes header
              then record { dest = some header; command = c } ∷ []
              else []))
        other in
    let listed =
      ap (λ b. if b then record { dest = some header; command = c } ∷ [] else []) known in
    let (t, wrote) = server_phase-dest mesh mem errors begun root last header stale c in
    (
      record { dest = some header; command = c },
      (
        packet_for mem 6 stale c,
        (
          t,
          (
            queue ∙ ap (λ items. some (qs ++ items)) (mine ∙ listed),
            wrote,
            packet_for-IsPassedOn mem 6 stale c cmd is,
          ),
        ),
      ),
    )
