-- ===== src/Root/System.antt =====
-- The two loops of the root together, over the state they share: `root_mesh_read_task` and
-- `tcp_client_read_task` of main/router.c in any interleaving. The loop over the mesh may be interrupted
-- between its phases; g_sockfd, g_self_mac, the device list and bDeviceOtaFlag stand in `mesh`, and
-- ServerQueue in `socket`.
pub mod Safety
pub mod Delivery
pub mod InOrder
pub mod Arrival
pub mod Stopped
mod Tests
use mathlib.Core.Option
use esp32_mesh.Common.{◌≡◌, ap, List, [], ◌∷◌, ◌++◌, Option, none, some, if◌then◌else◌}
use esp32_mesh.Common.Memory.{Store}
use esp32_mesh.Effect.{Effect}
use esp32_mesh.Root.State.{RootState}
use esp32_mesh.Root.MeshTask.{
  MeshTask, MeshSeen, ServerMsg, ping_phase, register_phase, offline_phase, server_phase,
  read_phase,
}
use esp32_mesh.Root.MeshTask.Registry.{IsSound}
use esp32_mesh.Root.Socket.{SocketTask, SocketSeen, Found, received, socket_round}
use esp32_mesh.Root.Ota.{ota_ended}

-- Where the loop over the mesh stands: before the ping and the connection, before it looks at tcpQueue,
-- before it looks at ServerQueue, and before it reads from the mesh.
pub data MeshAt : Type 0 where
  at_begin at_offline at_server at_read : MeshAt

-- The two tasks, the mesh task's own copy `sqmsg` of a command, and where that task stands.
pub record System : Type 0 where
  pub mesh : MeshTask
  pub socket : SocketTask
  pub sqmsg : Store
  pub at : MeshAt

-- What the loop over the socket sees of the shared state.
abbrev pub sees : System → Found → SocketSeen
sees s f = record {
  self_mac = s.mesh.root.self_mac;
  nodes = s.mesh.root.nodes;
  device_ota = s.mesh.root.device_ota;
  found = f;
}

abbrev pub with_root : System → RootState → System
with_root s r = record s { mesh = record s.mesh { root = r } }

-- A round of the loop over the socket; g_sockfd is shared.
abbrev pub socket_step : Found → System → List Effect × System
socket_step f s =
    let r = socket_round (sees s f) (record s.socket { sock_open = s.mesh.root.sock_open }) in
    (r.0, record (with_root s (record s.mesh.root { sock_open = r.1.sock_open })) { socket = r.1 })

-- xQueueReceive(ServerQueue, &sqmsg, 0): the command, if there is one, and the system without it.
abbrev pub taken : Store → Option (List ServerMsg) → Option ServerMsg
taken sqmsg none = none
taken sqmsg (some []) = none
taken sqmsg (some (q ∷ qs)) = some (received sqmsg q)

abbrev pub without_first : System → Option (List ServerMsg) → System
without_first s none = s
without_first s (some []) = s
without_first s (some (q ∷ qs)) = record s {
  socket = record s.socket { queue = some qs };
  sqmsg = (received s.sqmsg q).command;
}

abbrev pub moved : System → MeshAt → MeshTask → System
moved s to t = record s { mesh = t; at = to }

-- The loop over the mesh where it looks at ServerQueue, which is as given.
abbrev pub server_at : System → Option (List ServerMsg) → MeshSeen → Option (List Effect × System)
server_at s queue seen =
    Option.map (λ r. (r.0, moved (without_first s queue) at_read r.1))
      (server_phase (record seen { server_queue = taken s.sqmsg queue }) s.mesh)

-- The next phase of the loop over the mesh.
unfoldable pub phase_at : MeshAt → MeshSeen → System → Option (List Effect × System)
phase_at at_begin seen s =
    let (pings, t1) = ping_phase seen s.mesh in
    let (ok, sent, t2) = register_phase seen t1 in
    some (
      if t1.root.device_ota
      then (pings, moved s at_begin t1)
      else (if ok
          then (pings ++ sent, moved s at_offline t2)
          else (pings ++ sent, moved s at_begin t2)))
phase_at at_offline seen s =
    let (off, t) = offline_phase seen s.mesh in some (off, moved s at_server t)
phase_at at_server seen s = server_at s s.socket.queue seen
phase_at at_read seen s = Option.map (λ r. (r.0, moved s at_begin r.1)) (read_phase seen s.mesh)

abbrev pub mesh_step : MeshSeen → System → Option (List Effect × System)
mesh_step seen s = phase_at s.at seen s

-- One step of any task: a round of the loop over the socket, a phase of the loop over the mesh in
-- surroundings that are sound, or the end of the task of an update.
pub data Step (s u : System) : Type 0 where
  socket_moves : (f : Found) → u ≡ (socket_step f s).1 → Step s u
  mesh_moves :
      (seen : MeshSeen) (es : List Effect)
      → IsSound seen
      → mesh_step seen s ≡ some (es, u)
      → Step s u
  update_ends : u ≡ with_root s (ota_ended s.mesh.root) → Step s u

pub data Reach (s : System) : System → Type 0 where
  here : Reach s s
  next : {t u : System} → Reach s t → Step t u → Reach s u

pub look :
    (s : System) (seen : MeshSeen)
    → s.at ≡ at_server
    → mesh_step seen s ≡ server_at s s.socket.queue seen
unfolding phase_at
look s seen at = ap (λ p. phase_at p seen s) at
