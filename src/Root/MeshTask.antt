-- ===== src/Root/MeshTask.antt =====
-- `root_mesh_read_task` of main/router.c: the loop of the root over the mesh and the queues. The message
-- buffer of the handlers is what stands at `pRootMsg` in the photo buffer.
pub mod Reading
pub mod Laws
pub mod PingOverPhoto
pub mod Registry
mod Tests
use mathlib.Core.Option
use esp32_mesh.Common.{
  ℕ, ◌-◌, Bool, true, false, not, List, [], ◌∷◌, ◌++◌, Option, none, some, ltb, bytes_eq,
  if◌then◌else◌,
}
use esp32_mesh.Common.Memory.{Store, memcpy, read}
use esp32_mesh.Wire.{child_packet_len, packet_header_len, tcp_client_recv_len}
use esp32_mesh.Wire.RootMsg
use esp32_mesh.Message.{put_bytes}
use esp32_mesh.Effect.{Effect, at, mesh_write, upgrade}
use esp32_mesh.DevList.{Mac}
use esp32_mesh.Photo.Gather.{Gather, process_image}
use esp32_mesh.Root.State.{RootState, RootEnv}
use esp32_mesh.Root.Ping.{root_send_ping}
use esp32_mesh.Root.Register.{root_send_register}
use esp32_mesh.Root.Offline.{root_do_child_offline}
use esp32_mesh.Root.Command.{process_server_data}
use esp32_mesh.Root.FromNode.{process_node_data}

-- The photo buffer with the two pointers, the root's state, and when it last sent a ping.
pub record MeshTask : Type 0 where
  pub gather : Gather
  pub root : RootState
  pub last : ℕ

-- `serverqueue_msg_t`: the address where bAddrValid is set, and the command.
pub record ServerMsg : Type 0 where
  pub dest : Option Mac
  pub command : Store

-- What `mwifi_root_read` gives: the sender, data_type.upgrade, the message and its size.
pub record Incoming : Type 0 where
  pub src : Mac
  pub upgrades : Bool
  pub packet : Store
  pub size : ℕ

-- What the surroundings answer in one round.
pub record MeshSeen : Type 0 where
  pub env : RootEnv
  pub total_nodes : ℕ
  pub now : ℕ
  pub junk : ℕ
  pub mesh_queue : Option ℕ
  pub connects : Bool
  pub device_version : List ℕ
  pub tcp_queue : Option ℕ
  pub table : Option (List Mac)
  pub server_queue : Option ServerMsg
  pub incoming : Option Incoming

abbrev pub normal_header : List ℕ
normal_header = 255 ∷ 255 ∷ 255 ∷ 255 ∷ 255 ∷ 255 ∷ []

-- A region written over another from an offset on.
abbrev pub overlay : Store → ℕ → Store → Store
overlay mem off m a = if ltb a off then mem a else m (a - off)

-- The state that a handler sees, and the task's state after it.
abbrev pub at_buffer : MeshTask → RootState
at_buffer t = record t.root { msg = at t.gather.mem t.gather.msg }

abbrev pub put_back : MeshTask → RootState → MeshTask
put_back t r = record t {
  gather = record t.gather { mem = overlay t.gather.mem t.gather.msg r.msg };
  root = r;
}

abbrev pub with_mem : MeshTask → Store → MeshTask
with_mem t m = record t { gather = record t.gather { mem = m } }

-- root_send_ping(MeshQueue, pPingMsg), whose pointer stays at the first slot.
abbrev pub ping_phase : MeshSeen → MeshTask → List Effect × MeshTask
ping_phase seen t =
    let p =
      root_send_ping seen.total_nodes seen.now seen.junk seen.mesh_queue t.root.self_mac
        t.root.nodes t.last (at t.gather.mem RootMsg.node) in
    (p.effects, record (with_mem t (overlay t.gather.mem RootMsg.node p.msg)) { last = p.last })

-- Lines 1180 to 1191: whether the round goes on.
unfoldable pub register_phase : MeshSeen → MeshTask → Bool × List Effect × MeshTask
register_phase seen t =
    let s = record (at_buffer t) { sock_open = true } in
    let (ok, sent, m) = root_send_register seen.device_version seen.env.sends s in
    if t.root.sock_open
    then (true, [], t)
    else (if seen.connects then (ok, sent, put_back t (record s { msg = m })) else (false, [], t))

-- Lines 1193 to 1195.
unfoldable pub offline_phase : MeshSeen → MeshTask → List Effect × MeshTask
offline_phase seen t = elim seen.tcp_queue [
  | none ↦ ([], t)
  | some cmd ↦ let o = root_do_child_offline seen.table (at_buffer t) cmd in (o.0, put_back t o.1)
]

abbrev pub after_handler : MeshTask → List Effect × RootState → List Effect × MeshTask
after_handler t r = (r.0, put_back t r.1)

-- Lines 1197 to 1209. The `data_type` of the write, which is what the last read has left, is no part of it here.
unfoldable pub server_phase : MeshSeen → MeshTask → Option (List Effect × MeshTask)
server_phase seen t = elim seen.server_queue [
  | none ↦ some ([], t)
  | some q ↦ elim q.dest [
    | some dest ↦
        let m = memcpy t.gather.mem t.gather.cmd q.command 0 tcp_client_recv_len in
        some (mesh_write (some dest) (at m t.gather.cmd) child_packet_len ∷ [], with_mem t m)
    | none ↦
        let m =
          memcpy (put_bytes t.gather.mem t.gather.msg t.root.self_mac) t.gather.cmd q.command 0
            tcp_client_recv_len in
        let t1 = with_mem t m in
        Option.map (after_handler t1) (process_server_data seen.env (at_buffer t1))
  ]
]

-- Lines 1242 to 1254, once a message that is no upgrade has been read; `normal` is the test of its
-- header.
unfoldable pub read_message :
    MeshSeen → MeshTask → Incoming → Bool → Option (List Effect × MeshTask)
read_message seen t p normal =
    let t1 = with_mem t (put_bytes t.gather.mem t.gather.msg p.src) in
    let g = process_image t.root.sock_open p.src t.gather in
    if normal
    then Option.map (after_handler t1) (
        if bytes_eq p.src t.root.self_mac
        then process_server_data seen.env (at_buffer t1)
        else process_node_data seen.env (at_buffer t1) p.src)
    else some (g.1, record t { gather = g.0 })

-- Lines 1211 to 1254.
unfoldable pub read_phase : MeshSeen → MeshTask → Option (List Effect × MeshTask)
read_phase seen t = elim seen.incoming [
  | none ↦ some ([], t)
  | some p ↦
      let m = memcpy t.gather.mem t.gather.cmd p.packet 0 p.size in
      let normal = bytes_eq (read m t.gather.cmd packet_header_len) normal_header in
      if p.upgrades
      then some (upgrade p.src (at m t.gather.cmd) p.size ∷ [], with_mem t m)
      else read_message seen (with_mem t m) p normal
]

abbrev pub prepend : List Effect → List Effect × MeshTask → List Effect × MeshTask
prepend es r = (es ++ r.0, r.1)

-- What follows the registration in a round.
abbrev pub queues_phase : MeshSeen → MeshTask → Option (List Effect × MeshTask)
queues_phase seen t =
    let (off, t1) = offline_phase seen t in
    Option.map (prepend off)
      (Option.bind (server_phase seen t1) (λ r. Option.map (prepend r.0) (read_phase seen r.1)))

-- One round of the loop; `none` is a fault of a handler.
unfoldable pub mesh_round : MeshSeen → MeshTask → Option (List Effect × MeshTask)
mesh_round seen t =
    let (pings, t1) = ping_phase seen t in
    let (ok, sent, t2) = register_phase seen t1 in
    Option.map (prepend pings) (
      if t1.root.device_ota
      then some ([], t1)
      else (if ok then Option.map (prepend sent) (queues_phase seen t2) else some (sent, t2)))

-- The loop over the rounds in which the device is connected and the root. What follows it clears the
-- task's handle and nothing else of the state.
unfoldable pub root_mesh_read_task : List MeshSeen → MeshTask → Option (List Effect × MeshTask)
root_mesh_read_task [] t = some ([], t)
root_mesh_read_task (seen ∷ rest) t =
    Option.bind (mesh_round seen t) (λ r. Option.map (prepend r.0) (root_mesh_read_task rest r.1))
