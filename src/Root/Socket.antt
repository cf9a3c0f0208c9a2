-- ===== src/Root/Socket.antt =====
-- `tcp_client_read_task` of main/router.c: the loop of the root over the socket to the server. A command
-- has 101 bytes; it goes to ServerQueue, from which the loop over the mesh takes it.
pub mod Bounds
pub mod Commands
pub mod Silence
pub mod Queueing
mod Tests
use esp32_mesh.Common.{
  ℕ, suc, ◌+◌, ◌-◌, ◌*◌, Bool, true, false, not, List, [], ◌∷◌, ◌++◌, Option, none, some, length,
  take, leb, ltb, ◌==◌, bytes_eq, if◌then◌else◌,
}
use esp32_mesh.Common.Memory.{Store, memcpy, memset, read}
use esp32_mesh.Wire.{addr_len, tcp_client_recv_len}
use esp32_mesh.Message.{put_bytes}
use esp32_mesh.Effect.{Effect, feed_dog_in}
use esp32_mesh.DevList.{Mac, NodeInfo, check_node_is_exist}
use esp32_mesh.Root.MeshTask.{ServerMsg}

-- g_tcp_client_read_data, alreadReadNumber, socket_maybe_close, whether g_sockfd is not -1, the command
-- in the local `sqmsg`, and ServerQueue, `none` before it is made.
pub record SocketTask : Type 0 where
  pub buffer : Store
  pub already : ℕ
  pub maybe_close : ℕ
  pub sock_open : Bool
  pub local : Store
  pub queue : Option (List ServerMsg)

-- What `select` and then `read` find: an error, nothing in 200 ms, an error of `read`, or the bytes that
-- the socket has, of which `read` takes as many as it is asked for. No bytes are the end of the stream.
pub data Found : Type 0 where
  select_failed nothing read_failed : Found
  stream : List ℕ → Found

-- What the other tasks have set: g_self_mac, the device list, and bDeviceOtaFlag.
pub record SocketSeen : Type 0 where
  pub self_mac : Mac
  pub nodes : List NodeInfo
  pub device_ota : Bool
  pub found : Found

abbrev pub max_empty_reads : ℕ
max_empty_reads = 20

-- xQueueCreate(3, sizeof(server_cmd_t))
abbrev pub server_queue_size : ℕ
server_queue_size = 3

-- The bytes of a command that an item of the queue has room for, behind bAddrValid and u8addr.
abbrev pub queued_len : ℕ
queued_len = tcp_client_recv_len - (1 + addr_len)

-- xQueueReceive(ServerQueue, &sqmsg, 0): behind the bytes of the item `sqmsg` keeps what it held.
abbrev pub received : Store → ServerMsg → ServerMsg
received stale q = record q { command = memcpy stale 0 q.command 0 queued_len }

-- sqmsg.tServerCmd: a header of 0xff, and the rest of the command.
abbrev pub queued_command : Store → Store → Store
queued_command local buffer =
    memcpy (memset local 0 0xff addr_len) addr_len buffer addr_len (tcp_client_recv_len - addr_len)

-- Lines 508 to 513, where `dest` is what is in bAddrValid and u8addr.
abbrev pub enqueue : SocketTask → Option Mac → SocketTask
enqueue t dest = elim t.queue [
  | none ↦ t
  | some qs ↦
      let command = queued_command t.local t.buffer in
      let item : ServerMsg = record { dest = dest; command = command } in
      record t {
        local = command;
        queue = some (if ltb (length qs) server_queue_size then qs ++ item ∷ [] else qs);
      }
]

-- Lines 494 to 514: a command with this header is for this device, for a node of the list, or dropped.
unfoldable pub dispatch_to : SocketSeen → SocketTask → (header : Mac) → SocketTask
dispatch_to seen t header =
    if bytes_eq seen.self_mac header
    then enqueue t none
    else (if check_node_is_exist seen.nodes header then enqueue t (some header) else t)

abbrev pub dispatch : SocketSeen → SocketTask → SocketTask
dispatch seen t = dispatch_to seen t (read t.buffer 0 addr_len)

abbrev pub closed : SocketTask → SocketTask
closed t = record t { maybe_close = 0; sock_open = false }

-- Lines 460 to 472: `pSCmd + alreadReadNumber` moves by commands, not by bytes. A write behind the
-- 1436 bytes of the buffer is no fault here.
unfoldable pub take_bytes : SocketSeen → SocketTask → List ℕ → SocketTask
take_bytes seen t got =
    let t1 = record t {
      buffer = put_bytes t.buffer (tcp_client_recv_len * t.already) got;
      maybe_close = 0;
      already = t.already + length got;
    } in
    if tcp_client_recv_len == t1.already then dispatch seen (record t1 { already = 0 }) else t1

-- Lines 473 to 480.
unfoldable pub empty_read : SocketTask → SocketTask
empty_read t =
    if ltb max_empty_reads (t.maybe_close + 1)
    then closed t
    else record t { maybe_close = t.maybe_close + 1 }

-- Lines 456 to 486, for the bytes that `read` has put at the buffer.
unfoldable pub after_read : SocketSeen → SocketTask → List ℕ → SocketTask
after_read seen t [] = dispatch seen (empty_read t)
after_read seen t (c ∷ got) = take_bytes seen t (c ∷ got)

abbrev pub restarted : SocketTask → SocketTask
restarted t = if leb tcp_client_recv_len t.already then record t { already = 0 } else t

-- Lines 446 to 515.
unfoldable pub on_found : SocketSeen → SocketTask → Found → SocketTask
on_found seen t select_failed = record t { sock_open = false }
on_found seen t nothing = t
on_found seen t read_failed = dispatch seen (closed (restarted t))
on_found seen t (stream bytes) =
    after_read seen (restarted t) (take (tcp_client_recv_len - (restarted t).already) bytes)

-- One round of the loop, on a device that is in the mesh and the root.
unfoldable pub socket_round : SocketSeen → SocketTask → List Effect × SocketTask
socket_round seen t = (
  feed_dog_in 10 ∷ [],
  if seen.device_ota then t else (if t.sock_open then on_found seen t seen.found else t),
)

-- The rounds of the loop, and what follows where it ends.
unfoldable pub socket_rounds : SocketTask → List SocketSeen → List Effect × SocketTask
socket_rounds t [] = (feed_dog_in 10 ∷ [], record t { sock_open = false })
socket_rounds t (seen ∷ rest) =
    let r = socket_round seen t in let later = socket_rounds r.1 rest in (r.0 ++ later.0, later.1)

-- `socket_tcp_client_create(ip, port)`, with what `socket` gives and whether `connect` succeeds: the
-- result, `none` for -1, and whether the socket is closed again.
unfoldable pub socket_tcp_client_create : (socket : Option ℕ) → (connects : Bool) → Option ℕ × Bool
socket_tcp_client_create none connects = (none, false)
socket_tcp_client_create (some sockfd) connects =
    if connects then (some sockfd, false) else (none, true)
