-- ===== src/Root/Register.antt =====
-- `root_send_register` of main/router.c: a root that has connected tells the server of itself and of
-- the nodes in its list.
use esp32_mesh.Common.{
  ℕ, ◌+◌, ◌*◌, ◌%◌, Bool, true, false, not, List, [], ◌∷◌, length, ◌==◌, if◌then◌else◌,
}
use esp32_mesh.Common.Memory.{Store, poke}
use esp32_mesh.Wire.{addr_len, root_packet_len}
use esp32_mesh.Wire.BusCmd
use esp32_mesh.Wire.BusType
use esp32_mesh.Wire.RootMsg
use esp32_mesh.Wire.ChildRegister
use esp32_mesh.Message.{set_header, put_bytes, put_text}
use esp32_mesh.Effect.{Effect, send}
use esp32_mesh.DevList.{NodeInfo}
use esp32_mesh.Config.Text.{cstr}
use esp32_mesh.Root.State.{RootState, body_at}

-- u8RegPayload + k. The array's rows have 21 bytes, and adding to it counts rows.
abbrev pub reg_payload : ℕ → ℕ
reg_payload k = RootMsg.node + ChildRegister.payload + ChildRegister.row * k

-- Lines 300 to 308: each node's address and version, from the given `offset` on. Rows
-- behind the end of the message are written here as any other.
unfoldable pub put_nodes : List NodeInfo → ℕ → Store → Store
put_nodes [] offset m = m
put_nodes (n ∷ ns) offset m = put_nodes ns (offset + addr_len + length (cstr n.version) + 1) (
    put_text (put_bytes m (reg_payload offset) n.mac_addr) (reg_payload (addr_len + offset))
      (cstr n.version))

-- u8Addr, u8Header, u8Type and u8Cmd of a message to the server.
abbrev pub server_header : Store → List ℕ → ℕ → Store
server_header m self_mac cmd =
    set_header (put_bytes m RootMsg.addr self_mac) RootMsg.node BusType.request cmd

-- `root_send_register(socket_fd, pRootMsg)`: whether it returns 0, the messages, and the buffer.
-- `device_version` is CONFIG_DEVICE_VERSION.
unfoldable pub root_send_register : (List ℕ) → (ℕ → Bool) → RootState → Bool × List Effect × Store
root_send_register device_version sends s =
    let m1 =
      put_text (server_header s.msg s.self_mac BusCmd.root_register) body_at device_version in
    let m2 = put_nodes s.nodes 0 m1 in
    let node_num = length s.nodes % 256 in
    let m3 = poke (server_header m2 s.self_mac BusCmd.node_register) body_at node_num in
    let first = send m1 root_packet_len in
    let second = send m3 root_packet_len in
    if not (sends 0)
    then (false, first ∷ [], m1)
    else (if node_num == 0 then (true, first ∷ [], m2) else (sends 1, first ∷ second ∷ [], m3))
