-- ===== src/Root/Offline.antt =====
-- `root_do_child_offline` of main/router.c: the nodes that have left the mesh. The routing table of the
-- mesh is read into the end of the message buffer.
pub mod Table
pub mod Steps
pub mod Laws
use esp32_mesh.Common.{
  ℕ, zero, suc, ◌+◌, ◌*◌, Bool, true, false, List, [], ◌∷◌, Option, none, some, length, ◌==◌,
  bytes_eq, if◌then◌else◌,
}
use esp32_mesh.Common.Memory.{Store, poke, read}
use esp32_mesh.Wire.{addr_len, root_packet_len}
use esp32_mesh.Wire.BusCmd
use esp32_mesh.Wire.BusType
use esp32_mesh.Wire.QueueMsg
use esp32_mesh.Wire.RootMsg
use esp32_mesh.Wire.ChildUnregister
use esp32_mesh.Message.{set_header, put_bytes}
use esp32_mesh.Effect.{Effect, send}
use esp32_mesh.DevList.{Mac, NodeInfo, del_node}
use esp32_mesh.Root.State.{RootState}

-- pOriginTL[i] and u8DevMac[i]
abbrev pub table_row : ℕ → ℕ
table_row i = RootMsg.node + ChildUnregister.dummy + addr_len * i

abbrev pub gone_row : ℕ → ℕ
gone_row i = RootMsg.node + ChildUnregister.dev_mac + addr_len * i

-- `esp_mesh_get_routing_table` puts the addresses of the table behind each other.
abbrev pub put_table : List Mac → ℕ → Store → Store
put_table [] i m = m
put_table (t ∷ ts) i m = put_table ts (i + 1) (put_bytes m (table_row i) t)

-- Lines 348 to 353: whether the loop breaks, on the rows from number `i` on, `n` of them.
unfoldable pub in_table : (n i : ℕ) → Store → Mac → Bool
in_table zero i m mac = false
in_table (suc n) i m mac =
    if bytes_eq mac (read m (table_row i) addr_len) then true else in_table n (i + 1) m mac

-- What the walk over the device list leaves: the list, `rm_num`, and the buffer.
pub record Walk : Type 0 where
  pub nodes : List NodeInfo
  pub rm_num : ℕ
  pub msg : Store

-- Lines 346 to 363: `rest` are the nodes still to be looked at.
unfoldable pub offline_loop : ℕ → List NodeInfo → Walk → Walk
offline_loop table_size [] w = w
offline_loop table_size (n ∷ rest) w =
    if in_table table_size 0 w.msg n.mac_addr
    then offline_loop table_size rest w
    else offline_loop table_size rest record {
      nodes = del_node w.nodes n.mac_addr;
      rm_num = suc w.rm_num;
      msg = put_bytes w.msg (gone_row w.rm_num) n.mac_addr;
    }

-- `root_do_child_offline(socket_fd, pQMsg, pRootMsg)`; `table` is `none` where the mesh cannot give its
-- routing table.
unfoldable pub root_do_child_offline :
    Option (List Mac) → RootState → (cmd : ℕ) → List Effect × RootState
root_do_child_offline none s cmd = ([], s)
root_do_child_offline (some table) s cmd =
    let start : Walk = record { nodes = s.nodes; rm_num = 0; msg = put_table table 0 s.msg } in
    let w = offline_loop (length table) s.nodes start in
    let head =
      set_header (put_bytes w.msg RootMsg.addr s.self_mac) RootMsg.node BusType.request
        BusCmd.node_unregister in
    let m = poke head (RootMsg.node + ChildUnregister.number) w.rm_num in
    if cmd == QueueMsg.node_remove
    then (if w.rm_num == 0
        then ([], record s { nodes = w.nodes; msg = w.msg })
        else (send m root_packet_len ∷ [], record s { nodes = w.nodes; msg = m }))
    else ([], s)
