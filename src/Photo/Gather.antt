-- ===== src/Photo/Gather.antt =====
-- `do_process_image_data_from_root_or_node` of main/router.c: the root gathers the packets of a photo
-- in `g_root_mesh_read_data` and sends them to the server together.
pub mod Slots
pub mod Faults
pub mod RoundTrip
use esp32_mesh.Common.{
  ℕ, ◌+◌, ◌*◌, Bool, true, false, List, [], ◌∷◌, ◌++◌, ltb, ◌==◌, bytes_eq, if◌then◌else◌,
}
use esp32_mesh.Common.Memory.{Store, memcpy, peek16, of_bytes, read}
use esp32_mesh.Wire.{
  addr_len, packet_header_len, child_packet_len, root_packet_len, photo_packet_max_count,
}
use esp32_mesh.Wire.NodePic
use esp32_mesh.Wire.RootMsg
use esp32_mesh.Effect.{Effect, send}

-- The region at `g_root_mesh_read_data`, the two pointers of `root_mesh_read_task` as offsets into it
-- (`pRootMsg`, and `pServerCmd`, which the function calls `pNodePic`), and the function's two statics.
pub record Gather : Type 0 where
  pub mem : Store
  pub msg : ℕ
  pub cmd : ℕ
  pub err_count : ℕ
  pub started : Bool

abbrev pub max_err_count : ℕ
max_err_count = 10

-- Both pointers back to the start of the region.
abbrev pub rewind : Gather → Gather
rewind s = record s { msg = 0; cmd = RootMsg.node }

-- Lines 1022 to 1033: a packet of a photo that is too long.
too_large : Gather → Gather
too_large s =
    if ltb max_err_count (s.err_count + 1)
    then rewind (record s { err_count = 0; started = false })
    else record s { err_count = s.err_count + 1 }

-- Lines 1035 to 1044: the first packet of a photo. `pNodePic` stays where it was.
first_packet : List ℕ → ℕ → Gather → Gather
first_packet src count s =
    if count == 1
    then record s {
      started = true;
      msg = 0;
      mem = memcpy s.mem RootMsg.addr (of_bytes src) 0 addr_len;
      err_count = 0;
    }
    else s

-- Lines 1064 to 1078: a packet that is not the last one. A packet from the sender of this photo stays,
-- and the next one is read behind it, where nothing tests for the end of the 400 slots; a slot behind them
-- is no fault here.
keep_packet : List ℕ → Gather → Gather
keep_packet src s =
    if bytes_eq (read s.mem 0 packet_header_len) src
    then record s {
      err_count = 0;
      msg = s.msg + root_packet_len;
      cmd = s.msg + root_packet_len + RootMsg.node;
    }
    else (if ltb max_err_count (s.err_count + 1)
        then rewind (record s { err_count = 0; started = false })
        else record s { err_count = s.err_count + 1 })

-- Lines 1047 to 1078; `open_` tells that `g_sockfd` is not -1.
gather_started : Bool → List ℕ → (count max : ℕ) → Gather → Gather × List Effect
gather_started open_ src count max s =
    if s.started
    then (if count == max
        then (rewind s, if open_ then send s.mem (root_packet_len * count) ∷ [] else [])
        else (keep_packet src s, []))
    else (s, [])

-- `do_process_image_data_from_root_or_node(src_addr, &pRootMsg, &pServerCmd)`
pub process_image : Bool → List ℕ → Gather → Gather × List Effect
process_image open_ src s =
    let max = peek16 s.mem (s.cmd + NodePic.max_count) in
    let count = peek16 s.mem (s.cmd + NodePic.count) in
    if ltb photo_packet_max_count max
    then (too_large s, [])
    else gather_started open_ src count max (first_packet src count s)

-- `mwifi_root_read(src_addr, ..., pServerCmd, &size, 200)` with a full packet, and the call above.
pub receive_packet : Bool → List ℕ → Gather → Store → Gather × List Effect
receive_packet open_ src s p =
    process_image open_ src (record s { mem = memcpy s.mem s.cmd p 0 child_packet_len })

-- The packets of one sender, one after the other.
pub receive_all : Bool → List ℕ → Gather → List Store → Gather × List Effect
receive_all open_ src s [] = (s, [])
receive_all open_ src s (p ∷ ps) =
    let (s1, e1) = receive_packet open_ src s p in
    let (s2, e2) = receive_all open_ src s1 ps in (s2, e1 ++ e2)
