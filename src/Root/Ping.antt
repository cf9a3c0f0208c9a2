-- ===== src/Root/Ping.antt =====
-- `root_send_ping` of main/router.c: the ping with which a root tells its nodes which of them it knows.
pub mod Laws
use esp32_mesh.Common.{
  ℕ, ◌+◌, ◌*◌, Bool, true, false, ◌||◌, ◌&&◌, List, [], ◌∷◌, Option, none, some, ltb, ◌==◌,
  if◌then◌else◌,
}
use mathlib.Core.Option
use esp32_mesh.Common.Memory.{Store, poke}
use esp32_mesh.Wire.{addr_len, child_packet_len, root_send_ping_interval}
use esp32_mesh.Wire.BusCmd
use esp32_mesh.Wire.BusType
use esp32_mesh.Wire.RootPing
use esp32_mesh.Message.{set_header, put_bytes}
use esp32_mesh.Effect.{Effect, mesh_write}
use esp32_mesh.DevList.{NodeInfo}
use esp32_mesh.Watchdog.{get_two_timestamp_interval}
use esp32_mesh.Root.Restart.{broadcast}

-- What `root_send_ping` keeps: its messages, its buffer, and u32LastTimeStamp.
pub record Pinged : Type 0 where
  pub effects : List Effect
  pub msg : Store
  pub last : ℕ

-- pNodeBuffer->tRootPing.u8NodeMac[i]
abbrev pub ping_row : ℕ → ℕ
ping_row i = RootPing.node_mac + addr_len * i

-- Lines 1129 to 1132: the addresses of the list, from number `i` on, as many as there are: u8NodeMac has 20
-- rows, and the message 1430 bytes, which the code does not test for.
unfoldable pub put_macs : List NodeInfo → ℕ → Store → Store
put_macs [] i m = m
put_macs (n ∷ ns) i m = put_macs ns (i + 1) (put_bytes m (ping_row i) n.mac_addr)

-- Lines 1134 to 1138.
unfoldable pub ping_msg : List ℕ → List NodeInfo → Store → (force : ℕ) → Store
ping_msg self_mac nodes m force =
    put_bytes
      (poke (set_header (put_macs nodes 0 m) 0 BusType.request BusCmd.root_send_ping) RootPing.force
        force)
      RootPing.root_mac self_mac

-- xQueueReceive(queue, &qmsg, 0) != pdTRUE
abbrev pub is_empty : Option ℕ → Bool
is_empty none = true
is_empty (some cmd) = false

-- `root_send_ping(queue, pNodeBuffer)` at tick `now`; `queued` is the command taken from the queue, and
-- `junk` is what `qmsg` holds where there is none.
unfoldable pub root_send_ping :
    (total_nodes now junk : ℕ) → Option ℕ → List ℕ → List NodeInfo → (last : ℕ) → Store → Pinged
root_send_ping total_nodes now junk queued self_mac nodes last m =
    let ping = ping_msg self_mac nodes m (Option.get_or queued junk) in
    let early = ltb (get_two_timestamp_interval now last) root_send_ping_interval in
    if total_nodes == 1
    then record { effects = []; msg = m; last = last }
    else (if is_empty queued && early
        then record { effects = []; msg = m; last = last }
        else record {
          effects = mesh_write (some broadcast) ping child_packet_len ∷ [];
          msg = ping;
          last = now;
        })
