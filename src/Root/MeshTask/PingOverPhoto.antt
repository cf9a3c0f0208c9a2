-- ===== src/Root/MeshTask/PingOverPhoto.antt =====
-- The ping is built where the photo of a node is gathered.
use esp32_mesh.Common.{
  ℕ, ◌+◌, ◌-◌, ◌<◌, ◌≡◌, refl, ap, ◌∙◌, false, List, arith, ltb, ◌==◌, ◌&&◌, if◌then◌else◌, Option,
}
use esp32_mesh.Common.Memory.{Store, poke_out, memset_in, peek16}
use esp32_mesh.Wire.NodePic
use esp32_mesh.Effect.{at}
use esp32_mesh.Message.{set_header, put_bytes_out}
use esp32_mesh.DevList.{NodeInfo}
use esp32_mesh.Watchdog.{get_two_timestamp_interval}
use esp32_mesh.Root.Ping.{is_empty, put_macs, ping_msg, root_send_ping}
use esp32_mesh.Root.MeshTask.{MeshTask, MeshSeen, overlay, ping_phase}
use mathlib.Core.Option

ping_msg_header :
    (self_mac : List ℕ) (ns : List NodeInfo) (m : Store) (force j : ℕ)
    → j < 6
    → ping_msg self_mac ns m force j ≡ 255
unfolding ping_msg set_header
ping_msg_header self_mac ns m force j l =
    put_bytes_out _ 9 self_mac j (omega arith)
    ∙ poke_out _ 8 force j (omega arith)
    ∙ poke_out _ 7 10 j (omega arith)
    ∙ poke_out _ 6 1 j (omega arith)
    ∙ memset_in (put_macs ns 0 m) 0 255 6 j (omega arith) (omega arith)

-- Where a ping is sent, the message is the ping.
sent_ping :
    (total now junk : ℕ) (queued : Option ℕ) (self_mac : List ℕ) (ns : List NodeInfo) (last : ℕ)
    (m : Store)
    → (total == 1) ≡ false
    → (is_empty queued && ltb (get_two_timestamp_interval now last) 8) ≡ false
    → (root_send_ping total now junk queued self_mac ns last m).msg
      ≡ ping_msg self_mac ns m (Option.get_or queued junk)
unfolding root_send_ping
sent_ping total now junk queued self_mac ns last m many due = rw (many, due) refl

ones : (m : Store) → ((j : ℕ) → j < 6 → m j ≡ 255) → (c : ℕ) → c < 5 → peek16 m c ≡ 65535
unfolding peek16
ones m ff c l = omega (arith, ff c (omega arith), ff (c + 1) (omega arith))

-- Where a ping is due, on a root that is not alone, it is built over the packet that stands first in the
-- buffer: while a photo is gathered, its first packet then has the number 65535, of 65535 packets,
-- with 65535 bytes, and the pointers and the mark of a photo that has begun stay as they were.
pub ping_phase-first_packet :
    (seen : MeshSeen) (t : MeshTask)
    → (seen.total_nodes == 1) ≡ false
    → (is_empty seen.mesh_queue && ltb (get_two_timestamp_interval seen.now t.last) 8) ≡ false
    → let g = (ping_phase seen t).1.gather in
      (peek16 (at g.mem 6) NodePic.count ≡ 65535)
      × (peek16 (at g.mem 6) NodePic.max_count ≡ 65535)
      × (peek16 (at g.mem 6) NodePic.data_len ≡ 65535)
      × (g.msg ≡ t.gather.msg)
      × (g.cmd ≡ t.gather.cmd)
      × (g.started ≡ t.gather.started)
ping_phase-first_packet seen t many due =
    let ping =
      root_send_ping seen.total_nodes seen.now seen.junk seen.mesh_queue t.root.self_mac
        t.root.nodes t.last (at t.gather.mem 6) in
    let g = (ping_phase seen t).1.gather in
    let header : (j : ℕ) → j < 6 → g.mem (6 + j) ≡ 255 = λ j l.
      over t.gather.mem ping.msg j
      ∙ ap (λ (m : Store). m j)
          (sent_ping seen.total_nodes seen.now seen.junk seen.mesh_queue t.root.self_mac
            t.root.nodes t.last (at t.gather.mem 6) many due)
      ∙ ping_msg_header t.root.self_mac t.root.nodes (at t.gather.mem 6) _ j l in
    (
      ones (at g.mem 6) header 0 (omega arith),
      ones (at g.mem 6) header 2 (omega arith),
      ones (at g.mem 6) header 4 (omega arith),
      refl,
      refl,
      refl,
    )
  where
    over : (mem m : Store) (j : ℕ) → overlay mem 6 m (6 + j) ≡ m j
    over mem m j =
        let past : ltb (6 + j) 6 ≡ false = ground arith in
        ap (λ b. if b then mem (6 + j) else m (6 + j - 6)) past ∙ ap m (omega arith)
