-- ===== src/Photo/Root.antt =====
-- `root_send_photo` of main/router.c: the root sends its own frame to the server in packets.
pub mod Rounds
pub mod Packets
use mathlib.Core.Option
use esp32_mesh.Common.{
  ℕ, zero, suc, ◌+◌, ◌%◌, ◌^◌, Bool, true, false, List, [], ◌∷◌, Option, none, some, ltb, ◌==◌,
  if◌then◌else◌,
}
use esp32_mesh.Common.Memory.{Store, memcpy, poke16}
use esp32_mesh.Wire.{packet_body_len, root_packet_len}
use esp32_mesh.Wire.RootMsg
use esp32_mesh.Wire.NodePic
use esp32_mesh.Message.{put_bytes}
use esp32_mesh.Effect.{Effect, send}
use esp32_mesh.Photo.Frame.{Frame, max_count, sub_size}

-- The packet at pNodePic: the three numbers, and PACKET_BODY_LEN bytes from `off` of the frame.
pub fill_packet : Store → (count max data_len : ℕ) → Frame → (off : ℕ) → Store
fill_packet m count max data_len fb off =
    memcpy
      (poke16
        (poke16 (poke16 m (RootMsg.node + NodePic.count) count) (RootMsg.node + NodePic.max_count)
          max)
        (RootMsg.node + NodePic.data_len) data_len)
      (RootMsg.node + NodePic.body) fb.buf off packet_body_len

-- Lines 573 to 583: what is left of the frame; `uint16_t dataLen = size`.
pub send_rest : (count max size off : ℕ) → Frame → Store → List Effect × Store
unfolding fill_packet
send_rest count max size off fb m =
    let p = fill_packet m count max (size % 2 ^ 16) fb off in
    if size == 0 then ([], m) else (send p root_packet_len ∷ [], p)

-- Lines 555 to 583, with fuel; `sends k` tells whether the k-th `send` succeeds.
pub photo_loop :
    ℕ → (ℕ → Bool) → (k count max size off : ℕ) → Frame → Store → Option (List Effect × Store)
photo_loop zero sends k count max size off fb m = none
photo_loop (suc f) sends k count max size off fb m =
    let p = fill_packet m count max packet_body_len fb off in
    let next =
      Option.map (λ (r : List Effect × Store). (send p root_packet_len ∷ r.0, r.1))
        (photo_loop f sends (k + 1) ((count + 1) % 2 ^ 16) max (sub_size size packet_body_len)
          (off + packet_body_len) fb p) in
    if ltb count max
    then (if sends k then next else some (send p root_packet_len ∷ [], p))
    else some (send_rest count max size off fb m)

-- `root_send_photo(pRootMsg)`. `none` is a fault: without a frame the code asks for a reboot and goes
-- on to read through NULL.
pub root_send_photo :
    (ℕ → Bool)
    → (sock_open : Bool) (self_mac : List ℕ) → Option Frame
    → Store
    → Option (List Effect × Store)
root_send_photo sends false self_mac camera m = some ([], m)
root_send_photo sends true self_mac none m = none
root_send_photo sends true self_mac (some fb) m =
    photo_loop (2 ^ 16) sends 0 1 (max_count fb.len) fb.len 0 fb (put_bytes m RootMsg.addr self_mac)
