-- ===== src/Photo/Node.antt =====
-- `node_send_pic` of main/node_task.c: a node sends its frame to the root in packets.
pub mod Chunks
use mathlib.Core.Option
use esp32_mesh.Common.{
  ℕ, zero, suc, ◌+◌, ◌-◌, ◌%◌, ◌^◌, List, [], ◌∷◌, Option, none, some, ◌==◌, if◌then◌else◌,
}
use esp32_mesh.Common.Memory.{Store, memcpy, poke16, peek16}
use esp32_mesh.Wire.{child_packet_len, packet_body_len}
use esp32_mesh.Wire.NodePic
use esp32_mesh.Effect.{Effect, mesh_write, feed_dog_in}
use esp32_mesh.Photo.Frame.{Frame, max_count, sub_size}

-- The return value, the calls made, and the message buffer at the end.
pub record Sent : Type 0 where
  pub ret : ℕ
  pub effects : List Effect
  pub msg : Store

abbrev emit : Effect → Sent → Sent
emit e s = record s { effects = e ∷ s.effects }

abbrev write_packet : Store → Effect
write_packet p = mesh_write none p child_packet_len

-- MDF_OK and MDF_ERR_NO_MEM; the model uses of the second only that it is not the first.
abbrev pub mdf_ok : ℕ
mdf_ok = 0

-- Lines 125 to 136: the packet behind the loop, which holds what is left of the frame.
send_last : (ℕ → ℕ) → ℕ → Frame → (count size off : ℕ) → Store → Sent
send_last write n fb count size off p =
    let p1 = poke16 (poke16 p NodePic.count count) NodePic.data_len (size % 2 ^ 16) in
    let p2 = memcpy p1 NodePic.body fb.buf off (peek16 p1 NodePic.data_len) in
    record { ret = write n; effects = feed_dog_in 10 ∷ write_packet p2 ∷ []; msg = p2 }

-- The loop, with fuel; `write n` is what the n-th `mwifi_write` of this call returns, `off` is how far
-- `buffer` has moved. A write that fails leaves by FREE_MEM.
send_loop : ℕ → (ℕ → ℕ) → ℕ → Frame → (max count size off : ℕ) → Store → Option Sent
unfolding send_last
send_loop zero write n fb max count size off p = none
send_loop (suc f) write n fb max count size off p =
    let p1 = memcpy (poke16 p NodePic.count count) NodePic.body fb.buf off packet_body_len in
    let next = Option.map (emit (write_packet p1)) (
      send_loop f write (n + 1) fb max ((count + 1) % 2 ^ 16) (sub_size size packet_body_len)
        (off + packet_body_len) p1) in
    if count == max
    then some (send_last write n fb count size off p)
    else (if write n == mdf_ok
        then next
        else some (record { ret = write n; effects = write_packet p1 ∷ []; msg = p1 }))

-- `node_send_pic(pnodemsg)`; the frame is `none` where the camera has none, `no_mem` is
-- MDF_ERR_NO_MEM. `count` has 16 bits, so 2 ^ 16 rounds pass every value that ends the loop.
pub node_send_pic : ℕ → (ℕ → ℕ) → Option Frame → Store → Option Sent
node_send_pic no_mem write none p = some (record { ret = no_mem; effects = []; msg = p })
node_send_pic no_mem write (some fb) p =
    let max = max_count fb.len in
    let p1 = poke16 (poke16 p NodePic.max_count max) NodePic.data_len packet_body_len in
    Option.map (emit (feed_dog_in 10)) (send_loop (2 ^ 16) write 0 fb max 1 fb.len 0 p1)
