-- ===== src/Photo/Tests.antt =====
-- The theorems on photos, on a photo of 2000 bytes in two packets.
use esp32_mesh.Common.{
  ℕ, ◌*◌, ◌≡◌, refl, inr, true, false, List, [], ◌∷◌, some, arith, get_or, ltb, ◌==◌, if◌then◌else◌,
}
use esp32_mesh.Common.Memory.{Store, peek16, read}
use esp32_mesh.Effect.{Effect, send}
use esp32_mesh.Photo.Frame.{Frame}
use esp32_mesh.Photo.Chunk.{packet_count, Chunks, packets, Fits}
use esp32_mesh.Photo.Node.{Sent, mdf_ok, node_send_pic}
use esp32_mesh.Photo.Node.Chunks.{node_send_pic-Chunks}
use esp32_mesh.Photo.Gather.{Gather, receive_all}
use esp32_mesh.Photo.Gather.Slots.{photo_of}
use esp32_mesh.Photo.Gather.Faults.{IsAligned}
use esp32_mesh.Photo.Root.{root_send_photo}
use esp32_mesh.Photo.Root.Packets.{RootChunks, sent_all, root_send_photo-Chunks}
use esp32_mesh.Photo.Root.Rounds.{root_send_photo_total}
use esp32_mesh.Photo.Transfer.{node_send_pic-receive_all}

abbrev frame : Frame
frame = record { buf = λ a. a; len = 2000 }

frame-Fits : Fits frame
frame-Fits = record { not_empty = omega arith; counted = omega arith }

abbrev empty : Store
empty a = 0

abbrev sender : List ℕ
sender = 36 ∷ 10 ∷ 196 ∷ 1 ∷ 2 ∷ 3 ∷ []

abbrev accepts : ℕ → ℕ
accepts i = mdf_ok

abbrev at_rest : Gather
at_rest = record { mem = empty; msg = 0; cmd = 6; err_count = 0; started = false }

node_send_pic-receive_all_example :
    (sent : Sent) × (node_send_pic 257 accepts (some frame) empty ≡ some sent)
    × (sent.ret ≡ mdf_ok)
    × ((m : Store) × ((receive_all true sender at_rest (packets sent.effects)).1
          ≡ send m (1436 * packet_count frame.len) ∷ [])
        × (photo_of m 0 (packet_count frame.len) ≡ read frame.buf 0 frame.len))
node_send_pic-receive_all_example =
    node_send_pic-receive_all 257 accepts frame empty sender at_rest (omega arith) (omega arith)
      (λ i. refl) refl refl refl

node_send_pic-Chunks_example :
    (r : Sent) × (node_send_pic 257 accepts (some frame) empty ≡ some r)
    × (r.ret ≡ mdf_ok)
    × Chunks frame 0 (packets r.effects)
node_send_pic-Chunks_example = node_send_pic-Chunks 257 accepts frame empty frame-Fits (λ i. refl)

-- What the node of the example sends.
sent_packets : (ps : List Store) × Chunks frame 0 ps
sent_packets =
    let r = node_send_pic-Chunks 257 accepts frame empty frame-Fits (λ i. refl) in
    (packets r.0.effects, r.3)

at_rest-IsAligned : IsAligned at_rest
at_rest-IsAligned = record { on_slot = refl; together = refl }

-- Packet `count` of `max`, with nothing in it.
abbrev packet : ℕ → ℕ → Store
packet count max = λ a. if a == 0 then count else (if a == 2 then max else 0)

header :
    (count max : ℕ) → (peek16 (packet count max) 0 ≡ count) × (peek16 (packet count max) 2 ≡ max)
unfolding peek16
header count max = (omega arith, omega arith)

-- The root in slot 3 of a photo of the sender.
abbrev in_slot_3 : Gather
in_slot_3 = record {
  mem = λ a. if ltb a 6 then get_or sender a 0 else a;
  msg = 4308;
  cmd = 4314;
  err_count = 0;
  started = true;
}

root_send_photo_total_example :
    (r : List Effect × Store) × (root_send_photo (λ k. true) true sender (some frame) empty
      ≡ some r)
root_send_photo_total_example =
    root_send_photo_total (λ k. true) sender (some frame) true empty (inr (frame, refl))

root_send_photo-Chunks_example :
    (ps : List Store) × ((m' : Store) × ((root_send_photo (λ k. true) true sender (some frame) empty
          ≡ some (sent_all ps, m'))
        × RootChunks frame sender 0 ps))
root_send_photo-Chunks_example =
    root_send_photo-Chunks (λ k. true) sender frame empty (λ i. refl) frame-Fits refl
