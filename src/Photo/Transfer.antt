-- ===== src/Photo/Transfer.antt =====
-- A photo from the camera of a node to the socket of the root.
use esp32_mesh.Common.{ℕ, ◌*◌, ◌<◌, ◌≤◌, ◌≡◌, true, List, [], ◌∷◌, some, arith, length}
use esp32_mesh.Common.Memory.{Store, read}
use esp32_mesh.Effect.{send}
use esp32_mesh.Photo.Frame.{Frame}
use esp32_mesh.Photo.Chunk.{packet_count, packets}
use esp32_mesh.Photo.Node.{Sent, node_send_pic, mdf_ok}
use esp32_mesh.Photo.Node.Chunks.{node_send_pic-Chunks}
use esp32_mesh.Photo.Gather.{Gather, receive_all}
use esp32_mesh.Photo.Gather.Slots.{photo_of}
use esp32_mesh.Photo.Gather.RoundTrip.{receive_all-photo}

-- A photo that is not empty and has at most 400 packets, whose writes the mesh accepts and delivers
-- in order to a root that waits at the start of its buffer with the socket open, reaches the server
-- in one message: the node returns MDF_OK, and the data in the packets of the message, put together,
-- is the photo.
pub node_send_pic-receive_all :
    (no_mem : ℕ) (write : ℕ → ℕ) (fb : Frame) (p : Store) (src : List ℕ) (s : Gather)
    → 0 < fb.len
    → packet_count fb.len ≤ 400
    → ((i : ℕ) → write i ≡ mdf_ok)
    → length src ≡ 6
    → s.msg ≡ 0
    → s.cmd ≡ 6
    → (sent : Sent) × (node_send_pic no_mem write (some fb) p ≡ some sent)
      × (sent.ret ≡ mdf_ok)
      × ((m : Store) × ((receive_all true src s (packets sent.effects)).1
            ≡ send m (1436 * packet_count fb.len) ∷ [])
          × (photo_of m 0 (packet_count fb.len) ≡ read fb.buf 0 fb.len))
node_send_pic-receive_all no_mem write fb p src s some_ small ok six at_msg at_cmd =
    let (sent, runs, good, all) =
      node_send_pic-Chunks no_mem write fb p (record { not_empty = some_; counted = omega arith })
        ok in
    let (r, one, photo, at_msg_again, at_cmd_again) =
      receive_all-photo fb src (packets sent.effects) s six some_ small at_msg at_cmd all in
    (sent, runs, good, (r.mem, one, photo))
