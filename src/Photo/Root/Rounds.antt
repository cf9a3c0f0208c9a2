-- ===== src/Photo/Root/Rounds.antt =====
-- The loop in which the root sends its own photo ends.
use esp32_mesh.Common.{
  ℕ, zero, suc, ◌+◌, ◌%◌, ◌^◌, ◌<◌, ◌≡◌, refl, Bool, true, false, List, [], ◌∷◌, some, arith, ltb,
  ltb→lt, Bool-cases, ◌⊎◌, inl, inr, Option,
}
use esp32_mesh.Common.Memory.{Store}
use esp32_mesh.Effect.{Effect, send}
use esp32_mesh.Message.{put_bytes}
use esp32_mesh.Photo.Frame.{Frame, max_count, sub_size}
use esp32_mesh.Photo.Root.{fill_packet, send_rest, photo_loop, root_send_photo}

photo_loop_total :
    (f : ℕ) (sends : ℕ → Bool) (k count max size off : ℕ) (fb : Frame) (m : Store)
    → max < 2 ^ 16
    → 0 < f
    → max < count + f
    → (r : List Effect × Store) × (photo_loop f sends k count max size off fb m ≡ some r)
unfolding photo_loop
photo_loop_total zero sends k count max size off fb m b pos l = absurd (omega (arith, pos))
photo_loop_total (suc f) sends k count max size off fb m b pos l =
    elim (Bool-cases (ltb count max)) [
      | inl more ↦
          let below : count < max = ltb→lt count max more in
          let p1 = fill_packet m count max 1424 fb off in
          let wraps : (count + 1) % 2 ^ 16 ≡ count + 1 = omega arith in
          let (r, runs) =
            photo_loop_total f sends (k + 1) ((count + 1) % 2 ^ 16) max (sub_size size 1424)
              (off + 1424) fb p1 b (omega arith) (omega (arith, wraps)) in
          elim (Bool-cases (sends k)) [
            | inl good ↦ ((send p1 1436 ∷ r.0, r.1), rw (more, good, runs) refl)
            | inr bad ↦ ((send p1 1436 ∷ [], p1), rw (more, bad) refl)
          ]
      | inr done ↦ (send_rest count max size off fb m, rw done refl)
    ]

pub root_send_photo_runs :
    (sends : ℕ → Bool) (self_mac : List ℕ) (fb : Frame) (sock_open : Bool) (m : Store)
    → (r : List Effect × Store) × (root_send_photo sends sock_open self_mac (some fb) m ≡ some r)
unfolding root_send_photo
root_send_photo_runs sends self_mac fb false m = (_, refl)
root_send_photo_runs sends self_mac fb true m =
    photo_loop_total (2 ^ 16) sends 0 1 (max_count fb.len) fb.len 0 fb (put_bytes m 0 self_mac)
      (unfold max_count in omega arith) (omega arith) (unfold max_count in omega arith)

-- Sending the root's own photo ends, where the socket is closed, with or without a frame, or the camera
-- gives a frame, of any length, and whether the messages can be sent or not. What the last packet reads
-- behind the end of the frame is taken as memory that can be read.
pub root_send_photo_total :
    (sends : ℕ → Bool) (self_mac : List ℕ) (camera : Option Frame) (sock_open : Bool) (m : Store)
    → (sock_open ≡ false) ⊎ ((fb : Frame) × (camera ≡ some fb))
    → (r : List Effect × Store) × (root_send_photo sends sock_open self_mac camera m ≡ some r)
unfolding root_send_photo
root_send_photo_total sends self_mac camera sock_open m (inl closed) = rw closed (_, refl)
root_send_photo_total sends self_mac camera sock_open m (inr (fb, given)) =
    rw given (root_send_photo_runs sends self_mac fb sock_open m)
