-- ===== src/Photo/Root/Packets.antt =====
-- What the root sends of its own photo is the photo, cut into numbered packets behind its address.

use esp32_mesh.Common.{
  ℕ, zero, suc, ◌+◌, ◌-◌, ◌*◌, ◌%◌, ◌^◌, ◌<◌, ◌≤◌, ◌≡◌, refl, ap, ◌∙◌, Bool, true, false, List, [],
  ◌∷◌, some, map, arith, length, get_or, ltb, ltb→lt, ◌==◌, ne→==, Bool-cases, inl, inr,
}
use mathlib.Core.Path.{subst}
use Prim.Native.Nat.{min}
use native.Mathlib.Numerals.{add-one}
use esp32_mesh.Common.Memory.{Store, memcpy, poke, poke16, peek16}
use esp32_mesh.Wire.NodePic
use esp32_mesh.Effect.{Effect, send, at}
use esp32_mesh.Message.{put_bytes, put_bytes_in}
use esp32_mesh.Photo.Frame.{Frame, sub_size}
use esp32_mesh.Photo.Chunk.{packet_count, IsChunk, Fits, max_count_lem}
use esp32_mesh.Photo.Root.{fill_packet, send_rest, photo_loop, root_send_photo}

-- A message that begins with this address.
abbrev pub HasAddress : List ℕ → Store → Type 0
HasAddress mac m = (a : ℕ) → a < 6 → m a ≡ get_or mac a 0

-- The messages are, behind this address, the packets from number `k` to the last, in order.
abbrev pub RootChunks : Frame → List ℕ → ℕ → List Store → Type 0
RootChunks fb mac k [] = k ≡ packet_count fb.len
RootChunks fb mac k (p ∷ ps) =
    HasAddress mac p × IsChunk fb k (at p 6) × RootChunks fb mac (suc k) ps

abbrev pub sent_all : List Store → List Effect
sent_all ps = map (λ p. send p 1436) ps

module _ (m : Store) (count max data_len : ℕ) (fb : Frame) (off : ℕ) where
  fill_packet_fields :
      count < 2 ^ 16
      → max < 2 ^ 16
      → data_len < 2 ^ 16
      → let q = at (fill_packet m count max data_len fb off) 6 in
        (peek16 q NodePic.count ≡ count)
        × (peek16 q NodePic.max_count ≡ max)
        × (peek16 q NodePic.data_len ≡ data_len)
        × ((i : ℕ) → i < 1424 → q (NodePic.body + i) ≡ fb.buf (off + i))
  unfolding fill_packet memcpy poke16 poke peek16
  fill_packet_fields h k l = (ground arith, ground arith, ground arith, λ i l. ground arith)

  fill_packet_out : (a : ℕ) → a < 6 → fill_packet m count max data_len fb off a ≡ m a
  unfolding fill_packet memcpy poke16 poke
  fill_packet_out a l = ground arith

module _ (fb : Frame) (fits : Fits fb) (mac : List ℕ) where
  -- A filled packet with the right numbers is that packet of the photo.
  fill_packet-IsChunk :
      (m : Store) (j data_len off : ℕ)
      → j < packet_count fb.len
      → data_len ≡ min 1424 (fb.len - 1424 * j)
      → off ≡ 1424 * j
      → HasAddress mac m
      → let p = fill_packet m (j + 1) (packet_count fb.len) data_len fb off in
        HasAddress mac p × IsChunk fb j (at p 6)
  fill_packet-IsChunk m j data_len off l e eo named =
      let (a, b, c, d) =
        fill_packet_fields m (j + 1) (packet_count fb.len) data_len fb off
          (omega (arith, fits.counted)) (omega (arith, fits.counted)) (omega arith) in
      (
        λ i h. fill_packet_out m (j + 1) (packet_count fb.len) data_len fb off i h ∙ named i h,
        record {
          inside = l;
          numbered = a;
          of_max = b;
          sized = c ∙ e;
          holds = λ i h. d i (omega (arith, h)) ∙ ap fb.buf (omega arith);
        },
      )

  -- The message behind the loop.
  send_rest-Chunks :
      (m : Store) (j : ℕ)
      → j + 1 ≡ packet_count fb.len
      → HasAddress mac m
      → (ps : List Store) × (((send_rest
              (j + 1)
              (packet_count fb.len)
              (fb.len - 1424 * j)
              (1424 * j)
              fb
              m).0
            ≡ sent_all ps)
          × RootChunks fb mac j ps)
  unfolding send_rest
  send_rest-Chunks m j last named =
      let rest = fb.len - 1424 * j in
      let some_left : (rest == 0) ≡ false = ne→== rest 0 (λ e. omega (arith, e, fits.not_empty)) in
      let small : rest % 2 ^ 16 ≡ rest = omega arith in
      let p = fill_packet m (j + 1) (packet_count fb.len) (rest % 2 ^ 16) fb (1424 * j) in
      let (named', chunk) =
        fill_packet-IsChunk m j (rest % 2 ^ 16) (1424 * j) (omega arith) (omega (arith, small)) refl
          named in
      (p ∷ [], (rw some_left refl, (named', chunk, omega arith)))

  photo_loop-Chunks :
      (f : ℕ) (sends : ℕ → Bool) (n j size off : ℕ) (m : Store)
      → ((i : ℕ) → sends i ≡ true)
      → packet_count fb.len < j + 1 + f
      → j + 1 ≤ packet_count fb.len
      → size ≡ fb.len - 1424 * j
      → off ≡ 1424 * j
      → HasAddress mac m
      → (ps : List Store) × ((m' : Store) × ((photo_loop f sends n
                (j + 1)
                (packet_count fb.len)
                size
                off
                fb
                m
              ≡ some (sent_all ps, m'))
            × RootChunks fb mac j ps))
  unfolding photo_loop
  photo_loop-Chunks zero sends n j size off m ok hf hj es eo named = absurd (omega arith)
  photo_loop-Chunks (suc f) sends n j size off m ok hf hj es eo named =
      elim (Bool-cases (ltb (j + 1) (packet_count fb.len))) [
        | inr done ↦
            let last : j + 1 ≡ packet_count fb.len = ground (arith, done, hj) in
            let (ps, (sent, chunks)) = send_rest-Chunks m j last named in
            let r = send_rest (j + 1) (packet_count fb.len) (fb.len - 1424 * j) (1424 * j) fb m in
            (ps, (r.1, (rw (es, eo, done) (ap (λ s. some (s, r.1)) sent), chunks)))
        | inl more ↦
            let below : j + 1 < packet_count fb.len = ltb→lt (j + 1) (packet_count fb.len) more in
            let p = fill_packet m (j + 1) (packet_count fb.len) 1424 fb off in
            let (named', chunk) =
              fill_packet-IsChunk m j 1424 off (omega arith) (omega arith) eo named in
            let (ps, (m', (runs, chunks))) =
              photo_loop-Chunks f sends (n + 1) (j + 1) (sub_size size 1424) (off + 1424) p ok
                (omega arith) (omega arith) (omega arith) (omega arith) named' in
            let wraps : (j + 1 + 1) % 2 ^ 16 ≡ j + 1 + 1 = omega (arith, fits.counted) in
            (
              p ∷ ps,
              (
                m',
                (
                  rw (more, ok n, wraps, runs) refl,
                  (named', chunk, subst (λ k. RootChunks fb mac k ps) (add-one j) chunks),
                ),
              ),
            )
      ]

-- With the socket open and every message taken, the root sends its photo of 1 byte to 65535 packets
-- whole: each message has 1436 bytes and begins with the root's address, and behind it are the
-- packets of the photo, numbered from 1 to the last, each with its part of the frame.
pub root_send_photo-Chunks :
    (sends : ℕ → Bool) (mac : List ℕ) (fb : Frame) (m : Store)
    → ((i : ℕ) → sends i ≡ true)
    → Fits fb
    → length mac ≡ 6
    → (ps : List Store) × ((m' : Store) × ((root_send_photo sends true mac (some fb) m
            ≡ some (sent_all ps, m'))
          × RootChunks fb mac 0 ps))
unfolding root_send_photo
root_send_photo-Chunks sends mac fb m ok fits six =
    let m1 = put_bytes m 0 mac in
    let named : HasAddress mac m1 = λ a l.
      put_bytes_in m 0 mac a (omega arith) (omega arith) ∙ ap (λ i. get_or mac i 0) (omega arith) in
    let (ps, (m', (runs, chunks))) =
      photo_loop-Chunks fb fits mac (2 ^ 16) sends 0 0 fb.len 0 m1 ok (omega (arith, fits.counted))
        (omega (arith, fits.not_empty)) (omega arith) (omega arith) named in
    (
      ps,
      (
        m',
        (
          ap (λ n. photo_loop (2 ^ 16) sends 0 1 n fb.len 0 fb m1) (max_count_lem fb fits) ∙ runs,
          chunks,
        ),
      ),
    )
