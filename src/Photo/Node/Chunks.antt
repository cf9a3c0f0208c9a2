-- ===== src/Photo/Node/Chunks.antt =====
-- What a node sends is its photo, cut into numbered packets.
use mathlib.Core.Option
use mathlib.Core.Path.{subst}
use esp32_mesh.Common.{
  ℕ, zero, suc, ◌+◌, ◌-◌, ◌*◌, ◌<◌, ◌≤◌, ◌≡◌, ◌^◌, ◌%◌, refl, ap, sym, ◌∙◌, ◌≢◌, [], ◌∷◌, Option,
  none, some, arith, inl, inr, Bool-cases, ==_iff, ◌==◌, eq→==,
}
use esp32_mesh.Common.Memory.{Store, peek16, poke16, poke, memcpy}
use esp32_mesh.Wire.NodePic
use esp32_mesh.Effect.{feed_dog_in}
use esp32_mesh.Photo.Frame.{Frame, max_count, sub_size}
use esp32_mesh.Photo.Chunk.{packet_count, Chunks, packets, Fits, max_count_lem}
use esp32_mesh.Photo.Node.{Sent, send_last, send_loop, node_send_pic, mdf_ok, emit, write_packet}
use native.Mathlib.Numerals.{add-one}

-- The packet of one round of the loop: number and content are new, the other two fields stay.
module _ (p : Store) (count : ℕ) (buf : Store) (off n : ℕ) where
  abbrev pub filled : Store
  filled = memcpy (poke16 p NodePic.count count) NodePic.body buf off n

  pub filled_fields :
      count < 2 ^ 16
      → (peek16 filled NodePic.count ≡ count)
        × (peek16 filled NodePic.max_count ≡ peek16 p NodePic.max_count)
        × (peek16 filled NodePic.data_len ≡ peek16 p NodePic.data_len)
  unfolding memcpy poke16 poke peek16
  filled_fields h = ground arith

  pub filled-body : (i : ℕ) → i < n → filled (NodePic.body + i) ≡ buf (off + i)
  unfolding memcpy
  filled-body i h = ground arith

-- The packet behind the loop, whose length field is new as well.
module _ (p : Store) (count size : ℕ) (buf : Store) (off : ℕ) where
  abbrev last_header : Store
  last_header = poke16 (poke16 p NodePic.count count) NodePic.data_len (size % 2 ^ 16)

  abbrev last_packet : Store
  last_packet = memcpy last_header NodePic.body buf off (peek16 last_header NodePic.data_len)

  last_fields :
      count < 2 ^ 16
      → size < 2 ^ 16
      → (peek16 last_packet NodePic.count ≡ count)
        × (peek16 last_packet NodePic.max_count ≡ peek16 p NodePic.max_count)
        × (peek16 last_packet NodePic.data_len ≡ size)
        × ((i : ℕ) → i < size → last_packet (NodePic.body + i) ≡ buf (off + i))
  unfolding memcpy poke16 poke peek16
  last_fields h k = (ground arith, ground arith, ground arith, λ i l. ground arith)

module _ (fb : Frame) (fits : Fits fb) (write : ℕ → ℕ) (ok : (i : ℕ) → write i ≡ mdf_ok) where
  send_last-Chunks :
      (n k : ℕ) (p : Store)
      → k + 1 ≡ packet_count fb.len
      → peek16 p NodePic.max_count ≡ packet_count fb.len
      → Chunks fb k
          (packets (send_last write n fb (k + 1) (fb.len - 1424 * k) (1424 * k) p).effects)
  unfolding send_last
  send_last-Chunks n k p e m =
      let (a, b, c, d) =
        last_fields p (k + 1) (fb.len - 1424 * k) fb.buf (1424 * k) (omega arith) (omega arith) in
      (
        record {
          inside = omega arith;
          numbered = a;
          of_max = b ∙ m;
          sized = c ∙ omega arith;
          holds = λ i l. d i (omega arith);
        },
        omega arith,
      )

  -- From packet number `k` on the loop ends, with every write made and MDF_OK returned.
  send_loop-Chunks :
      (f n k : ℕ) (p : Store) (size off : ℕ)
      → packet_count fb.len < k + 1 + f
      → k + 1 ≤ packet_count fb.len
      → size ≡ fb.len - 1424 * k
      → off ≡ 1424 * k
      → peek16 p NodePic.max_count ≡ packet_count fb.len
      → peek16 p NodePic.data_len ≡ 1424
      → (r : Sent) × (send_loop f write n fb (packet_count fb.len) (k + 1) size off p ≡ some r)
        × (r.ret ≡ mdf_ok)
        × Chunks fb k (packets r.effects)
  unfolding send_loop
  send_loop-Chunks zero n k p size off hf hk es eo m d = absurd (omega arith)
  send_loop-Chunks (suc f) n k p size off hf hk es eo m d =
      elim (Bool-cases ((k + 1) == packet_count fb.len)) [
        | inl done ↦
            rw (es, eo, done)
              (
                send_last write n fb (k + 1) (fb.len - 1424 * k) (1424 * k) p,
                refl,
                unfold send_last in ok n,
                send_last-Chunks n k p ((==_iff _ _).0 done) m,
              )
        | inr more ↦
            let q = filled p (k + 1) fb.buf off 1424 in
            let (a, b, c) = filled_fields p (k + 1) fb.buf off 1424 (omega arith) in
            let left : k + 1 ≢ packet_count fb.len = λ e. cc (more, eq→== _ _ e) in
            let (r, runs, good, rest) =
              send_loop-Chunks f (n + 1) (k + 1) q (sub_size size 1424) (off + 1424) (omega arith)
                (omega arith) (omega arith) (omega arith) (b ∙ m) (c ∙ d) in
            let wraps : (k + 1 + 1) % 2 ^ 16 ≡ k + 1 + 1 = omega arith in
            (
              emit (write_packet q) r,
              rw (more, eq→== (write n) mdf_ok (ok n), wraps, runs),
              good,
              (
                record {
                  inside = omega arith;
                  numbered = a;
                  of_max = b ∙ m;
                  sized = c ∙ d ∙ omega arith;
                  holds = λ i l.
                      filled-body p (k + 1) fb.buf off 1424 i (omega arith)
                      ∙ ap fb.buf (omega arith);
                },
                subst (λ j. Chunks fb j (packets r.effects)) (add-one k) rest,
              ),
            )
      ]

-- With every write accepted, a node sends its photo of 1 byte to 65535 packets whole: the call
-- returns MDF_OK, and what it wrote to the root are the packets of the photo, numbered from 1 to the
-- last, each with its part of the frame, and nothing else.
pub node_send_pic-Chunks :
    (no_mem : ℕ) (write : ℕ → ℕ) (fb : Frame) (p : Store)
    → Fits fb
    → ((i : ℕ) → write i ≡ mdf_ok)
    → (r : Sent) × (node_send_pic no_mem write (some fb) p ≡ some r)
      × (r.ret ≡ mdf_ok)
      × Chunks fb 0 (packets r.effects)
unfolding node_send_pic
node_send_pic-Chunks no_mem write fb p fits ok =
    let start = poke16 (poke16 p NodePic.max_count (packet_count fb.len)) NodePic.data_len 1424 in
    let (r, runs, good, all) =
      send_loop-Chunks fb fits write ok (2 ^ 16) 0 0 start fb.len 0 (omega arith) (omega arith)
        (omega arith) refl (unfold poke16 poke peek16 in ground arith)
        (unfold poke16 poke peek16 in ground arith) in
    (
      emit (feed_dog_in 10) r,
      subst
          (λ max.
            Option.map (emit (feed_dog_in 10)) (
              send_loop (2 ^ 16) write 0 fb max 1 fb.len 0
                (poke16 (poke16 p NodePic.max_count max) NodePic.data_len 1424))
            ≡ some (emit (feed_dog_in 10) r))
          (sym (max_count_lem fb fits)) (ap (Option.map (emit (feed_dog_in 10))) runs),
      good,
      all,
    )

-- The loop ends within the rounds that a 16-bit counter has values, whatever the writes return.
send_loop_total :
    (f : ℕ) (write : ℕ → ℕ) (n : ℕ) (fb : Frame) (max count size off : ℕ) (p : Store)
    → max < 2 ^ 16
    → count < 2 ^ 16
    → (max + 2 ^ 16 - count) % 2 ^ 16 < f
    → (r : Sent) × (send_loop f write n fb max count size off p ≡ some r)
unfolding send_loop
send_loop_total zero write n fb max count size off p hm hc h = absurd (omega arith)
send_loop_total (suc f) write n fb max count size off p hm hc h = elim (Bool-cases (count == max)) [
  | inl done ↦ (send_last write n fb count size off p, rw done)
  | inr more ↦
      let q = filled p count fb.buf off 1424 in
      let left : count ≢ max = λ e. cc (more, eq→== _ _ e) in
      let (r, runs) =
        send_loop_total f write (n + 1) fb max ((count + 1) % 2 ^ 16) (sub_size size 1424)
          (off + 1424) q hm (omega arith) (omega arith) in
      elim (Bool-cases (write n == mdf_ok)) [
        | inl good ↦ (emit (write_packet q) r, rw (more, good, runs))
        | inr bad ↦
            (record { ret = write n; effects = write_packet q ∷ []; msg = q }, rw (more, bad))
      ]
]

-- `node_send_pic` ends, whatever the camera and the mesh do.
pub node_send_pic_total :
    (no_mem : ℕ) (write : ℕ → ℕ) (fb : Option Frame) (p : Store)
    → (r : Sent) × (node_send_pic no_mem write fb p ≡ some r)
unfolding node_send_pic
node_send_pic_total no_mem write none p = (record { ret = no_mem; effects = []; msg = p }, refl)
node_send_pic_total no_mem write (some fb) p =
    let max = max_count fb.len in
    let start = poke16 (poke16 p NodePic.max_count max) NodePic.data_len 1424 in
    let (r, runs) =
      send_loop_total (2 ^ 16) write 0 fb max 1 fb.len 0 start (unfold max_count in omega arith)
        (omega arith) (omega arith) in
    (emit (feed_dog_in 10) r, ap (Option.map (emit (feed_dog_in 10))) runs)
