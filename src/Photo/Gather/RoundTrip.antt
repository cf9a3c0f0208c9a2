-- ===== src/Photo/Gather/RoundTrip.antt =====
-- A photo that a node sends and the root gathers reaches the server whole.
use mathlib.Core.Path.{subst}
use mathlib.Core.List.{append-nil}
use esp32_mesh.Common.{
  ℕ, zero, suc, ◌+◌, ◌*◌, ◌<◌, ◌≤◌, ◌≡◌, refl, sym, ap, ◌∙◌, Bool, true, false, List, [], ◌∷◌,
  arith, dec_lt, length, bytes_eq, bytes_eq_iff, ◌==◌, ltb, if◌then◌else◌, eq→==, ne→==,
}
use esp32_mesh.Common.Memory.{
  Store, memcpy, memcpy_in, memcpy_out, peek16, of_bytes, read, read-memcpy, read-memcpy_out,
}
use esp32_mesh.Effect.{send, at}
use esp32_mesh.Photo.Frame.{Frame}
use esp32_mesh.Photo.Chunk.{packet_count, IsChunk, Chunks}
use esp32_mesh.Message.{read-of_bytes}
use esp32_mesh.Photo.Gather.{
  Gather, rewind, process_image, receive_packet, receive_all, first_packet, gather_started,
  keep_packet,
}
use esp32_mesh.Photo.Gather.Slots.{
  slot, Holds, IsChunk-congr, Holds-congr, photo_of, photo_of-Holds, header_read,
}

module _ (fb : Frame) (src : List ℕ) where
  -- The root waits for packet number `k`, from 0, of the photo: it reads into slot `k`, and the slots
  -- before that hold the packets so far, under the sender's address.
  pub record IsWaiting (k : ℕ) (s : Gather) : Type 0 where
    pub msg_at : s.msg ≡ 1436 * k
    pub cmd_at : s.cmd ≡ slot k
    pub slots : Holds fb k s.mem
    pub begun : 0 < k → (s.started ≡ true) × (read s.mem 0 6 ≡ src)

  -- The same when packet number `k` has been read and is known to be from this sender.
  record Landed (k : ℕ) (s : Gather) : Type 0 where
    msg_at : s.msg ≡ 1436 * k
    slots : Holds fb (suc k) s.mem
    begun : s.started ≡ true
    sender : read s.mem 0 6 ≡ src

  -- The packet is read into its slot; the others keep theirs.
  slots_after_read :
      (k : ℕ) (m p : Store) (cmd : ℕ)
      → cmd ≡ slot k
      → IsChunk fb k p
      → Holds fb k m
      → Holds fb (suc k) (memcpy m cmd p 0 1430)
  slots_after_read k m p cmd at_slot c h j l = elim (dec_lt j k) [
    | yes before ↦
        Holds-congr fb k m (memcpy m cmd p 0 1430)
          (λ a b d. memcpy_out m cmd p 0 1430 a (omega arith)) h j before
    | no this ↦
        let e : k ≡ j = omega arith in
        IsChunk-congr fb j p (at (memcpy m cmd p 0 1430) (slot j))
          (λ x b.
            memcpy_in m cmd p 0 1430 (slot j + x) (omega arith) (omega arith) ∙ ap p (omega arith))
          (subst (λ n. IsChunk fb n p) e c)
  ]

  landed :
      (k : ℕ) (s : Gather) (p : Store)
      → length src ≡ 6
      → IsWaiting k s
      → IsChunk fb k p
      → Landed k (first_packet src (k + 1) (record s { mem = memcpy s.mem s.cmd p 0 1430 }))
  unfolding first_packet
  landed zero s p six w c =
      let read_in : Store = memcpy s.mem s.cmd p 0 1430 in
      record {
        msg_at = omega arith;
        slots =
            Holds-congr fb 1 read_in (memcpy read_in 0 (of_bytes src) 0 6)
              (λ a b d. memcpy_out read_in 0 (of_bytes src) 0 6 a (omega arith))
              (slots_after_read 0 s.mem p s.cmd w.cmd_at c w.slots);
        begun = refl;
        sender =
            read-memcpy read_in 0 (of_bytes src) 0 6 0 6 (omega arith)
            ∙ ap (read (of_bytes src) 0) (sym six)
            ∙ read-of_bytes src;
      }
  landed (suc k) s p six w c = rw (ne→== (suc k + 1) 1 (omega arith)) (record {
    msg_at = w.msg_at;
    slots = slots_after_read (suc k) s.mem p s.cmd w.cmd_at c w.slots;
    begun = (w.begun (omega arith)).0;
    sender =
        read-memcpy_out s.mem s.cmd p 0 1430 0 6 (omega (arith, w.cmd_at))
        ∙ (w.begun (omega arith)).1;
  })

process_image_lem :
    (open_ : Bool) (src : List ℕ) (s : Gather) (count max : ℕ)
    → peek16 s.mem (s.cmd + 2) ≡ max
    → peek16 s.mem (s.cmd + 0) ≡ count
    → max ≤ 400
    → process_image open_ src s ≡ gather_started open_ src count max (first_packet src count s)
unfolding process_image
process_image_lem open_ src s count max hm hc small = rw (hm, hc, at_most small)
  where
    at_most : {m : ℕ} → m ≤ 400 → ltb 400 m ≡ false
    at_most h = ground arith

module _ (fb : Frame) (src : List ℕ) (open_ : Bool) where
  kept :
      (s : Gather)
      → read s.mem 0 6 ≡ src
      → keep_packet src s ≡ record s { err_count = 0; msg = s.msg + 1436; cmd = s.msg + 1436 + 6 }
  unfolding keep_packet
  kept s e =
      let same : bytes_eq (read s.mem 0 6) src ≡ true = (bytes_eq_iff (read s.mem 0 6) src).1 e in
      ground (arith, same)

  started_lem :
      (count max : ℕ) (s : Gather)
      → s.started ≡ true
      → (count == max) ≡ false
      → gather_started open_ src count max s ≡ (keep_packet src s, [])
  unfolding gather_started
  started_lem count max s b n = ground (arith, b, n)

  more_to_come :
      (k : ℕ) (s : Gather) (max : ℕ)
      → Landed fb src k s
      → suc k < max
      → (r : Gather) × (gather_started open_ src (k + 1) max s ≡ (r, []))
        × IsWaiting fb src (suc k) r
  more_to_come k s max l h = (
    record s { err_count = 0; msg = s.msg + 1436; cmd = s.msg + 1436 + 6 },
    started_lem (k + 1) max s l.begun (ne→== (k + 1) max (omega arith))
        ∙ ap (λ r. (r, [])) (kept s l.sender),
    record {
      msg_at = omega (arith, l.msg_at);
      cmd_at = omega (arith, l.msg_at);
      slots = l.slots;
      begun = λ _. (l.begun, l.sender);
    },
  )

  photo_complete :
      (k : ℕ) (s : Gather) (max : ℕ)
      → Landed fb src k s
      → suc k ≡ max
      → gather_started open_ src (k + 1) max s
        ≡ (rewind s, if open_ then send s.mem (1436 * (k + 1)) ∷ [] else [])
  unfolding gather_started
  photo_complete k s max l h = rw (l.begun, eq→== (k + 1) max (omega arith))

  module _ (six : length src ≡ 6) (small : packet_count fb.len ≤ 400) where
    receive_lem :
        (k : ℕ) (s : Gather) (p : Store)
        → IsWaiting fb src k s
        → IsChunk fb k p
        → receive_packet open_ src s p
          ≡ gather_started open_ src
              (k + 1)
              (packet_count fb.len)
              (first_packet src (k + 1) (record s { mem = memcpy s.mem s.cmd p 0 1430 }))
    unfolding receive_packet
    receive_lem k s p w c =
        process_image_lem open_ src (record s { mem = memcpy s.mem s.cmd p 0 1430 }) (k + 1)
          (packet_count fb.len) (header_read s.mem s.cmd p 2 (omega arith) ∙ c.of_max)
          (header_read s.mem s.cmd p 0 (omega arith) ∙ c.numbered) small

    no_more : (k : ℕ) (ps : List Store) → k ≡ packet_count fb.len → Chunks fb k ps → ps ≡ []
    no_more k [] e cs = refl
    no_more k (p ∷ ps) e cs = absurd (omega (arith, cs.0.inside))

    -- From packet number `k` on: one message leaves, with all of the packets, and the root is ready
    -- for the next photo.
    receive_all_lem :
        (k : ℕ) (ps : List Store) (s : Gather)
        → k < packet_count fb.len
        → IsWaiting fb src k s
        → Chunks fb k ps
        → (r : Gather) × (receive_all open_ src s ps
            ≡ (rewind r, if open_ then send r.mem (1436 * packet_count fb.len) ∷ [] else []))
          × Holds fb (packet_count fb.len) r.mem
    unfolding receive_all
    receive_all_lem k [] s h w c = absurd (omega arith)
    receive_all_lem k (p ∷ ps) s h w (c, cs) =
        let l = landed fb src k s p six w c in
        let s1 = first_packet src (k + 1) (record s { mem = memcpy s.mem s.cmd p 0 1430 }) in
        elim (dec_lt (suc k) (packet_count fb.len)) [
          | yes more ↦
              let (s2, now, waits) = more_to_come k s1 (packet_count fb.len) l more in
              let (r, later, all) = receive_all_lem (suc k) ps s2 more waits cs in
              (r, rw (receive_lem k s p w c ∙ now) later, all)
          | no last ↦
              let e : suc k ≡ packet_count fb.len = omega arith in
              (
                s1,
                rw (no_more (suc k) ps e cs, receive_lem k s p w c ∙ photo_complete k s1 _ l e)
                    (ap (λ es. (rewind s1, es))
                      (append-nil _
                        ∙ ap (λ n. if open_ then send s1.mem (1436 * n) ∷ [] else [])
                            (omega arith))),
                subst (λ n. Holds fb n s1.mem) e l.slots,
              )
        ]

-- The root at the start of its buffer with the socket open reads, from one sender and in order, the
-- packets of a photo that is not empty and has at most 400 packets: the only call it makes sends the
-- buffer to the server, as many packets long as the photo has, and the data in those packets, put
-- together, is the photo. Both pointers are back at the start.
pub receive_all-photo :
    (fb : Frame) (src : List ℕ) (ps : List Store) (s : Gather)
    → length src ≡ 6
    → 0 < fb.len
    → packet_count fb.len ≤ 400
    → s.msg ≡ 0
    → s.cmd ≡ 6
    → Chunks fb 0 ps
    → (r : Gather) × ((receive_all true src s ps).1 ≡ send r.mem (1436 * packet_count fb.len) ∷ [])
      × (photo_of r.mem 0 (packet_count fb.len) ≡ read fb.buf 0 fb.len)
      × ((receive_all true src s ps).0.msg ≡ 0)
      × ((receive_all true src s ps).0.cmd ≡ 6)
receive_all-photo fb src ps s six some_ small at_msg at_cmd cs =
    let idle : IsWaiting fb src 0 s = record {
      msg_at = at_msg;
      cmd_at = at_cmd;
      slots = λ j l. absurd (omega arith);
      begun = λ l. absurd (omega arith);
    } in
    let (r, runs, all) = receive_all_lem fb src true six small 0 ps s (omega arith) idle cs in
    (
      r,
      ap (λ x. x.1) runs,
      photo_of-Holds fb r.mem (packet_count fb.len) 0 all (omega arith)
          ∙ ap (read fb.buf 0) (omega arith),
      ap (λ x. x.0.msg) runs,
      ap (λ x. x.0.cmd) runs,
    )
