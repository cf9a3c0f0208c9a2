-- ===== src/Photo/Gather/Faults.antt =====
-- Where the gathering of a photo goes wrong: a photo that another one interrupts, the addresses of the
-- later packets, and the end of the buffer.
use esp32_mesh.Common.{
  ℕ, zero, suc, ◌+◌, ◌*◌, ◌%◌, ◌<◌, ◌≤◌, ◌≡◌, refl, sym, ap, ◌∙◌, Bool, true, List, [], ◌∷◌, arith,
  length, bytes_eq, bytes_eq_iff, replicate,
}
use esp32_mesh.Common.Memory.{
  Store, memcpy, memcpy_out, peek16, of_bytes, read, read-memcpy, read-memcpy_out,
}
use esp32_mesh.Message.{read-of_bytes}
use esp32_mesh.Photo.Gather.{
  Gather, too_large, process_image, receive_packet, receive_all, first_packet, gather_started,
  keep_packet,
}
use esp32_mesh.Photo.Gather.Slots.{slot, header_read}

-- Nothing is written but the packet that is read and the address of the first slot.
mem-process_image :
    (open_ : Bool) (src : List ℕ) (s : Gather) (a : ℕ)
    → 6 ≤ a
    → (process_image open_ src s).0.mem a ≡ s.mem a
unfolding process_image too_large gather_started first_packet keep_packet memcpy
mem-process_image open_ src s a h = ground arith

-- Both pointers stand at one slot.
pub record IsAligned (s : Gather) : Type 0 where
  pub on_slot : s.msg % 1436 ≡ 0
  pub together : s.cmd ≡ s.msg + 6

first_sender :
    (src : List ℕ) (m : Store)
    → length src ≡ 6
    → bytes_eq (read (memcpy m 0 (of_bytes src) 0 6) 0 6) src ≡ true
first_sender src m six = (bytes_eq_iff _ src).1 (
    read-memcpy m 0 (of_bytes src) 0 6 0 6 (omega arith)
    ∙ ap (read (of_bytes src) 0) (sym six)
    ∙ read-of_bytes src)

process_image-IsAligned :
    (open_ : Bool) (src : List ℕ) (s : Gather)
    → length src ≡ 6
    → IsAligned s
    → IsAligned (process_image open_ src s).0
unfolding process_image too_large gather_started first_packet keep_packet
process_image-IsAligned open_ src s six v = ground (arith, first_sender src s.mem six)

receive_packet-IsAligned :
    (open_ : Bool) (src : List ℕ) (s : Gather) (p : Store)
    → length src ≡ 6
    → IsAligned s
    → IsAligned (receive_packet open_ src s p).0
unfolding receive_packet
receive_packet-IsAligned open_ src s p six v =
    process_image-IsAligned open_ src (record s { mem = memcpy s.mem s.cmd p 0 1430 }) six
      (record { on_slot = v.on_slot; together = v.together })

receive_packet-address :
    (open_ : Bool) (src : List ℕ) (s : Gather) (p : Store) (a : ℕ)
    → IsAligned s
    → 6 ≤ a
    → a % 1436 < 6
    → (receive_packet open_ src s p).0.mem a ≡ s.mem a
unfolding receive_packet
receive_packet-address open_ src s p a v h l =
    mem-process_image open_ src (record s { mem = memcpy s.mem s.cmd p 0 1430 }) a h
    ∙ memcpy_out s.mem s.cmd p 0 1430 a (omega (arith, v.on_slot, v.together))

-- Whatever packets the root gathers, the address field of every packet of the buffer but the first
-- keeps what it held before: only the first one gets the sender's address.
pub receive_all-address :
    (open_ : Bool) (src : List ℕ) (ps : List Store) (s : Gather) (j x : ℕ)
    → length src ≡ 6
    → IsAligned s
    → 0 < j
    → x < 6
    → (receive_all open_ src s ps).0.mem (1436 * j + x) ≡ s.mem (1436 * j + x)
unfolding receive_all
receive_all-address open_ src [] s j x six v h l = refl
receive_all-address open_ src (p ∷ ps) s j x six v h l =
    receive_all-address open_ src ps (receive_packet open_ src s p).0 j x six
      (receive_packet-IsAligned open_ src s p six v) h l
    ∙ receive_packet-address open_ src s p (1436 * j + x) v (omega arith) (omega arith)

new_photo :
    (open_ : Bool) (src : List ℕ) (s : Gather)
    → length src ≡ 6
    → peek16 s.mem (s.cmd + 0) ≡ 1
    → 1 < peek16 s.mem (s.cmd + 2)
    → peek16 s.mem (s.cmd + 2) ≤ 400
    → ((process_image open_ src s).0.started ≡ true) × ((process_image open_ src s).0.cmd ≡ 1442)
unfolding process_image too_large gather_started first_packet keep_packet
new_photo open_ src s six one more small = ground (arith, first_sender src s.mem six)

-- A new photo that begins while the root is still in slot `k + 1` of another: its first packet lands in
-- that slot and is not moved. The packet in the first slot, which is sent in its place, keeps the bytes
-- of the photo before, and the root goes on to read the second packet into the second slot.
pub interrupted_photo :
    (open_ : Bool) (src : List ℕ) (s : Gather) (p : Store) (k : ℕ)
    → length src ≡ 6
    → s.cmd ≡ slot (suc k)
    → peek16 p 0 ≡ 1
    → 1 < peek16 p 2
    → peek16 p 2 ≤ 400
    → let r = (receive_packet open_ src s p).0 in
      ((x : ℕ) → x < 1430 → r.mem (slot 0 + x) ≡ s.mem (slot 0 + x))
      × (r.started ≡ true)
      × (r.cmd ≡ slot 1)
unfolding receive_packet
interrupted_photo open_ src s p k six at_cmd one more small =
    let t : Gather = record s { mem = memcpy s.mem s.cmd p 0 1430 } in
    let (b, c) =
      new_photo open_ src t six (header_read s.mem s.cmd p 0 (omega arith) ∙ one)
        (rw (header_read s.mem s.cmd p 2 (omega arith)) more)
        (rw (header_read s.mem s.cmd p 2 (omega arith)) small) in
    (
      (λ x l.
          mem-process_image open_ src t (slot 0 + x) (omega arith)
          ∙ memcpy_out s.mem s.cmd p 0 1430 (slot 0 + x) (omega arith)),
      b,
      c,
    )

-- A packet that is neither the first nor the last of its photo, repeated.
more_of_photo :
    (open_ : Bool) (src : List ℕ) (s : Gather)
    → s.started ≡ true
    → bytes_eq (read s.mem 0 6) src ≡ true
    → 1 < peek16 s.mem (s.cmd + 0)
    → peek16 s.mem (s.cmd + 0) < peek16 s.mem (s.cmd + 2)
    → peek16 s.mem (s.cmd + 2) ≤ 400
    → process_image open_ src s
      ≡ (record s { err_count = 0; msg = s.msg + 1436; cmd = s.msg + 1436 + 6 }, [])
unfolding process_image too_large gather_started first_packet keep_packet
more_of_photo open_ src s b e one more small = ground arith

-- The root does not bound the slots by the number of packets: while a photo is being gathered, packets
-- of its sender with one and the same number, below the last, move it on by a slot each. After `n` of
-- them the next packet is read `n` slots further on, past the 400 slots of the buffer where `n` is
-- large enough.
pub receive_all_unbounded :
    (open_ : Bool) (src : List ℕ) (p : Store) (n k : ℕ) (s : Gather)
    → 1 < peek16 p 0
    → peek16 p 0 < peek16 p 2
    → peek16 p 2 ≤ 400
    → s.started ≡ true
    → read s.mem 0 6 ≡ src
    → s.msg ≡ 1436 * k
    → s.cmd ≡ slot k
    → (receive_all open_ src s (replicate n p)).0.cmd ≡ slot (k + n)
unfolding receive_all receive_packet
receive_all_unbounded open_ src p zero k s one more small b e at_msg at_cmd = omega arith
receive_all_unbounded open_ src p (suc n) k s one more small b e at_msg at_cmd =
    let m : Store = memcpy s.mem s.cmd p 0 1430 in
    let t : Gather = record s { mem = m } in
    let same : read m 0 6 ≡ src = read-memcpy_out s.mem s.cmd p 0 1430 0 6 (omega arith) ∙ e in
    let count = header_read s.mem s.cmd p 0 (omega arith) in
    let max = header_read s.mem s.cmd p 2 (omega arith) in
    let step =
      more_of_photo open_ src t b ((bytes_eq_iff _ src).1 same) (rw count one)
        (rw (count, max) more) (rw max small) in
    ap (λ r. (receive_all open_ src r.0 (replicate n p)).0.cmd) step
    ∙ receive_all_unbounded open_ src p n (k + 1)
        (record t { err_count = 0; msg = s.msg + 1436; cmd = s.msg + 1436 + 6 }) one more small b
        same (omega arith) (omega arith)
    ∙ omega arith
