-- ===== src/Photo/Gather/Slots.antt =====
-- The slots of the root's photo buffer: what a slot holds, what writing elsewhere leaves of it, and
-- the photo that a server puts together from the slots.
use esp32_mesh.Common.{
  ℕ, zero, suc, ◌+◌, ◌-◌, ◌*◌, ◌<◌, ◌≤◌, ◌≡◌, refl, sym, ap, ◌∙◌, List, [], ◌++◌, arith,
}
use mathlib.Core.Path.{ap₂}
use esp32_mesh.Common.Memory.{
  Store, memcpy, memcpy_in, peek16, peek16_congr, read, read_congr, read-append,
}
use esp32_mesh.Wire.NodePic
use esp32_mesh.Effect.{at}
use esp32_mesh.Photo.Frame.{Frame}
use esp32_mesh.Photo.Chunk.{packet_count, chunk_len, IsChunk}

-- The offset of the packet in slot `k`.
abbrev pub slot : ℕ → ℕ
slot k = 1436 * k + 6

-- The first `n` slots hold the first `n` packets of the photo.
abbrev pub Holds : Frame → ℕ → Store → Type 0
Holds fb n m = (j : ℕ) → j < n → IsChunk fb j (at m (slot j))

pub IsChunk-congr :
    (fb : Frame) (k : ℕ) (p q : Store)
    → ((x : ℕ) → x < 1430 → q x ≡ p x)
    → IsChunk fb k p
    → IsChunk fb k q
IsChunk-congr fb k p q h c = record {
  inside = c.inside;
  numbered = peek16_congr q p 0 0 (h 0 (omega arith)) (h 1 (omega arith)) ∙ c.numbered;
  of_max = peek16_congr q p 2 2 (h 2 (omega arith)) (h 3 (omega arith)) ∙ c.of_max;
  sized = peek16_congr q p 4 4 (h 4 (omega arith)) (h 5 (omega arith)) ∙ c.sized;
  holds = λ i l. h (6 + i) (omega arith) ∙ c.holds i l;
}

pub Holds-congr :
    (fb : Frame) (n : ℕ) (m m' : Store)
    → ((a : ℕ) → 6 ≤ a → a < 1436 * n → m' a ≡ m a)
    → Holds fb n m
    → Holds fb n m'
Holds-congr fb n m m' h c j l =
    IsChunk-congr fb j (at m (slot j)) (at m' (slot j))
      (λ x b. h (slot j + x) (omega arith) (omega arith)) (c j l)

-- The packet's header is read back from where the packet was put.
pub header_read :
    (m : Store) (cmd : ℕ) (p : Store) (o : ℕ)
    → o + 1 < 1430
    → peek16 (memcpy m cmd p 0 1430) (cmd + o) ≡ peek16 p o
header_read m cmd p o h =
    peek16_congr _ p (cmd + o) o
      (memcpy_in m cmd p 0 1430 (cmd + o) (omega arith) (omega arith) ∙ ap p (omega arith))
      (memcpy_in m cmd p 0 1430 (cmd + o + 1) (omega arith) (omega arith) ∙ ap p (omega arith))

-- The data of the packets in `n` slots from slot `k` on, put together as their length fields say.
pub photo_of : Store → ℕ → ℕ → List ℕ
photo_of m k zero = []
photo_of m k (suc n) =
    read m (slot k + NodePic.body) (peek16 m (slot k + NodePic.data_len)) ++ photo_of m (suc k) n

data_of_slot :
    (fb : Frame) (k : ℕ) (m : Store)
    → IsChunk fb k (at m (slot k))
    → read m (slot k + NodePic.body) (peek16 m (slot k + NodePic.data_len))
      ≡ read fb.buf (1424 * k) (chunk_len fb.len k)
data_of_slot fb k m c =
    ap (read m (slot k + 6))
      (peek16_congr m (at m (slot k)) (slot k + 4) 4 refl (ap m (omega arith)) ∙ c.sized)
    ∙ read_congr m fb.buf (slot k + 6) (1424 * k) (chunk_len fb.len k)
        (λ i l. ap m (omega arith) ∙ c.holds i l)

pub photo_of-Holds :
    (fb : Frame) (m : Store) (n k : ℕ)
    → Holds fb (packet_count fb.len) m
    → k + n ≡ packet_count fb.len
    → photo_of m k n ≡ read fb.buf (1424 * k) (fb.len - 1424 * k)
unfolding photo_of
photo_of-Holds fb m zero k h e =
    let none_left : fb.len - 1424 * k ≡ 0 = omega arith in
    sym (ap (read fb.buf (1424 * k)) none_left)
photo_of-Holds fb m (suc n) k h e =
    ap₂ ◌++◌ (data_of_slot fb k m (h k (omega arith)))
      (photo_of-Holds fb m n (suc k) h (omega arith))
    ∙ ap (λ r. read fb.buf (1424 * k) (chunk_len fb.len k) ++ r)
        (read_congr fb.buf fb.buf (1424 * suc k) (1424 * k + chunk_len fb.len k)
          (fb.len - 1424 * suc k) (λ i l. ap fb.buf (omega arith)))
    ∙ sym (read-append fb.buf (1424 * k) (chunk_len fb.len k) (fb.len - 1424 * suc k))
    ∙ ap (read fb.buf (1424 * k)) (omega arith)
