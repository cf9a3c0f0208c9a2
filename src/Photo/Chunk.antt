-- ===== src/Photo/Chunk.antt =====
-- The packets that a photo is cut into: `node_pic_t` of main/include/common.h, as a specification.
use esp32_mesh.Common.{ℕ, suc, ◌+◌, ◌-◌, ◌*◌, ◌/◌, ◌<◌, ◌≤◌, ◌≡◌, List, [], ◌∷◌, none, some, arith}
use esp32_mesh.Common.Memory.{Store, peek16}
use esp32_mesh.Wire.NodePic
use esp32_mesh.Effect.{
  Effect, send, mesh_write, root_write, feed_dog_in, reboot, upgrade, start_ota, start_ota_read,
  gpio,
}
use esp32_mesh.Photo.Frame.{Frame, max_count}
use Prim.Native.Nat.{min}

-- How many packets a photo of `len` bytes takes, and how much of it the packet number `k` holds.
abbrev pub packet_count : ℕ → ℕ
packet_count len = (len + 1423) / 1424

abbrev pub chunk_len : ℕ → ℕ → ℕ
chunk_len len k = min 1424 (len - 1424 * k)

-- `p` is packet number `k`, from 0, of the photo, and holds its part of it.
pub record IsChunk (fb : Frame) (k : ℕ) (p : Store) : Type 0 where
  pub inside : k < packet_count fb.len
  pub numbered : peek16 p NodePic.count ≡ k + 1
  pub of_max : peek16 p NodePic.max_count ≡ packet_count fb.len
  pub sized : peek16 p NodePic.data_len ≡ chunk_len fb.len k
  pub holds : (i : ℕ) → i < chunk_len fb.len k → p (NodePic.body + i) ≡ fb.buf (1424 * k + i)

-- The packets are those from number `k` to the last, in order.
abbrev pub Chunks : Frame → ℕ → List Store → Type 0
Chunks fb k [] = k ≡ packet_count fb.len
Chunks fb k (p ∷ ps) = IsChunk fb k p × Chunks fb (suc k) ps

-- The packets among the calls made: what is written to the root.
abbrev pub packets : List Effect → List Store
packets [] = []
packets (mesh_write none p n ∷ es) = p ∷ packets es
packets (mesh_write (some a) p n ∷ es) = packets es
packets (send p n ∷ es) = packets es
packets (root_write a p n ∷ es) = packets es
packets (feed_dog_in n ∷ es) = packets es
packets (reboot ∷ es) = packets es
packets (upgrade a p n ∷ es) = packets es
packets (start_ota d ∷ es) = packets es
packets (start_ota_read ∷ es) = packets es
packets (gpio a b ∷ es) = packets es

-- A photo that the packet numbers can count: not empty, and at most 65535 packets long.
pub record Fits (fb : Frame) : Type 0 where
  pub not_empty : 0 < fb.len
  pub counted : fb.len ≤ 1424 * 65535

pub max_count_lem : (fb : Frame) → Fits fb → max_count fb.len ≡ packet_count fb.len
unfolding max_count
max_count_lem fb h = omega arith
