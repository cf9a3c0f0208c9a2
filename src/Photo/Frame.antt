-- ===== src/Photo/Frame.antt =====
-- The camera's frames, `camera_fb_t`, which the camera driver hands out.
use esp32_mesh.Common.{ℕ, ◌+◌, ◌-◌, ◌/◌, ◌%◌, ◌^◌}
use esp32_mesh.Common.Memory.{Store}
use esp32_mesh.Wire.{packet_body_len}

-- `buf` and `len`: the photo is the first `len` bytes of the region.
pub record Frame : Type 0 where
  pub buf : Store
  pub len : ℕ

-- uint16_t maxCount = (size + PACKET_BODY_LEN - 1) / PACKET_BODY_LEN, with a 32-bit `size_t`.
unfoldable pub max_count : ℕ → ℕ
max_count size = ((size + packet_body_len - 1) % 2 ^ 32 / packet_body_len) % 2 ^ 16

-- size -= dataLen
abbrev pub sub_size : ℕ → ℕ → ℕ
sub_size a b = (a + 2 ^ 32 - b) % 2 ^ 32
