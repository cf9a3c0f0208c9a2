-- ===== src/Wire/LightColor.antt =====
-- `light_color_t` of main/include/common.h.
use esp32_mesh.Common.{ℕ}

abbrev pub off : ℕ
off = 0

abbrev pub blue : ℕ
blue = 1

abbrev pub red : ℕ
red = 2

abbrev pub green : ℕ
green = 3
