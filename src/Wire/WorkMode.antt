-- ===== src/Wire/WorkMode.antt =====
-- `work_mode_t` of main/include/common.h.
use esp32_mesh.Common.{ℕ}

abbrev pub debug : ℕ
debug = 1

abbrev pub production : ℕ
production = 2

abbrev pub max : ℕ
max = 3
