-- ===== src/Wire/BusStatus.antt =====
-- `bus_status_t` of main/include/common.h.
use esp32_mesh.Common.{ℕ}

abbrev pub ota_updating : ℕ
ota_updating = 100

abbrev pub restart_error : ℕ
restart_error = 200
