-- ===== src/Wire/BusType.antt =====
-- `bus_type_t` of main/include/common.h.
use esp32_mesh.Common.{ℕ}

abbrev pub request : ℕ
request = 1

abbrev pub response : ℕ
response = 2
