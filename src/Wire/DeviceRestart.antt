-- ===== src/Wire/DeviceRestart.antt =====
-- `device_restart_t`: u8Number, then the 10 addresses of tDevAddr of main/include/common.h.
use esp32_mesh.Common.{ℕ, ◌+◌}
use esp32_mesh.Wire.Msg

abbrev pub number : ℕ
number = Msg.body

abbrev pub dev_addr : ℕ
dev_addr = Msg.body + 1
