-- ===== src/Wire/DeviceOta.antt =====
-- `device_ota_t`: name, u8Number, tOtaAddr of main/include/common.h.
use esp32_mesh.Common.{ℕ, ◌+◌}
use esp32_mesh.Wire.Msg

abbrev pub name : ℕ
name = Msg.body

abbrev pub number : ℕ
number = Msg.body + 32

abbrev pub addr : ℕ
addr = Msg.body + 33
