-- ===== src/Wire/DeviceVersion.antt =====
-- `device_version_t`: u8Data, u8Addr, u8VersionStr of main/include/common.h.
use esp32_mesh.Common.{ℕ, ◌+◌}
use esp32_mesh.Wire.Sizes.{addr_len}
use esp32_mesh.Wire.Msg

abbrev pub flag : ℕ
flag = Msg.body

abbrev pub addr : ℕ
addr = Msg.body + 1

abbrev pub version_str : ℕ
version_str = Msg.body + 1 + addr_len
