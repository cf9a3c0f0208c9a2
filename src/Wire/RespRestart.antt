-- ===== src/Wire/RespRestart.antt =====
-- `resp_restart_t`: u8Response, u8Number, u8DevAddr of main/include/common.h.
use esp32_mesh.Common.{ℕ, ◌+◌}
use esp32_mesh.Wire.Msg

abbrev pub response : ℕ
response = Msg.body

abbrev pub number : ℕ
number = Msg.body + 1

abbrev pub dev_addr : ℕ
dev_addr = Msg.body + 2
