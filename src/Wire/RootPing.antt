-- ===== src/Wire/RootPing.antt =====
-- `root_ping_t`: u8Force, u8RootMac, u8NodeCount, u8NodeMac of main/include/common.h.
use esp32_mesh.Common.{ℕ, ◌+◌}
use esp32_mesh.Wire.Msg

abbrev pub force : ℕ
force = Msg.body

abbrev pub root_mac : ℕ
root_mac = Msg.body + 1

abbrev pub node_count : ℕ
node_count = Msg.body + 7

abbrev pub node_mac : ℕ
node_mac = Msg.body + 8
