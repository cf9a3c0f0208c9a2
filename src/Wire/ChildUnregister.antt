-- ===== src/Wire/ChildUnregister.antt =====
-- `child_node_unregister_t`: u8Number, the 20 addresses of u8DevMac, and u8Dummy of main/include/common.h.
use esp32_mesh.Common.{ℕ, ◌+◌, ◌*◌}
use esp32_mesh.Wire.Sizes.{addr_len, max_mesh_size}
use esp32_mesh.Wire.Msg

abbrev pub number : ℕ
number = Msg.body

abbrev pub dev_mac : ℕ
dev_mac = Msg.body + 1

abbrev pub dummy : ℕ
dummy = Msg.body + 1 + addr_len * max_mesh_size
