-- ===== src/Wire/RootMsg.antt =====
-- `root_msg_t`: u8Addr, then a `node_msg_t` of main/include/common.h.
use esp32_mesh.Common.{ℕ}

abbrev pub addr : ℕ
addr = 0

abbrev pub node : ℕ
node = 6
