-- ===== src/Wire/QueueMsg.antt =====
-- `msgqueue_type_t` of main/include/common.h.
use esp32_mesh.Common.{ℕ}

abbrev pub node_none : ℕ
node_none = 0

abbrev pub node_add : ℕ
node_add = 1

abbrev pub node_remove : ℕ
node_remove = 2

abbrev pub node_ping : ℕ
node_ping = 3
