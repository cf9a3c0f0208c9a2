-- ===== src/Wire/Msg.antt =====
-- `node_msg_t` and `server_cmd_t`: u8Header, u8Type, u8Cmd, then the union of main/include/common.h.
use esp32_mesh.Common.{ℕ}

abbrev pub header : ℕ
header = 0

abbrev pub type : ℕ
type = 6

abbrev pub cmd : ℕ
cmd = 7

abbrev pub body : ℕ
body = 8
