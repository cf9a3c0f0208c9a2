-- ===== src/Wire/NodePic.antt =====
-- `node_pic_t`: u16Count, u16MaxCount, u16DataLen, u8Data of main/include/common.h.
use esp32_mesh.Common.{ℕ}

abbrev pub count : ℕ
count = 0

abbrev pub max_count : ℕ
max_count = 2

abbrev pub data_len : ℕ
data_len = 4

abbrev pub body : ℕ
body = 6
