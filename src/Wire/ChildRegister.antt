-- ===== src/Wire/ChildRegister.antt =====
-- `child_node_register_t`: u8Number, then the rows of u8RegPayload, of 21 bytes each of main/include/common.h.
use esp32_mesh.Common.{ℕ, ◌+◌}
use esp32_mesh.Wire.Sizes.{addr_len, max_version_name_len}
use esp32_mesh.Wire.Msg

abbrev pub number : ℕ
number = Msg.body

abbrev pub payload : ℕ
payload = Msg.body + 1

abbrev pub row : ℕ
row = addr_len + max_version_name_len
