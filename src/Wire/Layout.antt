-- ===== src/Wire/Layout.antt =====
-- The packed structures of main/include/common.h, member by member: a structure is the sizes of its
-- members, which stand behind each other, and the members of a union begin at the same offset.
mod Tests
use esp32_mesh.Common.{ℕ, zero, suc, ◌+◌, ◌*◌, ◌-◌, List, [], ◌∷◌}
use esp32_mesh.Wire.Sizes.{
  addr_len, child_packet_len, packet_header_len, tcp_client_recv_len, max_version_name_len,
  max_mesh_size,
}

-- The union of `node_msg_t`.
pub data NodeBody : Type 0 where
  root_node_register child_node_register child_node_unregister resp_restart resp_light : NodeBody
  resp_setmode device_version resp_ota resp_ota_last root_ping : NodeBody

-- The union of `server_cmd_t`.
pub data ServerBody : Type 0 where
  device_restart device_ota device_light device_setmode : ServerBody

-- The members of each structure, their sizes written as there.
abbrev pub node_sizes : NodeBody → List ℕ
node_sizes root_node_register = 64 ∷ (child_packet_len - packet_header_len - 2 - 64) ∷ []
node_sizes child_node_register =
    1
    ∷ (max_mesh_size * (addr_len + max_version_name_len))
    ∷ (child_packet_len - packet_header_len - 3 - max_mesh_size * (addr_len + max_version_name_len))
    ∷ []
node_sizes child_node_unregister =
    1
    ∷ (max_mesh_size * addr_len)
    ∷ (child_packet_len - packet_header_len - 3 - addr_len * max_mesh_size)
    ∷ []
node_sizes resp_restart =
    1
    ∷ 1
    ∷ (max_mesh_size * addr_len)
    ∷ (child_packet_len - packet_header_len - 2 - 2 - addr_len * max_mesh_size)
    ∷ []
node_sizes resp_light = 1 ∷ (child_packet_len - packet_header_len - 2 - 1) ∷ []
node_sizes resp_setmode = 1 ∷ (child_packet_len - packet_header_len - 2 - 1) ∷ []
node_sizes device_version =
    1 ∷ addr_len ∷ (child_packet_len - packet_header_len - 2 - 1 - addr_len) ∷ []
node_sizes resp_ota = 1 ∷ (child_packet_len - packet_header_len - 2 - 1) ∷ []
node_sizes resp_ota_last = (child_packet_len - packet_header_len - 2) ∷ []
node_sizes root_ping =
    1 ∷ 6 ∷ 1 ∷ (20 * 6) ∷ (child_packet_len - packet_header_len - 2 - 1 - 6 - 1 - 120) ∷ []

abbrev pub server_sizes : ServerBody → List ℕ
server_sizes device_restart =
    1 ∷ (10 * 6) ∷ (tcp_client_recv_len - packet_header_len - 2 - 1 - 60) ∷ []
server_sizes device_ota =
    32 ∷ 1 ∷ (10 * 6) ∷ (tcp_client_recv_len - packet_header_len - 2 - 32 - 1 - 60) ∷ []
server_sizes device_light = 1 ∷ (tcp_client_recv_len - packet_header_len - 2 - 1) ∷ []
server_sizes device_setmode = 1 ∷ (tcp_client_recv_len - packet_header_len - 2 - 1) ∷ []

-- `node_pic_t`
abbrev pub node_pic_sizes : List ℕ
node_pic_sizes = 2 ∷ 2 ∷ 2 ∷ (child_packet_len - 6) ∷ []

-- sizeof
abbrev pub total : List ℕ → ℕ
total [] = 0
total (n ∷ ns) = n + total ns

-- offsetof, by the number of the member.
abbrev pub offset : List ℕ → ℕ → ℕ
offset [] i = 0
offset (n ∷ ns) zero = 0
offset (n ∷ ns) (suc i) = n + offset ns i

-- `node_msg_t` and `server_cmd_t` with one of their bodies, `root_msg_t`, and `serverqueue_msg_t`.
abbrev pub node_msg : NodeBody → List ℕ
node_msg b = packet_header_len ∷ 1 ∷ 1 ∷ node_sizes b

abbrev pub server_cmd : ServerBody → List ℕ
server_cmd b = packet_header_len ∷ 1 ∷ 1 ∷ server_sizes b

abbrev pub root_msg : NodeBody → List ℕ
root_msg b = addr_len ∷ node_msg b

abbrev pub serverqueue_msg : ServerBody → List ℕ
serverqueue_msg b = 1 ∷ 6 ∷ total (server_cmd b) ∷ []
