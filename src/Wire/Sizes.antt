-- ===== src/Wire/Sizes.antt =====
-- The sizes of main/include/common.h, in bytes and entries.
use esp32_mesh.Common.{ℕ, ◌+◌, ◌-◌}

-- MWIFI_ADDR_LEN, of mwifi.h: a MAC address.
abbrev pub addr_len : ℕ
addr_len = 6

abbrev pub child_packet_len : ℕ
child_packet_len = 1430

abbrev pub root_packet_len : ℕ
root_packet_len = child_packet_len + addr_len

abbrev pub packet_header_len : ℕ
packet_header_len = 6

abbrev pub packet_body_len : ℕ
packet_body_len = child_packet_len - packet_header_len

abbrev pub tcp_client_recv_len : ℕ
tcp_client_recv_len = 101

abbrev pub photo_packet_max_count : ℕ
photo_packet_max_count = 400

abbrev pub ota_name_len : ℕ
ota_name_len = 31

abbrev pub max_version_name_len : ℕ
max_version_name_len = 15

abbrev pub max_mesh_size : ℕ
max_mesh_size = 20

abbrev pub root_send_ping_interval : ℕ
root_send_ping_interval = 8
