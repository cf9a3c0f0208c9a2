-- ===== src/Wire/BusCmd.antt =====
-- `bus_cmd_t` of main/include/common.h.
use esp32_mesh.Common.{ℕ}

abbrev pub ota : ℕ
ota = 1

abbrev pub restart : ℕ
restart = 2

abbrev pub pic : ℕ
pic = 3

abbrev pub led : ℕ
led = 4

abbrev pub root_register : ℕ
root_register = 5

abbrev pub node_register : ℕ
node_register = 6

abbrev pub node_unregister : ℕ
node_unregister = 7

abbrev pub ping : ℕ
ping = 8

abbrev pub switch : ℕ
switch = 9

abbrev pub root_send_ping : ℕ
root_send_ping = 10
