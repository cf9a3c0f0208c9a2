-- ===== src/Config/TestData.antt =====
-- Short values for the settings, for the tests.
use esp32_mesh.Common.{◌+◌, ◌≤◌, length, [], ◌∷◌, arith}
use esp32_mesh.Config.Items.{
  Item, name, router_ssid, mesh_id, server_ip, server_port, run_mode, max_layer, backoff_rssi,
}
use esp32_mesh.Config.Text.{Bytes}
use esp32_mesh.Config.File.{IsValue}

-- Each item has the value 2.
abbrev pub value : Item → Bytes
value i = 50 ∷ []

abbrev pub new_value : Bytes
new_value = 51 ∷ 52 ∷ []

name-fits : (i : Item) → length (name i) + 2 ≤ 125
name-fits router_ssid = omega arith
name-fits mesh_id = omega arith
name-fits server_ip = omega arith
name-fits server_port = omega arith
name-fits run_mode = omega arith
name-fits max_layer = omega arith
name-fits backoff_rssi = omega arith

pub value-IsValue : (i : Item) → IsValue i (value i)
value-IsValue i = record {
  no_nul = ((λ e. omega (arith, e)), tt);
  no_newline = ((λ e. omega (arith, e)), tt);
  fits = omega (arith, name-fits i);
}

pub new_value-IsValue : (i : Item) → IsValue i new_value
new_value-IsValue i = record {
  no_nul = ((λ e. omega (arith, e)), ((λ e. omega (arith, e)), tt));
  no_newline = ((λ e. omega (arith, e)), ((λ e. omega (arith, e)), tt));
  fits = omega (arith, name-fits i);
}
