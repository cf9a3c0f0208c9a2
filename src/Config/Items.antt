-- ===== src/Config/Items.antt =====
-- `config_items`, `config_values` and `system_config_t` of main/app_spiffs.c and main/include/app_spiffs.h.
use Prim.Native.String.{String}
use Prim.Native.Char.{code}
use esp32_mesh.Common.{ℕ, Bool, List, [], ◌∷◌, ◌==◌}

pub data Item : Type 0 where
  router_ssid mesh_id server_ip server_port run_mode max_layer backoff_rssi : Item

-- The bytes of an ASCII text.
abbrev pub codes : String → List ℕ
codes String.[] = []
codes (String.◌∷◌ c s) = code c ∷ codes s

-- `config_items`, whose order is that of the constructors.
abbrev pub name : Item → List ℕ
name router_ssid = codes "router_ssid"
name mesh_id = codes "mesh_id"
name server_ip = codes "server_ip"
name server_port = codes "server_port"
name run_mode = codes "run_mode"
name max_layer = codes "max_layer"
name backoff_rssi = codes "backoff_rssi"

-- `config_values`
abbrev pub default_value : Item → List ℕ
default_value router_ssid = codes "Frog"
default_value mesh_id = codes "FrogT12"
default_value server_ip = codes "192.168.200.34"
default_value server_port = codes "8888"
default_value run_mode = codes "2"
default_value max_layer = codes "3"
default_value backoff_rssi = codes "-78"

abbrev pub all_items : List Item
all_items =
    router_ssid ∷ mesh_id ∷ server_ip ∷ server_port ∷ run_mode ∷ max_layer ∷ backoff_rssi ∷ []

abbrev pub index : Item → ℕ
index router_ssid = 0
index mesh_id = 1
index server_ip = 2
index server_port = 3
index run_mode = 4
index max_layer = 5
index backoff_rssi = 6

abbrev pub item_eq : Item → Item → Bool
item_eq i j = index i == index j

-- `system_config_t`: each member is the bytes of its array.
pub record SystemConfig : Type 0 where
  pub router_ssid : List ℕ
  pub mesh_id : List ℕ
  pub server_ip : List ℕ
  pub backoff_rssi : List ℕ
  pub run_mode : List ℕ
  pub server_port : List ℕ
  pub max_layer : List ℕ

-- sizeof of the members
abbrev pub size_of : Item → ℕ
size_of router_ssid = 32
size_of mesh_id = 6
size_of server_ip = 16
size_of backoff_rssi = 6
size_of run_mode = 2
size_of server_port = 6
size_of max_layer = 2

abbrev pub field : Item → SystemConfig → List ℕ
field router_ssid c = c.router_ssid
field mesh_id c = c.mesh_id
field server_ip c = c.server_ip
field backoff_rssi c = c.backoff_rssi
field run_mode c = c.run_mode
field server_port c = c.server_port
field max_layer c = c.max_layer

abbrev pub set_field : Item → List ℕ → SystemConfig → SystemConfig
set_field router_ssid v c = record c { router_ssid = v }
set_field mesh_id v c = record c { mesh_id = v }
set_field server_ip v c = record c { server_ip = v }
set_field backoff_rssi v c = record c { backoff_rssi = v }
set_field run_mode v c = record c { run_mode = v }
set_field server_port v c = record c { server_port = v }
set_field max_layer v c = record c { max_layer = v }
