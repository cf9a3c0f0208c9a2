-- ===== src/Start.antt =====
-- `app_main` and `event_handler` of main/router.c: what a device starts as, from its settings. The drivers
-- and the network stack are not in main/.
pub mod Modes
pub mod Setup
mod Tests
use esp32_mesh.Common.{
  ℕ, zero, suc, ◌+◌, ◌-◌, ◌/◌, ◌%◌, Bool, true, false, List, [], ◌∷◌, ◌++◌, replicate, get_or,
  length, ltb, bytes_eq, if◌then◌else◌,
}
use esp32_mesh.Config.Text.{Bytes, cstr}
use esp32_mesh.Config.Items.{codes, SystemConfig}
use esp32_mesh.Config.Reading.{zeroed}
use esp32_mesh.Config.{Files, system_config_init, get_system_config}
use esp32_mesh.DevList.{Mac}
use esp32_mesh.Httpd.Control.{atoi}

-- memcpy of a text without its end into a zeroed array of this size.
abbrev pub copied : (size : ℕ) → Bytes → Bytes
copied size text = text ++ replicate (size - length text) 0

-- `mconfig`, ConfigServerIp and ConfigServerPort. The passwords are those of sdkconfig.
pub record MeshConfig : Type 0 where
  pub router_ssid : Bytes
  pub router_password : Bytes
  pub mesh_id : Bytes
  pub mesh_password : Bytes
  pub server_ip : Bytes
  pub server_port : ℕ

-- The web server of a station, or a node of the mesh, with its mconfig.
pub data Started : Type 0 where
  station : (ssid password : Bytes) → Started
  mesh : MeshConfig → Started

-- Lines 1559 to 1572.
unfoldable pub mesh_config : SystemConfig → MeshConfig
mesh_config c = record {
  router_ssid = copied 32 (cstr c.router_ssid);
  router_password = codes "FrogsHealth@1";
  mesh_id = copied 6 (cstr c.mesh_id);
  mesh_password = codes "FrogsHealth@111";
  server_ip = copied 16 (cstr c.server_ip);
  server_port = atoi (cstr c.server_port);
}

-- `app_main()`, where the file system can be mounted, asked for its size, and a file opened. That the
-- settings could not be read is not looked at.
unfoldable pub app_main : (mounted info opened : Bool) → Files → Started × Files
app_main mounted info opened files =
    let fs = (system_config_init mounted info opened files).1 in
    let c = (get_system_config fs zeroed).1 in
    (
      if bytes_eq (cstr c.run_mode) (codes "1")
          then station (codes "AndroidAP_9699") (codes "FrogsHealth@32")
          else mesh (mesh_config c),
      fs,
    )

abbrev pub hex_digit : ℕ → ℕ
hex_digit d = if ltb d 10 then 48 + d else 87 + d

-- "%02x" of a byte
abbrev pub hex : ℕ → Bytes
hex b = hex_digit (b / 16) ∷ hex_digit (b % 16) ∷ []

-- Lines 1592 to 1593.
unfoldable pub hostname : Mac → Bytes
hostname self_mac = codes "esp_" ++ (hex (get_or self_mac 4 0) ++ hex (get_or self_mac 5 0))

-- The events of the network that a station gets.
pub data StationEvent : Type 0 where
  ap_sta_connected ap_sta_disconnected sta_start sta_got_ip sta_disconnected other : StationEvent

-- `event_handler(ctx, event)`: whether it calls esp_wifi_connect.
unfoldable pub event_handler : StationEvent → Bool
event_handler sta_start = true
event_handler sta_disconnected = true
event_handler _ = false
