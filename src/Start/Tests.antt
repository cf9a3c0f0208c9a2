-- ===== src/Start/Tests.antt =====
-- A device that starts after its mode has been changed.
use esp32_mesh.Common.{
  ◌≡◌, refl, ◌+◌, true, false, ◌&&◌, [], ◌∷◌, none, some, arith, bytes_eq, if◌then◌else◌,
}
use esp32_mesh.Config.Text.{cstr}
use esp32_mesh.Config.Reading.{zeroed}
use esp32_mesh.Start.Setup.{Drivers, ok, new_version, boot}
use esp32_mesh.Start.Setup.Laws.{driven, boot-driven}
use esp32_mesh.Config.Items.{SystemConfig, codes, name, run_mode}
use esp32_mesh.Config.TestData.{value, new_value, value-IsValue, new_value-IsValue}
use esp32_mesh.Config.Updating.{updated}
use esp32_mesh.Httpd.Control.{ControlSeen, cmd_handler}
use esp32_mesh.Httpd.Control.Laws.{asks}
use esp32_mesh.Root.State.{RootEnv}
use esp32_mesh.Root.Command.{set_work_mode}
use esp32_mesh.Wire.WorkMode
use esp32_mesh.Start.{app_main}
use esp32_mesh.Start.Modes.{started, whole, set_work_mode-app_main, cmd_handler-app_main}

abbrev env : RootEnv
env = record {
  write = λ i. 0;
  sends = λ i. true;
  camera = none;
  opened = true;
  renamed = true;
  junk = [];
  block = some [];
}

-- From a node of the mesh to a station.
set_work_mode-app_main_example :
    (app_main true true true
      (set_work_mode (record env { opened = true; renamed = true }) 1 (whole value none))).0
    ≡ started (updated run_mode ((48 + 1) ∷ []) value)
set_work_mode-app_main_example =
    set_work_mode-app_main env 1 true value none value-IsValue (omega arith)

abbrev camera : ControlSeen
camera = record { jpeg = true; accepts = λ s v. true; opened = true; renamed = true; junk = [] }

cmd_handler-app_main_example :
    (app_main true true true
      (cmd_handler
        (record camera { opened = true; renamed = true })
        (asks 8 (name run_mode) new_value)
        (whole value none)).2).0
    ≡ started (updated run_mode new_value value)
cmd_handler-app_main_example =
    cmd_handler-app_main camera 8 run_mode new_value true value none value-IsValue
      (new_value-IsValue run_mode) (omega arith)

-- A node of the mesh whose camera gives no frame, and one whose flash has to be erased.
abbrev drivers : Drivers
drivers = record {
  camera = true;
  frame = false;
  first_nvs = new_version;
  second_nvs = ok;
  succeeds = λ k. true;
  web = true;
  streams = true;
}

abbrev node_settings : SystemConfig
node_settings = record zeroed { run_mode = 50 ∷ 0 ∷ [] }

boot-driven_example :
    driven (boot (record drivers { frame = true }) 80 node_settings).0
    ≡ 22
      ∷ (if bytes_eq (cstr (50 ∷ 0 ∷ [])) (codes "1")
          then []
          else (if true && true then 5 ∷ 19 ∷ 21 ∷ [] else []))
boot-driven_example = boot-driven (record drivers { frame = true }) 80 node_settings

-- The mode of a station is that for debugging.
station_mode : codes "1" ≡ (48 + WorkMode.debug) ∷ []
station_mode = refl
