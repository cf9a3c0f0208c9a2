-- ===== src/Start/Setup.antt =====
-- What `app_main` of main/router.c sets up, call by call: `watchdog_setup`, `camera_setup`, `light_setup`,
-- `wifi_init`, and `app_httpd_main` of main/app_httpd.c. The drivers and the network stack are not in
-- main/: their results are arguments. A call whose result is asserted ends the program where it fails.
pub mod Laws
use esp32_mesh.Common.{
  ℕ, suc, ◌+◌, Bool, true, false, List, [], ◌∷◌, ◌++◌, ◌||◌, bytes_eq, if◌then◌else◌,
}
use esp32_mesh.Config.Text.{Bytes, cstr}
use esp32_mesh.Config.Items.{codes, SystemConfig}
use esp32_mesh.Watchdog.{wtd_pin}

-- The web server and the server for the stream, by the paths that they are asked for.
pub data Route : Type 0 where
  control status capture stream : Route

-- The calls of the drivers and of the network stack.
pub data Call : Type 0 where
  -- gpio_config: the pins, as outputs or as inputs
  outputs inputs : List ℕ → Call
  -- system_config_init and get_system_config
  settings : Call
  -- the buffers and the queues of the tasks
  buffers queues : Call
  -- esp_camera_init with these pins, set_framesize, esp_camera_fb_get and esp_camera_fb_return
  camera_init : List ℕ → Call
  set_framesize fb_get fb_return : Call
  -- system_reboot
  reboot : Call
  -- nvs_flash_init, nvs_flash_erase, tcpip_adapter_init, esp_event_loop_init
  nvs_init nvs_erase adapter_init event_loop_init : Call
  -- esp_wifi_init, esp_wifi_set_storage, set_mode, set_ps, esp_mesh_set_6m_rate, set_config, start
  wifi_init_ set_storage set_mode set_ps set_6m_rate set_config wifi_start : Call
  -- mdf_event_loop_init, mwifi_init, mwifi_set_config, mwifi_start, tcpip_adapter_set_hostname
  mdf_loop_init mwifi_init mwifi_set_config mwifi_start set_hostname : Call
  -- httpd_start on a port, and httpd_register_uri_handler
  httpd_start : ℕ → Call
  register : ℕ → Route → Call

-- The program goes on, stands in `while(true)`, or has been aborted by an assertion.
pub data Ending : Type 0 where
  running hung aborted : Ending

pub data Nvs : Type 0 where
  ok no_free_pages new_version failed : Nvs

-- What the drivers answer: whether the camera starts and gives a frame, the two results of
-- nvs_flash_init, whether the n-th asserted call succeeds, and whether each web server starts.
pub record Drivers : Type 0 where
  pub camera : Bool
  pub frame : Bool
  pub first_nvs : Nvs
  pub second_nvs : Nvs
  pub succeeds : ℕ → Bool
  pub web : Bool
  pub streams : Bool

abbrev pub Boot : Type 0
Boot = List Call × Ending

-- What follows is reached where the program goes on.
abbrev pub and_then : Boot → Boot → Boot
and_then b c = elim b.1 [ running ↦ (b.0 ++ c.0, c.1) | hung ↦ b | aborted ↦ b ]

-- Calls one after the other, each of them asserted, from number `k` on.
unfoldable pub asserted : (ℕ → Bool) → ℕ → List Call → Boot
asserted succeeds k [] = ([], running)
asserted succeeds k (c ∷ cs) =
    let rest = asserted succeeds (suc k) cs in
    if succeeds k then (c ∷ rest.0, rest.1) else (c ∷ [], aborted)

-- `watchdog_setup()`
abbrev pub watchdog_setup : Boot
watchdog_setup = (outputs (wtd_pin ∷ []) ∷ [], running)

-- `light_setup()`: LED_G_PIN, LED_R_PIN and LED_B_PIN.
abbrev pub light_setup : Boot
light_setup = (outputs (5 ∷ 19 ∷ 21 ∷ []) ∷ [], running)

-- The pins of CAMERA_MODEL_AI_SELF, in the order of camera_config; PWDN has none.
abbrev pub camera_pins : List ℕ
camera_pins = 37 ∷ 14 ∷ 13 ∷ 27 ∷ 39 ∷ 35 ∷ 34 ∷ 38 ∷ 25 ∷ 32 ∷ 26 ∷ 36 ∷ 18 ∷ 23 ∷ 33 ∷ []

-- `camera_setup()`; what esp_camera_init does with the pins that it is given is not here.
unfoldable pub camera_setup : Drivers → Boot
camera_setup d =
    let started = inputs (13 ∷ []) ∷ inputs (14 ∷ []) ∷ camera_init camera_pins ∷ [] in
    if d.camera
    then (if d.frame
        then (started ++ set_framesize ∷ fb_get ∷ fb_return ∷ [], running)
        else (started ++ set_framesize ∷ fb_get ∷ reboot ∷ [], hung))
    else (started ++ reboot ∷ [], hung)

-- Whether the flash has to be erased.
abbrev pub is_full : Nvs → Bool
is_full no_free_pages = true
is_full new_version = true
is_full _ = false

abbrev pub is_ok : Nvs → Bool
is_ok ok = true
is_ok _ = false

abbrev pub asserted_nvs : Nvs → Ending
asserted_nvs r = if is_ok r then running else aborted

-- nvs_flash_init with a second attempt, asserted in the end; the erasure is the asserted call number 0.
unfoldable pub nvs_setup : Drivers → Boot
nvs_setup d =
    if is_full d.first_nvs
    then (if d.succeeds 0
        then (nvs_init ∷ nvs_erase ∷ nvs_init ∷ [], asserted_nvs d.second_nvs)
        else (nvs_init ∷ nvs_erase ∷ [], aborted))
    else (nvs_init ∷ [], asserted_nvs d.first_nvs)

abbrev pub wifi_calls : List Call
wifi_calls =
    event_loop_init ∷ wifi_init_ ∷ set_storage ∷ set_mode ∷ set_ps ∷ set_6m_rate ∷ wifi_start ∷ []

-- `wifi_init()`; the asserted calls are numbered behind that of mdf_event_loop_init.
unfoldable pub wifi_init : Drivers → Boot
wifi_init d =
    and_then (nvs_setup d)
      (and_then (adapter_init ∷ [], running) (asserted d.succeeds 2 wifi_calls))

-- `app_httpd_main()`, with HTTPD_DEFAULT_CONFIG's port: the web server and, on the next port, the
-- stream, each whether or not the other has started.
unfoldable pub app_httpd_main : Drivers → (port : ℕ) → Boot
app_httpd_main d port = (
  (httpd_start port
        ∷ (if d.web
            then register port control ∷ register port status ∷ register port capture ∷ []
            else []))
      ++ (httpd_start (port + 1) ∷ (if d.streams then register (port + 1) stream ∷ [] else [])),
  running,
)

abbrev pub station_calls : List Call
station_calls = event_loop_init ∷ wifi_init_ ∷ set_mode ∷ set_config ∷ wifi_start ∷ []

-- Lines 1485 to 1505: the station, once its camera is set up.
abbrev pub after_camera : Drivers → (port : ℕ) → Boot
after_camera d port = and_then (nvs_setup d) (
    and_then (adapter_init ∷ [], running)
      (and_then (asserted d.succeeds 1 station_calls) (app_httpd_main d port)))

unfoldable pub station_setup : Drivers → (port : ℕ) → Boot
station_setup d port = and_then (camera_setup d) (after_camera d port)

abbrev pub mwifi_calls : List Call
mwifi_calls = mwifi_init ∷ mwifi_set_config ∷ mwifi_start ∷ set_hostname ∷ []

-- Lines 1547 to 1594: the queues, and the network of a node of the mesh.
abbrev pub mesh_network : Drivers → Boot
mesh_network d =
    and_then (queues ∷ [], running)
      (and_then (asserted d.succeeds 1 (mdf_loop_init ∷ []))
        (and_then (wifi_init d) (asserted d.succeeds 9 mwifi_calls)))

-- Lines 1545 to 1594: the node of the mesh, once its camera is set up.
abbrev pub after_mesh_camera : Drivers → Boot
after_mesh_camera d = and_then light_setup (mesh_network d)

-- Lines 1530 to 1594.
unfoldable pub mesh_setup : Drivers → Boot
mesh_setup d = and_then (buffers ∷ [], running) (and_then (camera_setup d) (after_mesh_camera d))

-- `app_main()`, by the settings that it has read.
unfoldable pub boot : Drivers → (port : ℕ) → SystemConfig → Boot
boot d port c = and_then watchdog_setup (
    and_then (settings ∷ [], running)
      (if bytes_eq (cstr c.run_mode) (codes "1") then station_setup d port else mesh_setup d))
