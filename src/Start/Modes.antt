-- ===== src/Start/Modes.antt =====
-- What a device starts as after its settings have been changed, by the web server or by the server.
use esp32_mesh.Common.{
  ℕ, ◌+◌, ◌%◌, ◌<◌, ◌≤◌, ◌≡◌, length, refl, ap, ◌∙◌, Bool, true, false, [], ◌∷◌, Option, none, some,
  take, arith, bytes_eq, if◌then◌else◌, ◌==◌,
}
use esp32_mesh.Config.Items.{
  Item, codes, name, all_items, router_ssid, mesh_id, server_ip, server_port, run_mode,
}
use esp32_mesh.Config.Text.{Bytes, before, cstr}
use esp32_mesh.Config.{
  Files, InitStatus, UpdateStatus, file_of, system_config_init, get_system_config,
  update_system_config,
}
use esp32_mesh.Config.File.{IsValue}
use esp32_mesh.Config.Reading.{zeroed, system_config_init_kept, get_system_config-file_of}
use esp32_mesh.Config.Updating.{updated, updated-IsValue, update_system_config_lem}
use esp32_mesh.Httpd.Control.{ControlSeen, cmd_handler, atoi}
use esp32_mesh.Httpd.Control.Laws.{asks, cmd_handler-files}
use esp32_mesh.Root.State.{RootEnv}
use esp32_mesh.Root.Command.{set_work_mode}
use esp32_mesh.Start.{Started, station, mesh, copied, mesh_config, app_main}

-- What a device starts as, by the texts of its settings.
abbrev pub started_with : (mode ssid id ip port : Bytes) → Started
started_with mode ssid id ip port =
    if bytes_eq mode (codes "1")
    then station (codes "AndroidAP_9699") (codes "FrogsHealth@32")
    else mesh (record {
      router_ssid = copied 32 ssid;
      router_password = codes "FrogsHealth@1";
      mesh_id = copied 6 id;
      mesh_password = codes "FrogsHealth@111";
      server_ip = copied 16 ip;
      server_port = atoi port;
    })

app_main_lem :
    (opened : Bool) (fs : Files)
    → system_config_init true true opened fs ≡ (InitStatus.ok, fs)
    → let c = (get_system_config fs zeroed).1 in
      app_main true true opened fs ≡ (
        started_with
            (cstr c.run_mode)
            (cstr c.router_ssid)
            (cstr c.mesh_id)
            (cstr c.server_ip)
            (cstr c.server_port),
        fs,
      )
unfolding app_main mesh_config
app_main_lem opened fs kept = ap start kept
  where
    start : InitStatus × Files → Started × Files
    start r =
        let c = (get_system_config r.1 zeroed).1 in
        (
          started_with (cstr c.run_mode) (cstr c.router_ssid) (cstr c.mesh_id) (cstr c.server_ip)
              (cstr c.server_port),
          r.1,
        )

started_congr :
    (a a' b b' c c' d d' e e' : Bytes)
    → a ≡ a'
    → b ≡ b'
    → c ≡ c'
    → d ≡ d'
    → e ≡ e'
    → started_with a b c d e ≡ started_with a' b' c' d' e'
started_congr a a' b b' c c' d d' e e' p q r s t = cc

-- What a device with these settings starts as.
abbrev pub started : (Item → Bytes) → Started
started value =
    started_with (take 1 (value run_mode)) (take 31 (value router_ssid)) (take 5 (value mesh_id))
      (take 15 (value server_ip)) (take 5 (value server_port))

-- The settings file of these values.
abbrev pub whole : (Item → Bytes) → Option Bytes → Files
whole value temp = record { config = some (file_of all_items value); temp = temp }

-- Where the settings file has a line for each item in order, with values without a zero or a newline that
-- fit a line, and the file system can be mounted, a device starts as a station exactly if its mode
-- begins with "1", and else as a node of the mesh, with the network, the mesh and the server of the
-- settings, each cut to the room it has, and the number that the port begins with; the settings stay.
pub app_main-started :
    (opened : Bool) (value : Item → Bytes) (temp : Option Bytes)
    → ((i : Item) → IsValue i (value i))
    → app_main true true opened (whole value temp) ≡ (started value, whole value temp)
app_main-started opened value temp w =
    let texts = (get_system_config-file_of value temp w).1 in
    app_main_lem opened (whole value temp)
      (system_config_init_kept opened (file_of all_items value) temp)
    ∙ ap (λ s. (s, whole value temp))
        (started_congr _ _ _ _ _ _ _ _ _ _ (texts run_mode) (texts router_ssid) (texts mesh_id)
          (texts server_ip) (texts server_port))

mode_text : (mode : ℕ) → mode < 10 → cstr (((mode + 48) % 256) ∷ 0 ∷ []) ≡ (48 + mode) ∷ []
unfolding before
mode_text mode digit =
    let wraps : (mode + 48) % 256 ≡ 48 + mode = omega arith in
    let visible : ((mode + 48) % 256 == 0) ≡ false = ground arith in
    rw visible (ap (λ c. c ∷ []) wraps)

set_work_mode_lem :
    (env : RootEnv) (mode : ℕ) (files : Files)
    → set_work_mode env mode files
      ≡ (update_system_config env.opened env.renamed env.junk
          (some (codes "run_mode"))
          (some (cstr (((mode + 48) % 256) ∷ 0 ∷ [])))
          files).1
unfolding set_work_mode
set_work_mode_lem env mode files = refl

-- A device whose mode the server switches to a digit, where its settings file is whole and can be opened
-- and renamed and the file system can be mounted, starts with that mode: as a station after 1, as a node
-- of the mesh after every other digit, with its network, its mesh and its server as they were.
pub set_work_mode-app_main :
    (env : RootEnv) (mode : ℕ) (opened : Bool) (value : Item → Bytes) (temp : Option Bytes)
    → ((i : Item) → IsValue i (value i))
    → mode < 10
    → (app_main true true opened
        (set_work_mode (record env { opened = true; renamed = true }) mode (whole value temp))).0
      ≡ started (updated run_mode ((48 + mode) ∷ []) value)
set_work_mode-app_main env mode opened value temp w digit =
    let text = (48 + mode) ∷ [] in
    let value_ok : IsValue run_mode text = record {
      no_nul = ((λ e. omega (arith, e)), tt);
      no_newline = ((λ e. omega (arith, e)), tt);
      fits = omega arith;
    } in
    ap (λ fs. (app_main true true opened fs).0)
      (set_work_mode_lem (record env { opened = true; renamed = true }) mode (whole value temp)
        ∙ ap
            (λ t.
              (update_system_config true true env.junk (some (codes "run_mode")) (some t)
                (whole value temp)).1)
            (mode_text mode digit)
        ∙ ap (λ (u : UpdateStatus × Files). u.1)
            (update_system_config_lem env.junk run_mode text value temp w value_ok))
    ∙ ap (λ (r : Started × Files). r.0)
        (app_main-started opened (updated run_mode text value) none
          (updated-IsValue run_mode text value w value_ok))

-- After a command to the web server for an item of the settings, with a value of at most 31 bytes that
-- fits a line, on a device whose settings file is whole and can be opened and renamed, the device starts
-- anew, where the file system can be mounted, as its settings say with that value for that item: with
-- the mode, the network, the mesh or the server of the value, cut to the room it has for them, and the
-- others as they were; max_layer and backoff_rssi have no part in how it starts.
pub cmd_handler-app_main :
    (seen : ControlSeen) (n : ℕ) (j : Item) (v : Bytes) (opened : Bool) (value : Item → Bytes)
    → (temp : Option Bytes) → ((i : Item) → IsValue i (value i))
    → IsValue j v
    → length v ≤ 31
    → (app_main true true opened
        (cmd_handler
          (record seen { opened = true; renamed = true })
          (asks n (name j) v)
          (whole value temp)).2).0
      ≡ started (updated j v value)
cmd_handler-app_main seen n j v opened value temp w new short =
    let able = record seen { opened = true; renamed = true } in
    ap (λ fs. (app_main true true opened fs).0)
      (cmd_handler-files able n j v (whole value temp) short
        ∙ ap (λ (u : UpdateStatus × Files). u.1)
            (update_system_config_lem seen.junk j v value temp w new))
    ∙ ap (λ (r : Started × Files). r.0)
        (app_main-started opened (updated j v value) none (updated-IsValue j v value w new))
