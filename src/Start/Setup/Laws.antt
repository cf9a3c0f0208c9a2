-- ===== src/Start/Setup/Laws.antt =====
-- Which pins a device drives once it has set itself up.
use esp32_mesh.Common.{
  ℕ, suc, ◌≡◌, refl, sym, ap, ◌∙◌, Bool, true, false, inl, inr, List, [], ◌∷◌, ◌++◌, ◌&&◌, bytes_eq,
  if◌then◌else◌, Bool-cases,
}
use mathlib.Core.List.{append_assoc}
use mathlib.Core.Bool.{true≢false, false≢true}
use esp32_mesh.Common.Runs.{if-Holds}
use esp32_mesh.Config.Text.{cstr}
use esp32_mesh.Config.Items.{codes, SystemConfig}
use esp32_mesh.Start.Setup.{
  Call, outputs, inputs, camera_init, set_framesize, fb_get, fb_return, reboot, adapter_init,
  mdf_loop_init, wifi_calls, station_calls, mwifi_calls, mesh_network, running, hung, aborted,
  Drivers, Boot, and_then, asserted, is_full, camera_pins, camera_setup, nvs_setup, wifi_init,
  app_httpd_main, after_camera, station_setup, after_mesh_camera, mesh_setup, boot,
}

-- The pins that calls make outputs.
abbrev pub driven : List Call → List ℕ
driven [] = []
driven (outputs pins ∷ cs) = pins ++ driven cs
driven (_ ∷ cs) = driven cs

-- The pins of the watchdog and of the light.
abbrev pub all_outputs : List ℕ
all_outputs = 22 ∷ 5 ∷ 19 ∷ 21 ∷ []

-- Without a camera that works no call of the network is made.
abbrev pub without_camera : Bool → List Call
without_camera started =
    inputs (13 ∷ [])
    ∷ inputs (14 ∷ [])
    ∷ camera_init camera_pins
    ∷ (if started then set_framesize ∷ fb_get ∷ reboot ∷ [] else reboot ∷ [])

camera_setup_broken :
    (d : Drivers) → (d.camera && d.frame) ≡ false → camera_setup d ≡ (without_camera d.camera, hung)
unfolding camera_setup
camera_setup_broken d broken = go d.camera d.frame broken
  where
    go :
        (cam gives : Bool)
        → (cam && gives) ≡ false
        → camera_setup (record d { camera = cam; frame = gives }) ≡ (without_camera cam, hung)
    go true true e = absurd (true≢false e)
    go true false e = refl
    go false gives e = refl

camera_setup_works :
    (d : Drivers)
    → (d.camera && d.frame) ≡ true
    → camera_setup d ≡ (
      inputs (13 ∷ [])
          ∷ inputs (14 ∷ [])
          ∷ camera_init camera_pins
          ∷ set_framesize
          ∷ fb_get
          ∷ fb_return
          ∷ [],
      running,
    )
unfolding camera_setup
camera_setup_works d works = go d.camera d.frame works
  where
    go :
        (cam gives : Bool)
        → (cam && gives) ≡ true
        → camera_setup (record d { camera = cam; frame = gives }) ≡ (
          inputs (13 ∷ [])
              ∷ inputs (14 ∷ [])
              ∷ camera_init camera_pins
              ∷ set_framesize
              ∷ fb_get
              ∷ fb_return
              ∷ [],
          running,
        )
    go true true e = refl
    go true false e = absurd (false≢true e)
    go false gives e = absurd (false≢true e)

driven-append : (cs ds : List Call) → driven (cs ++ ds) ≡ driven cs ++ driven ds
driven-append [] ds = refl
driven-append (outputs pins ∷ cs) ds =
    ap (λ l. pins ++ l) (driven-append cs ds) ∙ sym (append_assoc pins (driven cs) (driven ds))
driven-append (_ ∷ cs) ds = driven-append cs ds

-- A part of the setup that makes no pin an output.
abbrev IsQuiet : Boot → Type 0
IsQuiet b = driven b.0 ≡ []

abbrev AllQuiet : List Call → Type 0
AllQuiet [] = Unit {0}
AllQuiet (c ∷ cs) = (driven (c ∷ []) ≡ []) × AllQuiet cs

and_then-IsQuiet : (b c : Boot) → IsQuiet b → IsQuiet c → IsQuiet (and_then b c)
and_then-IsQuiet (cs, running) c h k = driven-append cs c.0 ∙ ap (λ l. l ++ driven c.0) h ∙ k
and_then-IsQuiet (cs, hung) c h k = h
and_then-IsQuiet (cs, aborted) c h k = h

asserted-IsQuiet :
    (succeeds : ℕ → Bool) (k : ℕ) (cs : List Call) → AllQuiet cs → IsQuiet (asserted succeeds k cs)
unfolding asserted
asserted-IsQuiet succeeds k [] q = refl
asserted-IsQuiet succeeds k (c ∷ cs) q =
    let rest = asserted succeeds (suc k) cs in
    if-Holds IsQuiet (succeeds k) {x = (c ∷ rest.0, rest.1)} {y = (c ∷ [], aborted)}
      (driven-append (c ∷ []) rest.0
        ∙ ap (λ l. l ++ driven rest.0) q.0
        ∙ asserted-IsQuiet succeeds (suc k) cs q.1)
      q.0

nvs_setup-IsQuiet : (d : Drivers) → IsQuiet (nvs_setup d)
unfolding nvs_setup
nvs_setup-IsQuiet d =
    if-Holds IsQuiet (is_full d.first_nvs) (if-Holds IsQuiet (d.succeeds 0) refl refl) refl

app_httpd_main-IsQuiet : (d : Drivers) (port : ℕ) → IsQuiet (app_httpd_main d port)
unfolding app_httpd_main
app_httpd_main-IsQuiet d port = go d.web d.streams
  where
    go :
        (web streams : Bool)
        → IsQuiet (app_httpd_main (record d { web = web; streams = streams }) port)
    go true true = refl
    go true false = refl
    go false true = refl
    go false false = refl

after_camera-IsQuiet : (d : Drivers) (port : ℕ) → IsQuiet (after_camera d port)
after_camera-IsQuiet d port =
    let web = app_httpd_main d port in
    let wifi = asserted d.succeeds 1 station_calls in
    let quiet : IsQuiet wifi =
      asserted-IsQuiet d.succeeds 1 station_calls (refl, (refl, (refl, (refl, (refl, tt))))) in
    and_then-IsQuiet (nvs_setup d) (and_then (adapter_init ∷ [], running) (and_then wifi web))
      (nvs_setup-IsQuiet d) (and_then-IsQuiet wifi web quiet (app_httpd_main-IsQuiet d port))

wifi_init-IsQuiet : (d : Drivers) → IsQuiet (wifi_init d)
unfolding wifi_init
wifi_init-IsQuiet d =
    let wifi = asserted d.succeeds 2 wifi_calls in
    let quiet : IsQuiet wifi =
      asserted-IsQuiet d.succeeds 2 wifi_calls
        (refl, (refl, (refl, (refl, (refl, (refl, (refl, tt))))))) in
    and_then-IsQuiet (nvs_setup d) (and_then (adapter_init ∷ [], running) wifi)
      (nvs_setup-IsQuiet d) quiet

mesh_network-IsQuiet : (d : Drivers) → IsQuiet (mesh_network d)
mesh_network-IsQuiet d =
    let loop = asserted d.succeeds 1 (mdf_loop_init ∷ []) in
    let mwifi = asserted d.succeeds 9 mwifi_calls in
    let quiet : IsQuiet mwifi =
      asserted-IsQuiet d.succeeds 9 mwifi_calls (refl, (refl, (refl, (refl, tt)))) in
    and_then-IsQuiet loop (and_then (wifi_init d) mwifi)
      (asserted-IsQuiet d.succeeds 1 (mdf_loop_init ∷ []) (refl, tt))
      (and_then-IsQuiet (wifi_init d) mwifi (wifi_init-IsQuiet d) quiet)

camera_setup-IsQuiet : (d : Drivers) → IsQuiet (camera_setup d)
unfolding camera_setup
camera_setup-IsQuiet d = if-Holds IsQuiet d.camera (if-Holds IsQuiet d.frame refl refl) refl

-- What the light's setup and what follows it add, by how the setup of the camera has ended.
mesh_driven :
    (d : Drivers)
    → driven (and_then (camera_setup d) (after_mesh_camera d)).0
      ≡ (if d.camera && d.frame then 5 ∷ 19 ∷ 21 ∷ [] else [])
unfolding camera_setup
mesh_driven d = elim (Bool-cases (d.camera && d.frame)) [
  | inl works ↦ rw works (
      ap (λ b. driven (and_then b (after_mesh_camera d)).0) (camera_setup_works d works)
      ∙ ap (λ l. 5 ∷ 19 ∷ 21 ∷ l) (mesh_network-IsQuiet d))
  | inr broken ↦ rw broken (
      ap (λ b. driven (and_then b (after_mesh_camera d)).0) (camera_setup_broken d broken)
      ∙ without_camera_driven d.camera)
]
  where
    without_camera_driven : (b : Bool) → driven (without_camera b) ≡ []
    without_camera_driven true = refl
    without_camera_driven false = refl

-- Whatever the drivers and the network stack answer, the pins that the firmware itself makes outputs while
-- it starts, by its own calls of gpio_config, are that of the watchdog, 22, first, and then, on a node of
-- the mesh whose camera works, those of the light, 5, 19 and 21; a station, and a node without its
-- camera, make no other so. What the drivers do with the pins that they are given, as esp_camera_init
-- with those of the camera, is not counted.
pub boot-driven :
    (d : Drivers) (port : ℕ) (c : SystemConfig)
    → driven (boot d port c).0
      ≡ 22
        ∷ (if bytes_eq (cstr c.run_mode) (codes "1")
            then []
            else (if d.camera && d.frame then 5 ∷ 19 ∷ 21 ∷ [] else []))
unfolding boot station_setup mesh_setup
boot-driven d port c =
    ap (λ l. 22 ∷ l)
      (elim (Bool-cases (bytes_eq (cstr c.run_mode) (codes "1"))) [
        | inl one ↦ rw one (
            and_then-IsQuiet (camera_setup d) (after_camera d port) (camera_setup-IsQuiet d)
              (after_camera-IsQuiet d port))
        | inr other ↦ rw other (mesh_driven d)
      ])
