-- ===== src/Root/Ota/Tests.antt =====
-- An update of one device, with a firmware of three bytes.
use esp32_mesh.Common.{
  replicate, length, Bool-cases, inl, inr, ℕ, ◌<◌, ◌≤◌, ◌≡◌, refl, sym, ap, ◌∙◌, true, false, List,
  [], ◌∷◌, ◌++◌, map, none, some, arith, leb, ◌==◌, if◌then◌else◌,
}
use esp32_mesh.Common.Memory.{Store}
use esp32_mesh.Effect.{start_ota, start_ota_read}
use esp32_mesh.Photo.Gather.{Gather}
use esp32_mesh.Root.TestData.{mac_root, mac_a, mac_b, two, state, env, message}
use esp32_mesh.Root.Command.{root_do_ota, ota_dest_data}
use esp32_mesh.Root.Ota.Destinations.{command_devices, dest_addrs-ota_dest_data}
use esp32_mesh.Root.Socket.{SocketTask, SocketSeen, nothing}
use esp32_mesh.Root.Ota.{
  OtaSeen, HttpRead, http_failed, got, content, init, download, distribute, OtaCall, UpgradeResult,
  dest_addrs, ota_task, ota_report,
}
use esp32_mesh.Root.Ota.Download.{ReadsFit}
use esp32_mesh.Root.Ota.Delivery.{
  IsUpdate, reported, ConnectsAt, ota_task-IsUpdate, ota_task-last_try,
}
use esp32_mesh.Root.Ota.Command.{root_do_ota-delivers}
use esp32_mesh.Root.Ota.Report.{IsReport, ota_report-IsReport}

abbrev reads_of : ℕ → HttpRead
reads_of n = if n == 0 then got (7 ∷ 8 ∷ []) else got (9 ∷ [])

abbrev one : UpgradeResult
one = record { successed = mac_a ∷ []; unfinished = mac_b ∷ [] }

-- A server that answers at the k-th try.
abbrev seen : (k : ℕ) → OtaSeen
seen k = record {
  client = true;
  opens = λ i. i == k;
  is_root = λ i. true;
  headers = content 3;
  init_ok = true;
  reads = reads_of;
  writes = λ i. true;
  result = one;
  self_mac = mac_root;
  payload_len = 1456;
  data_held = true;
  block = some (λ a. 0);
}

reads_fit : (k : ℕ) → ReadsFit (seen k)
reads_fit k i p e = elim (Bool-cases (i == 0)) [
  | inl first ↦ at_first p (sym e ∙ ap (λ b. if b then got (7 ∷ 8 ∷ []) else got (9 ∷ [])) first)
  | inr later ↦ at_later p (sym e ∙ ap (λ b. if b then got (7 ∷ 8 ∷ []) else got (9 ∷ [])) later)
]
  where
    size : HttpRead → ℕ
    size http_failed = 0
    size (got p) = length p

    at_first : (p : List ℕ) → got p ≡ got (7 ∷ 8 ∷ []) → length p ≤ 1456
    at_first p e = omega (arith, ap size e)

    at_later : (p : List ℕ) → got p ≡ got (9 ∷ []) → length p ≤ 1456
    at_later p e = omega (arith, ap size e)

abbrev data_of_one : List ℕ
data_of_one = 1 ∷ mac_a

ota_task-IsUpdate_example :
    (u : List OtaCall × UpgradeResult) × ((ota_task (seen 2) data_of_one
        ≡ some (reported (seen 2) (λ a. 0) u))
      × IsUpdate (seen 2) 3 (mac_a ∷ []) u)
unfolding dest_addrs
ota_task-IsUpdate_example =
    ota_task-IsUpdate (seen 2) (λ a. 0) 3 data_of_one (mac_a ∷ []) refl refl refl (omega arith)
      (reads_fit 2) refl

connects : (k : ℕ) → k < 20 → ConnectsAt (seen k) k
connects k l = (refl, (λ i m. (ground arith, refl)), ground arith)

-- A command for an update of the first node.
abbrev command : Store
command = message ((1 ∷ 1 ∷ replicate 32 0) ++ 1 ∷ mac_a)

root_do_ota-delivers_example :
    (dest_data : List ℕ) × (((root_do_ota env (state command)).0
        ≡ (if false then [] else start_ota_read ∷ []) ++ start_ota dest_data ∷ [])
      × (ota_task (seen 2) dest_data
          ≡ some (
              reported
                (seen 2)
                (λ a. 0)
                (
                  init 3
                      ∷ (map download ((7 ∷ 8 ∷ []) ∷ (9 ∷ []) ∷ [])
                          ++ distribute (command_devices command) ∷ []),
                  one,
                ))))
root_do_ota-delivers_example =
    root_do_ota-delivers env (state command) [] (seen 2) (λ a. 0) 2 3 ((7 ∷ 8 ∷ []) ∷ (9 ∷ []) ∷ [])
      refl refl (omega arith) (omega arith) refl refl (omega arith) (connects 2 (omega arith)) refl
      (omega arith) refl (refl, refl, omega arith, (refl, refl, omega arith, tt))
      (omega arith, (omega arith, omega arith)) (reads_fit 2) (omega arith)

ota_report-IsReport_example : IsReport mac_root one (ota_report (λ a. 0) mac_root one)
ota_report-IsReport_example =
    ota_report-IsReport (λ a. 0) mac_root one refl (refl, tt) (refl, tt) (omega arith)

abbrev buffers : Gather
buffers = record { mem = message []; msg = 0; cmd = 6; err_count = 0; started = false }

abbrev socket : SocketSeen
socket = record { self_mac = mac_root; nodes = two; device_ota = true; found = nothing }

abbrev task : SocketTask
task = record {
  buffer = message [];
  already = 0;
  maybe_close = 0;
  sock_open = true;
  local = message [];
  queue = some [];
}

-- A command that gives 11 devices.
abbrev eleven : Store
eleven a = if a == 46 then 11 else 0

dest_addrs-ota_dest_data_example : dest_addrs (ota_dest_data eleven) ≡ (
    if eleven 46 == 0
    then some ((255 ∷ 255 ∷ 255 ∷ 255 ∷ 255 ∷ 255 ∷ []) ∷ [])
    else (if leb (eleven 46) 10 then some (command_devices eleven) else none))
dest_addrs-ota_dest_data_example = dest_addrs-ota_dest_data eleven

ota_task-last_try_example :
    ota_task (seen 19) data_of_one
    ≡ some (reported (seen 19) (λ a. 0) ([], record { successed = []; unfinished = [] }))
unfolding dest_addrs
ota_task-last_try_example =
    ota_task-last_try (seen 19) (λ a. 0) data_of_one (mac_a ∷ []) refl refl
      (connects 19 (omega arith))
