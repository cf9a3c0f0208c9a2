-- ===== src/Root/Ota/Command.antt =====
-- An update from the server's command to the devices that it names.
use esp32_mesh.Common.{
  ℕ, ◌+◌, ◌^◌, ◌<◌, ◌≤◌, ◌≡◌, ap, ◌∙◌, true, false, List, [], ◌∷◌, ◌++◌, map, some, arith,
  if◌then◌else◌,
}
use esp32_mesh.Common.Memory.{Store}
use esp32_mesh.Effect.{start_ota, start_ota_read}
use esp32_mesh.Message.{set_header, set_header_out}
use esp32_mesh.Root.State.{RootState, RootEnv}
use esp32_mesh.Root.Command.{ota_dest_data, root_do_ota}
use esp32_mesh.Root.CommandLaws.{root_do_ota_once}
use esp32_mesh.Root.Ota.{OtaSeen, content, init, download, distribute, dest_addrs, ota_task}
use esp32_mesh.Root.Ota.Destinations.{
  wanted, dest_table_congr, command_devices, dest_addrs-ota_dest_data,
}
use esp32_mesh.Root.Ota.Download.{AreRead, Fill, ReadsFit}
use esp32_mesh.Root.Ota.Delivery.{ConnectsAt, reported, ota_task-delivers}
use esp32_mesh.Root.Ota.{dest_table}
use esp32_mesh.DevList.{Mac}

-- A command that names from 1 to 10 devices has them in its table.
wanted_named : (num : ℕ) (table : List Mac) → 0 < num → num ≤ 10 → wanted num table ≡ some table
wanted_named num table pos few = ground arith

-- What is written in front of the command's name leaves its devices alone.
command_devices-set_header :
    (m : Store) (cmd : ℕ) → command_devices (set_header m 6 2 cmd) ≡ command_devices m
command_devices-set_header m cmd =
    let m1 = set_header m 6 2 cmd in
    ap (dest_table m1 47) (set_header_out m 6 2 cmd 46 (omega arith))
    ∙ dest_table_congr m1 m 47 47 (m 46) (λ i l. set_header_out m 6 2 cmd (47 + i) (omega arith))

dest_addrs-command :
    (m : Store) (cmd : ℕ)
    → 0 < m 46
    → m 46 ≤ 10
    → dest_addrs (ota_dest_data (set_header m 6 2 cmd)) ≡ some (command_devices m)
dest_addrs-command m cmd pos few =
    let m1 = set_header m 6 2 cmd in
    dest_addrs-ota_dest_data m1
    ∙ ap (λ n. wanted n (command_devices m1)) (set_header_out m 6 2 cmd 46 (omega arith))
    ∙ wanted_named (m 46) (command_devices m1) pos few
    ∙ ap some (command_devices-set_header m cmd)

-- A command for an update that names from 1 to 10 devices, on a root with memory and no update task,
-- starts the task; and where the task has memory for its two blocks, the root connects at one of its
-- first 19 tries, is told a size that is not 0 and that it can count in 32 bits, can begin the upgrade,
-- and reads and writes pieces, none with more bytes than it asked for, that reach this size, the task
-- hands the firmware, after these pieces, to exactly the devices of the command, in their order, and
-- reports the result.
pub root_do_ota-delivers :
    (env : RootEnv) (s : RootState) (block : List ℕ) (seen : OtaSeen) (held : Store) (k n : ℕ)
    (ps : List (List ℕ))
    → env.block ≡ some block
    → s.ota_read_task ≡ false
    → 0 < s.msg 46
    → s.msg 46 ≤ 10
    → seen.data_held ≡ true
    → seen.block ≡ some held
    → k < 19
    → ConnectsAt seen k
    → seen.headers ≡ content n
    → 0 < n
    → seen.init_ok ≡ true
    → AreRead seen 0 ps
    → Fill n 0 ps
    → ReadsFit seen
    → n + seen.payload_len ≤ 2 ^ 31
    → (dest_data : List ℕ) × (((root_do_ota env s).0
          ≡ (if s.ota_read_handle then [] else start_ota_read ∷ []) ++ start_ota dest_data ∷ [])
        × (ota_task seen dest_data
            ≡ some (
                reported seen held (
                  init n ∷ (map download ps ++ distribute (command_devices s.msg) ∷ []),
                  seen.result,
                ))))
root_do_ota-delivers env s block seen held k n ps mem idle pos few data_mem held_mem early at_k told
      sized begun are fill short room =
    (
      ota_dest_data (set_header s.msg 6 2 (s.msg 13)),
      (
        (root_do_ota_once env s s.msg block mem idle).0,
        ota_task-delivers seen held (ota_dest_data (set_header s.msg 6 2 (s.msg 13)))
            (command_devices s.msg) k n ps data_mem held_mem
            (dest_addrs-command s.msg (s.msg 13) pos few) early at_k told sized begun are fill short
            room,
      ),
    )
