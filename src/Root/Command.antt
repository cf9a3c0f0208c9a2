-- ===== src/Root/Command.antt =====
-- `do_process_data_from_tcpser_or_root` of main/router.c, with `set_work_mode` and `root_do_ota`: the
-- commands of the server that are for the root itself. Command and answer share the message buffer.
use mathlib.Core.Option
use esp32_mesh.Common.{
  ℕ, ◌+◌, ◌*◌, ◌%◌, true, List, [], ◌∷◌, ◌++◌, Option, none, some, ltb, ◌==◌, if◌then◌else◌,
}
use esp32_mesh.Common.Memory.{Store, poke, read}
use esp32_mesh.Wire.{addr_len, root_packet_len, ota_name_len}
use esp32_mesh.Wire.BusCmd
use esp32_mesh.Wire.BusType
use esp32_mesh.Wire.BusStatus
use esp32_mesh.Wire.RootMsg
use esp32_mesh.Wire.DeviceOta
use esp32_mesh.Message.{set_header}
use esp32_mesh.Effect.{Effect, send, start_ota, start_ota_read}
use esp32_mesh.Light.{set_light_color, get_light_color}
use esp32_mesh.Config.{Files, update_system_config}
use esp32_mesh.Config.Text.{cstr}
use esp32_mesh.Config.Items.{codes}
use esp32_mesh.Photo.Root.{root_send_photo}
use esp32_mesh.Root.State.{RootState, RootEnv, type_at, cmd_at, body_at}
use esp32_mesh.Root.Restart.{root_do_restart}

-- `set_work_mode(mode)`; a failed update is only logged.
unfoldable pub set_work_mode : RootEnv → ℕ → Files → Files
set_work_mode env mode files =
    (update_system_config env.opened env.renamed env.junk (some (codes "run_mode"))
      (some (cstr ((mode + 0x30) % 256 ∷ 0 ∷ []))) files).1

-- sprintf(url_ota, "http://%s/firmware_name/%s", ConfigServerIp, g_ota_firmware_name)
unfoldable pub ota_url : (server_ip firmware_name : List ℕ) → List ℕ
ota_url server_ip firmware_name =
    codes "http://" ++ (cstr server_ip ++ (codes "/firmware_name/" ++ cstr firmware_name))

-- dest_data: the number of devices, as the command gives it, and the addresses of at most 10 of them.
unfoldable pub ota_dest_data : Store → List ℕ
ota_dest_data m =
    let number = m (RootMsg.node + DeviceOta.number) in
    read m (RootMsg.node + DeviceOta.number) ((if ltb 10 number then 10 else number) * addr_len + 1)

-- `root_do_ota(pRootMessage, pServerCmd)`; `block` is `none` where `dest_data` cannot be allocated.
unfoldable pub root_do_ota : RootEnv → RootState → List Effect × RootState
root_do_ota env s =
    let name = read s.msg (RootMsg.node + DeviceOta.name) (ota_name_len + 1) in
    let m = set_header s.msg RootMsg.node BusType.response (s.msg cmd_at) in
    let s1 = record s {
      device_ota = true;
      firmware_name = name;
      url_ota = ota_url s.server_ip name;
      msg = m;
    } in
    let busy = poke (poke m cmd_at BusCmd.ota) body_at BusStatus.ota_updating in
    let reader = if s.ota_read_handle then [] else start_ota_read ∷ [] in
    elim env.block [
      | none ↦ ([], s)
      | some _ ↦
          if s.ota_read_task then (send busy root_packet_len ∷ [], record s1 { msg = busy }) else (
            reader ++ start_ota (ota_dest_data m) ∷ [],
            record s1 { ota_read_task = true; ota_read_handle = true },
          )
    ]

-- An answer with one byte of data, in the message that held the command.
abbrev pub answer : RootState → Store → (cmd value : ℕ) → List Effect × RootState
answer s m cmd value =
    if s.sock_open
    then (let a = poke (poke m cmd_at cmd) body_at value in
        (send a root_packet_len ∷ [], record s { msg = a }))
    else ([], record s { msg = m })

abbrev pub and_then : List Effect → List Effect × RootState → List Effect × RootState
and_then es r = (es ++ r.0, r.1)

-- The switch on `cmd` of a request, lines 885 to 936. `none` is the fault of `root_send_photo`.
unfoldable pub on_server_request : RootEnv → RootState → ℕ → Option (List Effect × RootState)
on_server_request env s cmd =
    let value = s.msg body_at in
    if cmd == BusCmd.ota
    then some (root_do_ota env s)
    else (if cmd == BusCmd.restart
        then some (root_do_restart env s)
        else (if cmd == BusCmd.pic
            then Option.map (λ (r : List Effect × Store). (r.0, record s { msg = r.1 }))
                (root_send_photo env.sends s.sock_open s.self_mac env.camera s.msg)
            else (if cmd == BusCmd.led
                then (let (led, pins) = set_light_color value in
                    some (and_then pins (answer (record s { led = led }) s.msg BusCmd.led value)))
                else (if cmd == BusCmd.ping
                    then some (answer s s.msg BusCmd.ping (get_light_color s.led))
                    else (if cmd == BusCmd.switch
                        then some (
                            answer (record s { files = set_work_mode env value s.files }) s.msg
                              BusCmd.switch value)
                        else some ([], s))))))

-- `do_process_data_from_tcpser_or_root(pRootMsg)`: what is no request is only logged.
unfoldable pub process_server_data : RootEnv → RootState → Option (List Effect × RootState)
process_server_data env s =
    if s.msg type_at == BusType.request
    then on_server_request env s (s.msg cmd_at)
    else some ([], s)
