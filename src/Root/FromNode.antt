-- ===== src/Root/FromNode.antt =====
-- `root_do_process_register` and `do_process_data_from_node` of main/router.c: the messages that the
-- nodes send to the root.
use esp32_mesh.Common.{ℕ, ◌+◌, ◌||◌, List, [], Option, some, ◌==◌, if◌then◌else◌}
use mathlib.Core.Option
use esp32_mesh.Common.Memory.{Store, read}
use esp32_mesh.Wire.{max_version_name_len}
use esp32_mesh.Wire.BusCmd
use esp32_mesh.Wire.BusType
use esp32_mesh.Wire.RootMsg
use esp32_mesh.Wire.DeviceVersion
use esp32_mesh.Message.{set_header, put_bytes}
use esp32_mesh.Effect.{Effect}
use esp32_mesh.DevList.{Mac, add_newnode}
use esp32_mesh.Root.State.{RootState, RootEnv, type_at, cmd_at, send_if_open}

-- The bytes that the list copies as the version of a registration.
unfoldable pub version_in : Store → List ℕ
version_in m = read m (RootMsg.node + DeviceVersion.version_str) (max_version_name_len + 1)

-- `root_do_process_register(which, pRootMsg)`; `none` is the fault of `add_newnode`.
unfoldable pub root_do_process_register :
    RootEnv → RootState → Mac → Option (List Effect × RootState)
root_do_process_register env s which =
    let m = set_header s.msg RootMsg.node BusType.request BusCmd.node_register in
    let m1 = if s.sock_open then put_bytes m RootMsg.addr s.self_mac else m in
    Option.map (λ r. (send_if_open s m1, record s { nodes = r.1; msg = m1 }))
      (add_newnode env.block s.nodes which (some (version_in m)))

-- `do_process_data_from_node(which, pRootMsg)`
unfoldable pub process_node_data : RootEnv → RootState → Mac → Option (List Effect × RootState)
process_node_data env s which =
    let cmd = s.msg cmd_at in
    let m = if s.sock_open then put_bytes s.msg RootMsg.addr which else s.msg in
    if s.msg type_at == BusType.request
    then (if cmd == BusCmd.node_register
        then root_do_process_register env s which
        else some ([], s))
    else (if s.msg type_at == BusType.response
        then (if cmd == BusCmd.led || cmd == BusCmd.ping || cmd == BusCmd.switch
            then some (send_if_open s m, record s { msg = m })
            else some ([], s))
        else some ([], s))
