-- ===== src/Node/Handlers.antt =====
-- The handlers of main/node_task.c for the commands from the server and the ping from the root.
use esp32_mesh.Common.{
  ℕ, zero, suc, ◌+◌, ◌*◌, ◌%◌, Bool, true, false, not, ◌||◌, List, [], ◌∷◌, ◌++◌, Option, none,
  some, ◌==◌, bytes_eq, if◌then◌else◌,
}
use esp32_mesh.Common.Memory.{Store, poke, read}
use esp32_mesh.Wire.{addr_len, child_packet_len}
use esp32_mesh.Wire.BusCmd
use esp32_mesh.Wire.BusType
use esp32_mesh.Wire.QueueMsg
use esp32_mesh.Wire.Msg
use esp32_mesh.Wire.RootPing
use esp32_mesh.Wire.DeviceVersion
use esp32_mesh.Message.{set_header, put_text, put_bytes}
use esp32_mesh.Effect.{Effect, mesh_write}
use esp32_mesh.Light.{set_light_color, get_light_color}
use esp32_mesh.Config.{Files, update_system_config}
use esp32_mesh.Config.Text.{cstr}
use esp32_mesh.Config.Items.{codes}
use esp32_mesh.Photo.Frame.{Frame}
use esp32_mesh.Photo.Node.{mdf_ok}

-- g_self_mac, g_root_mac, g_Led_color, the settings' files and *g_node_mesh_buffer.
pub record NodeState : Type 0 where
  pub self_mac : List ℕ
  pub root_mac : List ℕ
  pub led : ℕ
  pub files : Files
  pub msg : Store

-- What the surroundings answer while one message is handled: the result of the n-th `mwifi_write`, the
-- camera's frame, whether the settings can be opened and renamed, what the line buffer held, the
-- value of MDF_ERR_NO_MEM, and CONFIG_DEVICE_VERSION.
pub record Surroundings : Type 0 where
  pub write : ℕ → ℕ
  pub camera : Option Frame
  pub opened : Bool
  pub renamed : Bool
  pub junk : List ℕ
  pub no_mem : ℕ
  pub device_version : List ℕ

pub record Outcome : Type 0 where
  pub ret : ℕ
  pub effects : List Effect
  pub state : NodeState

-- mwifi_write(NULL, &data_type, msg, CHILD_PACKET_LEN, true), as the first write of the handler.
abbrev pub to_root : Surroundings → List Effect → NodeState → Store → Outcome
to_root env before s msg = record {
  ret = env.write 0;
  effects = before ++ mesh_write none msg child_packet_len ∷ [];
  state = record s { msg = msg };
}

-- `node_handle_led(pnodemsg)`
unfoldable pub node_handle_led : Surroundings → NodeState → Outcome
node_handle_led env s =
    let (led, pins) = set_light_color (s.msg Msg.body) in
    to_root env pins (record s { led = led }) (set_header s.msg 0 BusType.response BusCmd.led)

-- `node_handle_ping_from_tcpserver(pnodemsg)`
unfoldable pub node_handle_ping_from_tcpserver : Surroundings → NodeState → Outcome
node_handle_ping_from_tcpserver env s =
    to_root env [] s
      (poke (set_header s.msg 0 BusType.response BusCmd.ping) Msg.body (get_light_color s.led))

-- char acMode[2] = {0}; acMode[0] = mode + 0x30, as a text.
abbrev pub mode_text : ℕ → List ℕ
mode_text mode = cstr ((mode + 0x30) % 256 ∷ 0 ∷ [])

-- `node_handle_switch(pnmsg)`; a failed update is only logged.
unfoldable pub node_handle_switch : Surroundings → NodeState → Outcome
node_handle_switch env s =
    let (done, files) =
      update_system_config env.opened env.renamed env.junk (some (codes "run_mode"))
        (some (mode_text (s.msg Msg.body))) s.files in
    to_root env [] (record s { files = files }) (set_header s.msg 0 BusType.response BusCmd.switch)

-- The loop over u8NodeMac: whether one of `n` addresses from number `i` on is this one.
unfoldable pub is_listed : ℕ → ℕ → Store → List ℕ → Bool
is_listed zero i msg mac = false
is_listed (suc n) i msg mac =
    if bytes_eq mac (read msg (RootPing.node_mac + addr_len * i) addr_len)
    then true
    else is_listed n (i + 1) msg mac

-- SEND_REG: the message by which a node registers.
unfoldable pub register_msg : Store → (self_mac device_version : List ℕ) → Store
register_msg msg self_mac device_version =
    put_text
      (put_bytes (poke (set_header msg 0 BusType.request BusCmd.node_register) DeviceVersion.flag 1)
        DeviceVersion.addr self_mac)
      DeviceVersion.version_str device_version

-- `node_handle_ping_from_root(pmsg)`
unfoldable pub node_handle_ping_from_root : Surroundings → NodeState → Outcome
unfolding register_msg
node_handle_ping_from_root env s =
    let force = s.msg RootPing.force in
    let root = read s.msg RootPing.root_mac addr_len in
    let register = to_root env [] s (register_msg s.msg s.self_mac env.device_version) in
    let nothing : Outcome = record { ret = mdf_ok; effects = []; state = s } in
    if force == QueueMsg.node_add || force == QueueMsg.node_ping
    then (if not (bytes_eq s.root_mac root)
        then record register { state = record register.state { root_mac = root } }
        else (if is_listed (s.msg RootPing.node_count) 0 s.msg s.self_mac
            then nothing
            else register))
    else nothing
