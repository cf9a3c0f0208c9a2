-- ===== src/Root/State.antt =====
-- The state of the root that the handlers of main/router.c share. The message buffer is seen from
-- `pRootMsg` on: the address at offset 0, then the message itself.
use esp32_mesh.Common.{ℕ, ◌+◌, Bool, List, [], ◌∷◌, Option, if◌then◌else◌}
use esp32_mesh.Common.Memory.{Store}
use esp32_mesh.Wire.{root_packet_len}
use esp32_mesh.Wire.Msg
use esp32_mesh.Wire.RootMsg
use esp32_mesh.Effect.{Effect, send}
use esp32_mesh.DevList.{NodeInfo}
use esp32_mesh.Config.{Files}
use esp32_mesh.Photo.Frame.{Frame}

-- g_self_mac, whether g_sockfd is not -1, the device list, g_Led_color, the settings, bDeviceOtaFlag,
-- g_ota_read_task_flag, whether g_root_ota_read_task_handle is set, g_ota_firmware_name, url_ota,
-- ConfigServerIp, and the message buffer.
pub record RootState : Type 0 where
  pub self_mac : List ℕ
  pub sock_open : Bool
  pub nodes : List NodeInfo
  pub led : ℕ
  pub files : Files
  pub device_ota : Bool
  pub ota_read_task : Bool
  pub ota_read_handle : Bool
  pub firmware_name : List ℕ
  pub url_ota : List ℕ
  pub server_ip : List ℕ
  pub msg : Store

-- What the surroundings answer while one command is handled: the results of the n-th `mwifi_write`,
-- whether the n-th `send` succeeds, the camera's frame, whether the settings can be opened and renamed,
-- what the line buffer held, and the block that `malloc` gives.
pub record RootEnv : Type 0 where
  pub write : ℕ → ℕ
  pub sends : ℕ → Bool
  pub camera : Option Frame
  pub opened : Bool
  pub renamed : Bool
  pub junk : List ℕ
  pub block : Option (List ℕ)

-- Offsets in a root message.
abbrev pub type_at : ℕ
type_at = RootMsg.node + Msg.type

abbrev pub cmd_at : ℕ
cmd_at = RootMsg.node + Msg.cmd

abbrev pub body_at : ℕ
body_at = RootMsg.node + Msg.body

-- send(g_sockfd, pRootMsg, ROOT_PACKET_LEN, 0) where the socket is open.
abbrev pub send_if_open : RootState → Store → List Effect
send_if_open s m = if s.sock_open then send m root_packet_len ∷ [] else []
