-- ===== src/Wire/Layout/Tests.antt =====
-- The offsets of the tables are those of the structures.
use esp32_mesh.Common.{◌+◌, ◌≡◌, refl}
use esp32_mesh.Wire.Sizes.{tcp_client_recv_len}
use esp32_mesh.Wire.Msg
use esp32_mesh.Wire.RootMsg
use esp32_mesh.Wire.ChildRegister
use esp32_mesh.Wire.ChildUnregister
use esp32_mesh.Wire.RespRestart
use esp32_mesh.Wire.DeviceVersion
use esp32_mesh.Wire.RootPing
use esp32_mesh.Wire.DeviceRestart
use esp32_mesh.Wire.DeviceOta
use esp32_mesh.Wire.NodePic
use esp32_mesh.Wire.Layout.{
  child_node_register, child_node_unregister, resp_restart, device_version, root_ping,
  device_restart, device_ota, node_pic_sizes, total, offset, node_msg, server_cmd, root_msg,
  serverqueue_msg,
}

tables_of_nodes :
    (offset (node_msg child_node_register) 3 ≡ ChildRegister.number)
    × (offset (node_msg child_node_register) 4 ≡ ChildRegister.payload)
    × (offset (node_msg child_node_unregister) 4 ≡ ChildUnregister.dev_mac)
    × (offset (node_msg child_node_unregister) 5 ≡ ChildUnregister.dummy)
    × (offset (node_msg resp_restart) 4 ≡ RespRestart.number)
    × (offset (node_msg resp_restart) 5 ≡ RespRestart.dev_addr)
    × (offset (node_msg device_version) 4 ≡ DeviceVersion.addr)
    × (offset (node_msg device_version) 5 ≡ DeviceVersion.version_str)
    × (offset (node_msg root_ping) 4 ≡ RootPing.root_mac)
    × (offset (node_msg root_ping) 5 ≡ RootPing.node_count)
    × (offset (node_msg root_ping) 6 ≡ RootPing.node_mac)
tables_of_nodes = (refl, refl, refl, refl, refl, refl, refl, refl, refl, refl, refl)

tables_of_commands :
    (offset (server_cmd device_restart) 3 ≡ DeviceRestart.number)
    × (offset (server_cmd device_restart) 4 ≡ DeviceRestart.dev_addr)
    × (offset (server_cmd device_ota) 3 ≡ DeviceOta.name)
    × (offset (server_cmd device_ota) 4 ≡ DeviceOta.number)
    × (offset (server_cmd device_ota) 5 ≡ DeviceOta.addr)
    × (offset (root_msg root_ping) 1 ≡ RootMsg.node)
    × (offset (server_cmd device_ota) 2 ≡ Msg.cmd)
    × (offset node_pic_sizes 3 ≡ NodePic.body)
tables_of_commands = (refl, refl, refl, refl, refl, refl, refl, refl)

-- An item for the queue of commands is longer than the 101 bytes that the queue has for it.
queue_item : total (serverqueue_msg device_ota) ≡ tcp_client_recv_len + 7
queue_item = refl
