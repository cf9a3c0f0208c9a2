-- ===== src/Effect.antt =====
-- What the code does to the world outside its memory: the calls of the socket, the mesh, the pins and
-- the watchdog, in the order in which the code makes them.
use esp32_mesh.Common.{ℕ, ◌+◌, List, Option}
use esp32_mesh.Common.Memory.{Store}

pub data Effect : Type 0 where
  -- send(g_sockfd, p, n, 0)
  send : Store → ℕ → Effect
  -- mwifi_write(addr, data_type, p, n, true); a NULL address is the root.
  mesh_write : Option (List ℕ) → Store → ℕ → Effect
  -- mwifi_root_write(addr, 1, data_type, p, n, true)
  root_write : List ℕ → Store → ℕ → Effect
  -- period_feed_dog_in_second(sec)
  feed_dog_in : ℕ → Effect
  -- system_reboot()
  reboot : Effect
  -- mupgrade_handle(src_addr, p, n) on a node, mupgrade_root_handle(src_addr, p, n) on the root
  upgrade : List ℕ → Store → ℕ → Effect
  -- xTaskCreate of ota_task, with its dest_data, and of root_ota_read_task
  start_ota : List ℕ → Effect
  start_ota_read : Effect
  -- gpio_set_level(pin, level)
  gpio : ℕ → ℕ → Effect

-- The region that begins at an offset of another.
abbrev pub at : Store → ℕ → Store
at m off a = m (off + a)
