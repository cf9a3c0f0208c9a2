-- ===== src/Root/TestData.antt =====
-- A root with two nodes in its list, whose messages are all taken, for the tests.
use esp32_mesh.Common.{
  ℕ, refl, true, false, List, [], ◌∷◌, none, some, get_or, ltb, ◌-◌, ◌++◌, replicate, if◌then◌else◌,
}
use esp32_mesh.Common.Memory.{Store}
use esp32_mesh.DevList.{Mac, NodeInfo}
use esp32_mesh.DevList.Laws.{IsUnique}
use esp32_mesh.Root.State.{RootState, RootEnv}
use esp32_mesh.Root.MeshTask.{MeshSeen}

abbrev pub mac_root : Mac
mac_root = 36 ∷ 10 ∷ 196 ∷ 9 ∷ 9 ∷ 9 ∷ []

abbrev pub mac_a : Mac
mac_a = 36 ∷ 10 ∷ 196 ∷ 1 ∷ 2 ∷ 3 ∷ []

abbrev pub mac_b : Mac
mac_b = 36 ∷ 10 ∷ 196 ∷ 4 ∷ 5 ∷ 6 ∷ []

abbrev pub mac_c : Mac
mac_c = 36 ∷ 10 ∷ 196 ∷ 7 ∷ 8 ∷ 9 ∷ []

abbrev pub two : List NodeInfo
two =
    record { mac_addr = mac_a; version = 49 ∷ 0 ∷ [] }
    ∷ record { mac_addr = mac_b; version = 50 ∷ 0 ∷ [] }
    ∷ []

abbrev pub state : Store → RootState
state m = record {
  self_mac = mac_root;
  sock_open = true;
  nodes = two;
  led = 1;
  files = record { config = none; temp = none };
  device_ota = false;
  ota_read_task = false;
  ota_read_handle = false;
  firmware_name = [];
  url_ota = [];
  server_ip = 49 ∷ [];
  msg = m;
}

abbrev pub env : RootEnv
env = record {
  write = λ i. 0;
  sends = λ i. true;
  camera = none;
  opened = true;
  renamed = true;
  junk = [];
  block = some [];
}

-- A root message with these bytes behind its address and header.
abbrev pub message : List ℕ → Store
message bytes a = if ltb a 12 then 255 else get_or bytes (a - 12) 0

pub two-IsUnique : IsUnique two
two-IsUnique = (refl, (refl, tt))

-- The command for the first node to light up red.
abbrev pub light_command : List ℕ
light_command = mac_a ++ 1 ∷ 4 ∷ 2 ∷ replicate 92 0

-- A round of the loop over the mesh that finds nothing.
abbrev pub quiet_round : MeshSeen
quiet_round = record {
  env = env;
  total_nodes = 3;
  now = 90000;
  junk = 0;
  mesh_queue = none;
  connects = true;
  device_version = 48 ∷ [];
  tcp_queue = none;
  table = none;
  server_queue = none;
  incoming = none;
}
