-- ===== src/Root/Relay/Tests.antt =====
-- The command for the light of a node on its way to the node, and the answer on its way back.
use esp32_mesh.Common.{◌≡◌, refl, true, false, [], ◌∷◌, ◌++◌, none, some, arith}
use esp32_mesh.Common.Memory.{Store, of_bytes, read}
use esp32_mesh.Effect.{at, mesh_write, send, feed_dog_in}
use esp32_mesh.Light.Laws.{pins}
use esp32_mesh.Node.Handlers.{NodeState, Surroundings}
use esp32_mesh.Node.Task.{message, node_round}
use esp32_mesh.Root.TestData.{quiet_round, mac_root, mac_a, two, state, light_command}
use esp32_mesh.Root.MeshTask.{MeshTask, read_phase}
use esp32_mesh.Root.MeshTask.Reading.{waiting, message_of}
use esp32_mesh.Root.Socket.{SocketSeen, stream}
use esp32_mesh.Root.Relay.Answer.{IsMessage, light_answered}

abbrev empty : Store
empty a = 0

abbrev socket : SocketSeen
socket = record {
  self_mac = mac_root;
  nodes = two;
  device_ota = false;
  found = stream (light_command ++ []);
}

abbrev around : Surroundings
around = record {
  write = λ i. 0;
  camera = none;
  opened = true;
  renamed = true;
  junk = [];
  no_mem = 1;
  device_version = 48 ∷ [];
}

abbrev node : NodeState
node = record {
  self_mac = mac_a;
  root_mac = mac_root;
  led = 0;
  files = record { config = none; temp = none };
  msg = empty;
}

abbrev red : Store
red = of_bytes (255 ∷ 255 ∷ 255 ∷ 255 ∷ 255 ∷ 255 ∷ 1 ∷ 4 ∷ 2 ∷ [])

red-IsMessage : IsMessage 1 4 2 red
red-IsMessage = ((λ a l. ground arith), refl, refl, refl)

light_answered_example :
    (answer m : Store) × ((s' : NodeState) × ((t : MeshTask) × ((node_round node
              (message around false mac_root red 1430)
            ≡ some (pins 2 ++ mesh_write none answer 1430 ∷ feed_dog_in 10 ∷ [], s'))
          × (s'.led ≡ 2)
          × (read_phase
                (record quiet_round { incoming = some (message_of mac_a answer) })
                (waiting empty 0 false (state empty) 0)
              ≡ some (send m 1436 ∷ [], t))
          × (read m 0 6 ≡ mac_a)
          × IsMessage 2 4 2 (at m 6))))
light_answered_example =
    light_answered around node mac_root red 2 quiet_round empty 0 false (state empty) 0 mac_a
      red-IsMessage refl refl refl
