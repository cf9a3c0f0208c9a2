-- ===== src/Root/System/Tests.antt =====
-- The two loops of a root with two nodes, and two commands in the queue.

use mathlib.Core.Option.{none-ne-some}
use esp32_mesh.Common.{
  ◌≡◌, ◌≢◌, refl, false, true, List, [], ◌∷◌, ◌++◌, some, arith, get_or, ltb, if◌then◌else◌,
}
use esp32_mesh.Common.Memory.{Store, memcpy}
use esp32_mesh.Effect.{at, mesh_write, feed_dog_in}
use esp32_mesh.Photo.Frame.{Frame}
use esp32_mesh.DevList.{Mac, check_node_is_exist}
use esp32_mesh.Root.TestData.{quiet_round, mac_a, mac_b, state, env, message, light_command}
use esp32_mesh.Watchdog.{get_two_timestamp_interval}
use esp32_mesh.Root.Ping.{root_send_ping}
use esp32_mesh.Root.MeshTask.{
  MeshTask, MeshSeen, ServerMsg, with_mem, ping_phase, register_phase, offline_phase, server_phase,
  read_phase,
}
use esp32_mesh.Root.MeshTask.Reading.{waiting}
use esp32_mesh.Root.MeshTask.Registry.{IsSound}
use esp32_mesh.Root.Socket.{received, nothing, stream}
use esp32_mesh.Root.Socket.Commands.{between}
use esp32_mesh.Root.System.{
  System, at_begin, at_offline, at_server, at_read, moved, without_first, server_at, socket_step,
  phase_at, mesh_step, update_ends, with_root, here, next,
}
use esp32_mesh.Root.System.Safety.{IsSafe, WasListed}
use esp32_mesh.Root.System.InOrder.{reads, start, passes, looks, looks_in_order}
use esp32_mesh.Root.Relay.{IsPassedOn}
use esp32_mesh.Root.Ota.{ota_ended}
use esp32_mesh.Root.System.Stopped.{Busy, Reach-stops}
use esp32_mesh.Root.System.Arrival.{reading, command_arrives}

abbrev empty : Store
empty a = 0

abbrev frame : Frame
frame = record { len = 2; buf = empty }

abbrev seen : MeshSeen
seen = record quiet_round { env = record env { camera = some frame } }

abbrev seen-IsSound : IsSound seen
seen-IsSound = record { frame = frame; camera = refl; sender = λ p e. absurd (none-ne-some p e) }

-- A command for a node, as it stands in the queue.
abbrev command_for : Mac → ServerMsg
command_for mac = record {
  dest = some mac;
  command = λ a. if ltb a 6 then 255 else get_or light_command a 0;
}

abbrev waiting_at_queue : System
waiting_at_queue = record {
  mesh = waiting (message []) 0 false (state (message [])) 0;
  socket = between empty 0 empty (command_for mac_a ∷ command_for mac_b ∷ []);
  sqmsg = empty;
  at = at_server;
}

elsewhere : (at_read ≢ at_server) × (at_begin ≢ at_server) × (at_offline ≢ at_server)
elsewhere = (λ e. ground arith, λ e. ground arith, λ e. ground arith)

-- The loop has handed the first command to its node, and goes on to its next look at the queue.
abbrev handed : MeshTask
handed =
    with_mem waiting_at_queue.mesh
      (memcpy (message []) 6 (received empty (command_for mac_a)).command 0 101)

abbrev next_turn : System
next_turn =
    moved (without_first waiting_at_queue waiting_at_queue.socket.queue) at_server
      (ping_phase seen handed).1

looks_in_order_example :
    (later : List ServerMsg) × ((next_turn.socket.queue ≡ some (command_for mac_b ∷ later))
      × (mesh_step seen next_turn ≡ server_at next_turn (some (command_for mac_b ∷ later)) seen))
unfolding phase_at server_phase read_phase register_phase offline_phase root_send_ping
    get_two_timestamp_interval
looks_in_order_example =
    looks_in_order (command_for mac_a ∷ []) (command_for mac_b) [] waiting_at_queue next_turn seen
      refl
      (passes
        (passes
          (passes
            (looks start seen (mesh_write (some mac_a) (at handed.gather.mem 6) 1430 ∷ []) refl
              refl)
            seen [] elsewhere.0 refl)
          seen (ping_phase seen handed).0 elsewhere.1 refl)
        seen [] elsewhere.2 refl)
      refl

-- The command for the first node arrives in an empty queue, and the reader makes one more round.
abbrev after_reading : System
after_reading =
    (socket_step nothing
      (socket_step (stream (light_command ++ []))
        (reading waiting_at_queue.mesh empty 0 empty [] empty at_server)).1).1

command_arrives_example :
    (packet : Store) × ((w : System) × ((mesh_step seen after_reading
          ≡ some (mesh_write (some mac_a) packet 1430 ∷ [], w))
        × IsPassedOn light_command after_reading.sqmsg packet))
unfolding check_node_is_exist
command_arrives_example =
    command_arrives waiting_at_queue.mesh empty empty empty 0 [] at_server light_command []
      after_reading seen refl refl refl (omega arith) refl refl (reads start nothing refl) refl

-- The same root while an update is under way, and when the update has ended.
abbrev busy : System
busy = record waiting_at_queue {
  mesh = waiting (message []) 0 false (record (state (message [])) { device_ota = true }) 0;
  socket = between empty 0 empty [];
  at = at_begin;
}

busy-IsSafe : IsSafe Busy (WasListed busy) busy
busy-IsSafe = record {
  root = refl;
  reader = record { waits = omega arith; counts = omega arith; fits = omega arith };
  queue = tt;
}

abbrev ended : System
ended = with_root busy (ota_ended busy.mesh.root)

Reach-stops_example :
    (ended.mesh.root.device_ota ≡ true)
    × ((socket_step (stream light_command) ended).0 ≡ feed_dog_in 10 ∷ [])
    × ((socket_step (stream light_command) ended).1.socket.queue ≡ ended.socket.queue)
    × ((socket_step (stream light_command) ended).1.socket.buffer ≡ ended.socket.buffer)
    × (ended.at ≡ at_begin
        → mesh_step seen ended
          ≡ some
              ((ping_phase seen ended.mesh).0, moved ended at_begin (ping_phase seen ended.mesh).1))
Reach-stops_example =
    Reach-stops busy ended (stream light_command) seen busy-IsSafe (next here (update_ends refl))
