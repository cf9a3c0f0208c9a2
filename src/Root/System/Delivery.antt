-- ===== src/Root/System/Delivery.antt =====
-- What the loop over the mesh sends to a node for a queued command, in whatever order the loops run.
use esp32_mesh.Common.{◌≡◌, refl, ap, List, [], ◌∷◌, some}
use esp32_mesh.Common.Memory.{Store}
use esp32_mesh.Effect.{mesh_write}
use esp32_mesh.DevList.{Mac}
use esp32_mesh.Root.MeshTask.{MeshSeen, ServerMsg, server_phase}
use esp32_mesh.Root.Relay.{packet_for}
use esp32_mesh.Root.System.{System, server_at}

-- The message for a command that the loop takes.
abbrev pub packet_of : System → ServerMsg → Store
packet_of u q = packet_for u.mesh.gather.mem u.mesh.gather.cmd u.sqmsg q.command

pub server_at-dest :
    (u : System) (q : ServerMsg) (qs : List ServerMsg) (a : Mac) (seen : MeshSeen)
    → q.dest ≡ some a
    → (w : System) × ((server_at u (some (q ∷ qs)) seen
          ≡ some (mesh_write (some a) (packet_of u q) 1430 ∷ [], w))
        × (w.socket.queue ≡ some qs))
unfolding server_phase
server_at-dest u q qs a seen to =
    (_, (ap (λ d. server_at u (some (record q { dest = d } ∷ qs)) seen) to, refl))
