-- ===== src/Root/Ota/Busy.antt =====
-- What an update of the devices leaves behind on the root.
use mathlib.Core.Option
use mathlib.Core.Option.{map}
use esp32_mesh.Common.{
  ℕ, ◌≡◌, refl, ap, ◌∙◌, Bool-cases, inl, inr, if◌then◌else◌, true, false, List, [], ◌∷◌, some,
}
use mathlib.Core.List.{append-nil}
use esp32_mesh.Effect.{feed_dog_in}
use esp32_mesh.Photo.Gather.{Gather}
use esp32_mesh.Root.State.{RootState, RootEnv}
use esp32_mesh.Root.Command.{root_do_ota}
use esp32_mesh.Root.MeshTask.{
  MeshTask, MeshSeen, ping_phase, register_phase, queues_phase, mesh_round, prepend,
}
use esp32_mesh.Root.Socket.{SocketTask, SocketSeen, socket_round}
use esp32_mesh.Root.Ota.{ota_ended}

-- The loop over the mesh with this state of the root.
abbrev pub loop_with : Gather → (last : ℕ) → RootState → MeshTask
loop_with g last s = record { gather = g; root = s; last = last }

-- The root's state behind a command for an update and the end of the task that the command starts.
abbrev pub after_update : RootEnv → RootState → RootState
after_update env s = ota_ended (root_do_ota env s).1

mesh_round_busy :
    (seen : MeshSeen) (g : Gather) (last : ℕ) (s : RootState)
    → s.device_ota ≡ true
    → mesh_round seen (loop_with g last s) ≡ some (ping_phase seen (loop_with g last s))
unfolding mesh_round
mesh_round_busy seen g last s busy =
    let p = ping_phase seen (loop_with g last s) in
    let rest =
      (let (ok, sent, t2) = register_phase seen p.1 in
        if ok then Option.map (prepend sent) (queues_phase seen t2) else some (sent, t2)) in
    ap (λ b. Option.map (prepend p.0) (if b then some ([], p.1) else rest)) busy
    ∙ ap (λ es. some (es, p.1)) (append-nil p.0)

socket_round_busy :
    (seen : SocketSeen) (t : SocketTask)
    → seen.device_ota ≡ true
    → socket_round seen t ≡ (feed_dog_in 10 ∷ [], t)
unfolding socket_round
socket_round_busy seen t busy = rw busy refl

after_update_flags :
    (env : RootEnv) (s : RootState) (block : List ℕ)
    → env.block ≡ some block
    → ((after_update env s).device_ota ≡ true) × ((after_update env s).ota_read_task ≡ false)
unfolding root_do_ota
after_update_flags env s block mem = elim (Bool-cases s.ota_read_task) [
  | inl running ↦ rw (mem, running) (refl, refl)
  | inr idle ↦ rw (mem, idle) (refl, refl)
]

-- Once an update has been asked for, with memory for dest_data, and its task has come to its end, a round
-- of the loop over the mesh does no more than its ping, and a round of the loop over the socket, which
-- sees bDeviceOtaFlag as it is, feeds the watchdog and reads nothing: the flag stays set, although
-- g_ota_read_task_flag has been cleared.
pub mesh_round-after_update :
    (env : RootEnv) (s : RootState) (block : List ℕ) (g : Gather) (last : ℕ)
    → (seen : MeshSeen) (socket : SocketSeen) (t : SocketTask) → env.block ≡ some block
    → socket.device_ota ≡ (after_update env s).device_ota
    → let loop = loop_with g last (after_update env s) in
      (mesh_round seen loop ≡ some (ping_phase seen loop))
      × (socket_round socket t ≡ (feed_dog_in 10 ∷ [], t))
      × ((after_update env s).ota_read_task ≡ false)
mesh_round-after_update env s block g last seen socket t mem same =
    let flags = after_update_flags env s block mem in
    (
      mesh_round_busy seen g last (after_update env s) flags.0,
      socket_round_busy socket t (same ∙ flags.0),
      flags.1,
    )
