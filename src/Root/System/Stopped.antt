-- ===== src/Root/System/Stopped.antt =====
-- What becomes of the two loops once an update of the devices has been asked for.
use esp32_mesh.Common.{◌≡◌, refl, ap, ◌∙◌, Bool, true, List, [], ◌∷◌, ◌++◌, some, if◌then◌else◌}
use esp32_mesh.Effect.{Effect, feed_dog_in}
use esp32_mesh.DevList.{Mac, NodeInfo}
use esp32_mesh.Root.Registry.{IsStable}
use esp32_mesh.Root.MeshTask.{MeshSeen, ping_phase, register_phase}
use esp32_mesh.Root.Socket.{Found, socket_round, on_found}
use esp32_mesh.Root.System.{
  System, at_begin, at_offline, sees, socket_step, moved, phase_at, mesh_step, Reach,
}
use esp32_mesh.Root.System.Safety.{IsSafe, WasListed, Reach-Safe}

-- An update is under way, as far as bDeviceOtaFlag shows.
abbrev pub Busy : Mac → List NodeInfo → Bool → Type 0
Busy self ns busy = busy ≡ true

abbrev Busy-IsStable : IsStable Busy
Busy-IsStable = record {
  set = λ self ns busy a v six b. b;
  drop = λ self ns busy a b. b;
  update = λ self ns busy b. refl;
}

-- Once bDeviceOtaFlag is set, in a safe state, the root has stopped for good: in every state that the two
-- loops reach, in whatever order, with sound surroundings, and the end of an update among their steps,
-- the flag is set; a round of the loop over the socket feeds the watchdog, reads nothing, and leaves the
-- queue as it is; and the loop over the mesh, where it stands at the beginning of a round, does no more
-- than its ping and stays there.
pub Reach-stops :
    (s u : System) (f : Found) (seen : MeshSeen)
    → IsSafe Busy (WasListed s) s
    → Reach s u
    → (u.mesh.root.device_ota ≡ true)
      × ((socket_step f u).0 ≡ feed_dog_in 10 ∷ [])
      × ((socket_step f u).1.socket.queue ≡ u.socket.queue)
      × ((socket_step f u).1.socket.buffer ≡ u.socket.buffer)
      × (u.at ≡ at_begin
          → mesh_step seen u
            ≡ some ((ping_phase seen u.mesh).0, moved u at_begin (ping_phase seen u.mesh).1))
unfolding phase_at socket_round
Reach-stops s u f seen h r =
    let busy = (Reach-Safe Busy-IsStable s u h r).root in
    let t = record u.socket { sock_open = u.mesh.root.sock_open } in
    let rest = if u.mesh.root.sock_open then on_found (sees u f) t f else t in
    let ping = ping_phase seen u.mesh in
    let (registered, sent, t2) = register_phase seen ping.1 in
    let idle : List Effect × System = (ping.0, moved u at_begin ping.1) in
    let goes_on : List Effect × System =
      if registered
      then (ping.0 ++ sent, moved u at_offline t2)
      else (ping.0 ++ sent, moved u at_begin t2) in
    (
      busy,
      refl,
      ap (λ b. (if b then t else rest).queue) busy,
      ap (λ b. (if b then t else rest).buffer) busy,
      λ at. ap (λ p. phase_at p seen u) at ∙ ap (λ b. some (if b then idle else goes_on)) busy,
    )
