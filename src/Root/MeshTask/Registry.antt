-- ===== src/Root/MeshTask/Registry.antt =====
-- The device list over any number of rounds of `root_mesh_read_task`.
use mathlib.Core.Option
use esp32_mesh.Common.{
  ℕ, ◌≡◌, refl, Bool, true, false, List, [], ◌∷◌, Option, none, some, length, bytes_eq,
}
use esp32_mesh.Common.Runs.{Runs, Runs-result, if-Holds, map-Runs, bind-Runs}
use esp32_mesh.Common.Memory.{memcpy, read}
use esp32_mesh.Effect.{Effect}
use esp32_mesh.Message.{put_bytes}
use esp32_mesh.Photo.Frame.{Frame}
use esp32_mesh.DevList.{Mac, NodeInfo}
use esp32_mesh.DevList.Laws.{IsList, upsert-IsList, del_node-IsList}
use esp32_mesh.Root.Command.{process_server_data}
use esp32_mesh.Root.Registry.{
  On, IsStable, Holds, process_server_data-Stable, process_node_data-Stable,
  root_do_child_offline-Stable,
}
use esp32_mesh.Root.MeshTask.{
  MeshTask, MeshSeen, Incoming, ServerMsg, at_buffer, after_handler, with_mem, prepend, ping_phase,
  register_phase, offline_phase, server_phase, read_message, read_phase, queues_phase, mesh_round,
  root_mesh_read_task, normal_header,
}

-- A round in which the camera, if it is asked, gives a frame, and a message, if there is one, has a
-- sender of 6 bytes.
pub record IsSound (seen : MeshSeen) : Type 0 where
  pub frame : Frame
  pub camera : seen.env.camera ≡ some frame
  pub sender : (p : Incoming) → seen.incoming ≡ some p → length p.src ≡ 6

abbrev pub AllSound : List MeshSeen → Type 0
AllSound [] = Unit {0}
AllSound (seen ∷ rest) = IsSound seen × AllSound rest

module _ {P : Mac → List NodeInfo → Bool → Type 0} (p : IsStable P) where
  abbrev pub Keeps : List Effect × MeshTask → Type 0
  Keeps r = On P r.1.root

  server_data-Keeps :
      (seen : MeshSeen) (t : MeshTask)
      → IsSound seen
      → On P t.root
      → Runs Keeps (Option.map (after_handler t) (process_server_data seen.env (at_buffer t)))
  server_data-Keeps seen t k h =
      map-Runs (Holds p) Keeps (after_handler t) (process_server_data seen.env (at_buffer t))
        (λ r q. q) (process_server_data-Stable p seen.env (at_buffer t) k.frame k.camera h)

  pub register_phase-Keeps :
      (seen : MeshSeen) (t : MeshTask) → On P t.root → On P (register_phase seen t).2.root
  unfolding register_phase
  register_phase-Keeps seen t h =
      if-Holds (λ (r : Bool × List Effect × MeshTask). On P r.2.root) t.root.sock_open h
        (if-Holds (λ (r : Bool × List Effect × MeshTask). On P r.2.root) seen.connects h h)

  pub offline_phase-Keeps :
      (seen : MeshSeen) (t : MeshTask) → On P t.root → Keeps (offline_phase seen t)
  unfolding offline_phase
  offline_phase-Keeps seen t h = go seen.tcp_queue
    where
      go : (o : Option ℕ) → Keeps (offline_phase (record seen { tcp_queue = o }) t)
      go none = h
      go (some cmd) = root_do_child_offline-Stable p seen.table (at_buffer t) cmd h

  pub server_phase-Keeps :
      (seen : MeshSeen) (t : MeshTask)
      → IsSound seen
      → On P t.root
      → Runs Keeps (server_phase seen t)
  unfolding server_phase
  server_phase-Keeps seen t k h = go seen.server_queue
    where
      go : (o : Option ServerMsg) → Runs Keeps (server_phase (record seen { server_queue = o }) t)
      go none = h
      go (some q) = to q.dest
        where
          to :
              (d : Option Mac)
              → Runs Keeps
                  (server_phase (record seen { server_queue = some (record q { dest = d }) }) t)
          to none =
              server_data-Keeps seen
                (with_mem t (
                  memcpy (put_bytes t.gather.mem t.gather.msg t.root.self_mac) t.gather.cmd
                    q.command 0 101))
                k h
          to (some a) = h

  read_message-Keeps :
      (seen : MeshSeen) (t : MeshTask) (m : Incoming) (normal : Bool) (fb : Frame)
      → seen.env.camera ≡ some fb
      → length m.src ≡ 6
      → On P t.root
      → Runs Keeps (read_message seen t m normal)
  unfolding read_message
  read_message-Keeps seen t m false fb k six h = h
  read_message-Keeps seen t m true fb k six h =
      let t1 = with_mem t (put_bytes t.gather.mem t.gather.msg m.src) in
      map-Runs (Holds p) Keeps (after_handler t1) _ (λ r q. q)
        (if-Holds (Runs (Holds p)) (bytes_eq m.src t.root.self_mac)
          (process_server_data-Stable p seen.env (at_buffer t1) fb k h)
          (process_node_data-Stable p seen.env (at_buffer t1) m.src six h))

  pub read_phase-Keeps :
      (seen : MeshSeen) (t : MeshTask) → IsSound seen → On P t.root → Runs Keeps (read_phase seen t)
  unfolding read_phase
  read_phase-Keeps seen t k h = go seen.incoming k.sender
    where
      go :
          (o : Option Incoming)
          → ((m : Incoming) → o ≡ some m → length m.src ≡ 6)
          → Runs Keeps (read_phase (record seen { incoming = o }) t)
      go none six = h
      go (some m) six =
          let mem = memcpy t.gather.mem t.gather.cmd m.packet 0 m.size in
          if-Holds (Runs Keeps) m.upgrades h (
            read_message-Keeps (record seen { incoming = some m }) (with_mem t mem) m
              (bytes_eq (read mem t.gather.cmd 6) normal_header) k.frame k.camera (six m refl) h)

  queues_phase-Keeps :
      (seen : MeshSeen) (t : MeshTask)
      → IsSound seen
      → On P t.root
      → Runs Keeps (queues_phase seen t)
  queues_phase-Keeps seen t k h =
      let off = offline_phase seen t in
      map-Runs Keeps Keeps (prepend off.0) _ (λ r q. q)
        (bind-Runs Keeps Keeps _ (server_phase seen off.1)
          (λ r q.
            map-Runs Keeps Keeps (prepend r.0) (read_phase seen r.1) (λ u v. v)
              (read_phase-Keeps seen r.1 k q))
          (server_phase-Keeps seen off.1 k (offline_phase-Keeps seen t h)))

  mesh_round-Keeps :
      (seen : MeshSeen) (t : MeshTask) → IsSound seen → On P t.root → Runs Keeps (mesh_round seen t)
  unfolding mesh_round
  mesh_round-Keeps seen t k h =
      let t1 = (ping_phase seen t).1 in
      let r = register_phase seen t1 in
      let kept = register_phase-Keeps seen t1 h in
      map-Runs Keeps Keeps (prepend (ping_phase seen t).0) _ (λ r q. q)
        (if-Holds (Runs Keeps) t.root.device_ota h (
          if-Holds (Runs Keeps) r.0
            (map-Runs Keeps Keeps (prepend r.1) (queues_phase seen r.2) (λ r q. q)
              (queues_phase-Keeps seen r.2 k kept))
            kept))

  root_mesh_read_task-Keeps :
      (rounds : List MeshSeen) (t : MeshTask)
      → AllSound rounds
      → On P t.root
      → Runs Keeps (root_mesh_read_task rounds t)
  unfolding root_mesh_read_task
  root_mesh_read_task-Keeps [] t k h = h
  root_mesh_read_task-Keeps (seen ∷ rest) t k h =
      bind-Runs Keeps Keeps _ (mesh_round seen t)
        (λ r q.
          map-Runs Keeps Keeps (prepend r.0) (root_mesh_read_task rest r.1) (λ u v. v)
            (root_mesh_read_task-Keeps rest r.1 k.1 q))
        (mesh_round-Keeps seen t k.0 h)

abbrev pub list-IsStable : IsStable (λ self ns busy. IsList ns)
list-IsStable = record {
  set = λ self ns busy a v six l. upsert-IsList ns a v six l;
  drop = λ self ns busy a l. del_node-IsList ns a l;
  update = λ self ns busy l. l;
}

-- However many rounds the root's loop over the mesh makes, whatever the queues, the mesh and the routing
-- tables bring, where each message has a sender of 6 bytes, and the camera has a frame whenever it is
-- asked: the loop does not fault, and where the device list has addresses of 6 bytes, none twice, so
-- has the list that it leaves.
pub root_mesh_read_task-IsList :
    (rounds : List MeshSeen) (t : MeshTask)
    → AllSound rounds
    → IsList t.root.nodes
    → (r : List Effect × MeshTask) × ((root_mesh_read_task rounds t ≡ some r)
        × IsList r.1.root.nodes)
root_mesh_read_task-IsList rounds t k l =
    Runs-result (Keeps list-IsStable) (root_mesh_read_task rounds t)
      (root_mesh_read_task-Keeps list-IsStable rounds t k l)
