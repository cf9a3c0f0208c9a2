-- ===== src/Root/System/Safety.antt =====
-- What holds in every state that the two loops of the root reach, in whatever order they run.

use mathlib.Core.Option.{none-ne-some, some-injective}
use mathlib.Core.Path.{subst}
use esp32_mesh.Common.{
  ◌≡◌, sym, Bool, true, List, [], ◌∷◌, ◌++◌, Option, none, some, arith, length, ltb,
}
use esp32_mesh.Common.Runs.{Runs, if-Holds, map-Runs}
use esp32_mesh.Effect.{Effect}
use esp32_mesh.DevList.{Mac, NodeInfo, check_node_is_exist}
use esp32_mesh.DevList.Laws.{IsList, upsert-IsList, del_node-IsList}
use esp32_mesh.Root.Registry.{On, IsStable}
use esp32_mesh.Root.MeshTask.{
  MeshTask, MeshSeen, ServerMsg, ping_phase, register_phase, server_phase, read_phase,
}
use esp32_mesh.Root.MeshTask.Registry.{
  Keeps, IsSound, register_phase-Keeps, offline_phase-Keeps, server_phase-Keeps, read_phase-Keeps,
}
use esp32_mesh.Root.Socket.{SocketSeen, Found}
use esp32_mesh.Root.Socket.Bounds.{Inv, QueueFits, socket_round-Inv}
use esp32_mesh.Root.Socket.Queueing.{IsHeader, IsDest, Takes, socket_round-Keeps}
use esp32_mesh.Root.System.{
  MeshAt, at_begin, at_offline, at_server, at_read, System, sees, socket_step, taken, without_first,
  moved, server_at, phase_at, mesh_step, Step, socket_moves, mesh_moves, update_ends, Reach, here,
  next,
}

-- A queued command has a header of 0xff, and is for the root or for a device that satisfies `W`.
abbrev pub IsQueued : (Mac → Type 0) → ServerMsg → Type 0
IsQueued W q = IsHeader q.command × ((a : Mac) → q.dest ≡ some a → W a)

abbrev pub AllQueued : (Mac → Type 0) → Option (List ServerMsg) → Type 0
AllQueued W none = Unit {0}
AllQueued W (some []) = Unit {0}
AllQueued W (some (q ∷ qs)) = IsQueued W q × AllQueued W (some qs)

-- The root satisfies `P`; the reader waits for less than a command, and there are at most 3 commands in
-- the queue, each of them as it may be queued.
pub record IsSafe (P : Mac → List NodeInfo → Bool → Type 0) (W : Mac → Type 0) (s : System)
    : Type 0 where
  pub root : On P s.mesh.root
  pub reader : Inv s.socket
  pub queue : AllQueued W s.socket.queue

AllQueued-append :
    (W : Mac → Type 0) (qs : List ServerMsg) (q : ServerMsg)
    → AllQueued W (some qs)
    → IsQueued W q
    → AllQueued W (some (qs ++ q ∷ []))
AllQueued-append W [] q h k = (k, tt)
AllQueued-append W (x ∷ qs) q h k = (h.0, AllQueued-append W qs q h.1 k)

-- What the reader queues satisfies `W`, if the devices of the list do.
AllQueued-Takes :
    (W : Mac → Type 0) (seen : SocketSeen)
    → ((a : Mac) → check_node_is_exist seen.nodes a ≡ true → W a)
    → Takes seen (AllQueued W)
AllQueued-Takes W seen now qs item head to h =
    if-Holds (λ l. AllQueued W (some l)) (ltb (length qs) 3)
      (AllQueued-append W qs item h (head, named item.dest to)) h
  where
    named : (d : Option Mac) → IsDest seen d → (a : Mac) → d ≡ some a → W a
    named none to a e = absurd (none-ne-some a e)
    named (some b) to a e = subst W (some-injective b a e) (now b to.0)

module _ {P : Mac → List NodeInfo → Bool → Type 0} (p : IsStable P) (W : Mac → Type 0) where
  abbrev Good : List Effect × System → Type 0
  Good r = IsSafe P W r.1

  at_server-Good :
      (seen : MeshSeen) (s : System)
      → IsSound seen
      → IsSafe P W s
      → Runs Good (phase_at at_server seen s)
  unfolding phase_at
  at_server-Good seen s k h = go s.socket.queue h.reader.fits h.queue
    where
      received_safely :
          (o : Option (List ServerMsg))
          → IsSafe P W (without_first s o)
          → Runs Good (server_at s o seen)
      received_safely o safe =
          let seen' = record seen { server_queue = taken s.sqmsg o } in
          let k' : IsSound seen' = record {
            frame = k.frame;
            camera = k.camera;
            sender = k.sender;
          } in
          map-Runs (Keeps p) Good _ (server_phase seen' s.mesh)
            (λ r q. record { root = q; reader = safe.reader; queue = safe.queue })
            (server_phase-Keeps p seen' s.mesh k' h.root)

      go :
          (o : Option (List ServerMsg))
          → QueueFits o
          → AllQueued W o
          → Runs Good (server_at s o seen)
      go none fits all = received_safely none h
      go (some []) fits all = received_safely (some []) h
      go (some (q ∷ qs)) fits all = received_safely (some (q ∷ qs)) (record {
        root = h.root;
        reader = record { waits = h.reader.waits; counts = h.reader.counts; fits = omega arith };
        queue = all.1;
      })

  phase_at-Good :
      (at : MeshAt) (seen : MeshSeen) (s : System)
      → IsSound seen
      → IsSafe P W s
      → Runs Good (phase_at at seen s)
  unfolding phase_at
  phase_at-Good at_begin seen s k h =
      let t1 = (ping_phase seen s.mesh).1 in
      let r = register_phase seen t1 in
      let kept = register_phase-Keeps p seen t1 h.root in
      let pings = (ping_phase seen s.mesh).0 in
      if-Holds Good s.mesh.root.device_ota {x = (pings, moved s at_begin t1)}
        (moved_safely at_begin t1 h.root)
        (if-Holds Good r.0 {x = (pings ++ r.1, moved s at_offline r.2)}
          {y = (pings ++ r.1, moved s at_begin r.2)} (moved_safely at_offline r.2 kept)
          (moved_safely at_begin r.2 kept))
    where
      moved_safely : (to : MeshAt) (t : MeshTask) → On P t.root → IsSafe P W (moved s to t)
      moved_safely to t l = record { root = l; reader = h.reader; queue = h.queue }
  phase_at-Good at_offline seen s k h = record {
    root = offline_phase-Keeps p seen s.mesh h.root;
    reader = h.reader;
    queue = h.queue;
  }
  phase_at-Good at_server seen s k h = at_server-Good seen s k h
  phase_at-Good at_read seen s k h =
      map-Runs (Keeps p) Good _ (read_phase seen s.mesh)
        (λ r q. record { root = q; reader = h.reader; queue = h.queue })
        (read_phase-Keeps p seen s.mesh k h.root)

  mesh_step-IsSafe :
      (seen : MeshSeen) (s u : System) (es : List Effect)
      → IsSound seen
      → IsSafe P W s
      → mesh_step seen s ≡ some (es, u)
      → IsSafe P W u
  mesh_step-IsSafe seen s u es k h e = subst (Runs Good) e (phase_at-Good s.at seen s k h)

  socket_step-IsSafe :
      (f : Found) (s : System)
      → ((a : Mac) → check_node_is_exist s.mesh.root.nodes a ≡ true → W a)
      → IsSafe P W s
      → IsSafe P W (socket_step f s).1
  socket_step-IsSafe f s now h =
      let t = record s.socket { sock_open = s.mesh.root.sock_open } in
      let inv : Inv t = record {
        waits = h.reader.waits;
        counts = h.reader.counts;
        fits = h.reader.fits;
      } in
      record {
        root = h.root;
        reader = socket_round-Inv (sees s f) t inv;
        queue =
            socket_round-Keeps (sees s f) (AllQueued W) (AllQueued-Takes W (sees s f) now) t
              h.queue;
      }

  Step-IsSafe :
      {s u : System}
      → ((a : Mac) → check_node_is_exist s.mesh.root.nodes a ≡ true → W a)
      → IsSafe P W s
      → Step s u
      → IsSafe P W u
  Step-IsSafe {s} now h (socket_moves f e) =
      subst (IsSafe P W) (sym e) (socket_step-IsSafe f s now h)
  Step-IsSafe {s} {u} now h (mesh_moves seen es k e) = mesh_step-IsSafe seen s u es k h e
  Step-IsSafe now h (update_ends e) =
      subst (IsSafe P W) (sym e) (record { root = h.root; reader = h.reader; queue = h.queue })

-- The device was in the root's list in a state that the system went through.
abbrev pub WasListed : System → Mac → Type 0
WasListed s a = (v : System) × (Reach s v × (check_node_is_exist v.mesh.root.nodes a ≡ true))

pub Reach-Safe :
    {P : Mac → List NodeInfo → Bool → Type 0} (p : IsStable P) (s u : System)
    → IsSafe P (WasListed s) s
    → Reach s u
    → IsSafe P (WasListed s) u
Reach-Safe p s u h here = h
Reach-Safe p s u h (next {t} r st) =
    Step-IsSafe p (WasListed s) (λ a listed. (t, (r, listed))) (Reach-Safe p s t h r) st

-- The root has the address that it had, and its list has addresses of 6 bytes, none twice.
abbrev pub Kept : System → Mac → List NodeInfo → Bool → Type 0
Kept s self ns busy = (self ≡ s.mesh.root.self_mac) × IsList ns

abbrev Kept-IsStable : (s : System) → IsStable (Kept s)
Kept-IsStable s = record {
  set = λ self ns busy a v six l. (l.0, upsert-IsList ns a v six l.1);
  drop = λ self ns busy a l. (l.0, del_node-IsList ns a l.1);
  update = λ self ns busy l. l;
}
