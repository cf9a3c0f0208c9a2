-- ===== src/Root/Registry.antt =====
-- What every handler of the root keeps of its device list, and that the handlers run to their end.

use esp32_mesh.Common.{Bool, true, ℕ, ◌≡◌, ◌||◌, List, [], ◌∷◌, Option, none, some, length, ◌==◌}
use esp32_mesh.Common.Runs.{Runs, if-Holds, map-Runs}
use esp32_mesh.Common.Memory.{Store}
use esp32_mesh.Effect.{Effect}
use esp32_mesh.Message.{set_header}
use esp32_mesh.Light.{set_light_color, get_light_color}
use esp32_mesh.Photo.Frame.{Frame}
use esp32_mesh.Photo.Root.Rounds.{root_send_photo_runs}
use esp32_mesh.DevList.{Mac, NodeInfo, AddStatus, add_newnode, del_node, check_node_is_exist}
use esp32_mesh.DevList.Laws.{upsert, add_newnode-upsert, add_newnode_no_memory}
use esp32_mesh.Root.State.{RootState, RootEnv}
use esp32_mesh.Root.Restart.{root_do_restart}
use esp32_mesh.Root.Command.{
  answer, set_work_mode, root_do_ota, on_server_request, process_server_data,
}
use esp32_mesh.Root.FromNode.{version_in, root_do_process_register, process_node_data}
use esp32_mesh.Root.Offline.{Walk, in_table, put_table, offline_loop, root_do_child_offline}

-- What a property of the root may be about: its address, its device list, and whether an update of the
-- devices is under way.
abbrev pub On : (Mac → List NodeInfo → Bool → Type 0) → RootState → Type 0
On P s = P s.self_mac s.nodes s.device_ota

-- A property that no handler breaks: neither a node's registration, from an address of 6 bytes, nor
-- taking a node off, nor a command for an update.
pub record IsStable (P : Mac → List NodeInfo → Bool → Type 0) : Type 0 where
  pub set :
      (self : Mac) (ns : List NodeInfo) (busy : Bool) (a : Mac) (v : List ℕ)
      → length a ≡ 6
      → P self ns busy
      → P self (upsert ns a v) busy
  pub drop :
      (self : Mac) (ns : List NodeInfo) (busy : Bool) (a : Mac)
      → P self ns busy
      → P self (del_node ns a) busy
  pub update : (self : Mac) (ns : List NodeInfo) (busy : Bool) → P self ns busy → P self ns true

module _ {P : Mac → List NodeInfo → Bool → Type 0} (p : IsStable P) where
  abbrev pub Holds : List Effect × RootState → Type 0
  Holds r = On P r.1

  root_do_ota-Holds : (env : RootEnv) (s : RootState) → On P s → Holds (root_do_ota env s)
  unfolding root_do_ota
  root_do_ota-Holds env s h = go env.block
    where
      go : (o : Option (List ℕ)) → Holds (root_do_ota (record env { block = o }) s)
      go none = h
      go (some b) =
          let begun = p.update s.self_mac s.nodes s.device_ota h in
          if-Holds Holds s.ota_read_task begun begun

  root_do_restart-Holds : (env : RootEnv) (s : RootState) → On P s → Holds (root_do_restart env s)
  unfolding root_do_restart
  root_do_restart-Holds env s h = if-Holds Holds (s.msg 14 == 0) h h

  answer-Holds : (s : RootState) (m : Store) (cmd value : ℕ) → On P s → Holds (answer s m cmd value)
  answer-Holds s m cmd value h = if-Holds Holds s.sock_open h h

  -- With a frame of the camera a command of the server is handled to its end, and keeps the property.
  pub process_server_data-Stable :
      (env : RootEnv) (s : RootState) (fb : Frame)
      → env.camera ≡ some fb
      → On P s
      → Runs Holds (process_server_data env s)
  unfolding process_server_data on_server_request
  process_server_data-Stable env s fb frame h =
      let cmd = s.msg 13 in
      let value = s.msg 14 in
      let photo = root_send_photo_runs env.sends s.self_mac fb s.sock_open s.msg in
      if-Holds (Runs Holds) (s.msg 12 == 1)
        (if-Holds (Runs Holds) (cmd == 1) (root_do_ota-Holds env s h) (
          if-Holds (Runs Holds) (cmd == 2) (root_do_restart-Holds env s h) (
            if-Holds (Runs Holds) (cmd == 3) (rw (frame, photo.1) h) (
              if-Holds (Runs Holds) (cmd == 4)
                (answer-Holds (record s { led = (set_light_color value).0 }) s.msg 4 value h)
                (if-Holds (Runs Holds) (cmd == 8) (answer-Holds s s.msg 8 (get_light_color s.led) h)
                  (if-Holds (Runs Holds) (cmd == 9)
                    (answer-Holds (record s { files = set_work_mode env value s.files }) s.msg 9
                      value h)
                    h))))))
        h

  add_newnode-Stable :
      (self : Mac) (busy : Bool) (block : Option (List ℕ)) (ns : List NodeInfo) (a : Mac)
      (v : List ℕ)
      → length a ≡ 6
      → P self ns busy
      → Runs (λ r. P self r.1 busy) (add_newnode block ns a (some v))
  add_newnode-Stable self busy none [] a v six h =
      rw ((add_newnode_no_memory v (record { mac_addr = a; version = v }) [] a).0) h
  add_newnode-Stable self busy none (n ∷ ns) a v six h = rw ((add_newnode_no_memory v n ns a).1) (
      if-Holds (λ (r : AddStatus × List NodeInfo). P self r.1 busy) (check_node_is_exist (n ∷ ns) a)
        (p.set self (n ∷ ns) busy a v six h) h)
  add_newnode-Stable self busy (some old) ns a v six h =
      rw (add_newnode-upsert old v ns a) (p.set self ns busy a v six h)

  -- A message of a node is handled to its end, whatever it holds, and keeps a stable property.
  pub process_node_data-Stable :
      (env : RootEnv) (s : RootState) (which : Mac)
      → length which ≡ 6
      → On P s
      → Runs Holds (process_node_data env s which)
  unfolding process_node_data root_do_process_register
  process_node_data-Stable env s which six h =
      if-Holds (Runs Holds) (s.msg 12 == 1)
        (if-Holds (Runs Holds) (s.msg 13 == 6)
          (map-Runs (λ (r : AddStatus × List NodeInfo). P s.self_mac r.1 s.device_ota) Holds _
            (add_newnode env.block s.nodes which (some (version_in (set_header s.msg 6 1 6))))
            (λ r q. q) (add_newnode-Stable s.self_mac s.device_ota env.block s.nodes which _ six h))
          h)
        (if-Holds (Runs Holds) (s.msg 12 == 2)
          (if-Holds (Runs Holds) (s.msg 13 == 4 || s.msg 13 == 8 || s.msg 13 == 9) h h) h)

  offline_loop-Stable :
      (self : Mac) (busy : Bool) (size : ℕ) (rest : List NodeInfo) (w : Walk)
      → P self w.nodes busy
      → P self (offline_loop size rest w).nodes busy
  unfolding offline_loop
  offline_loop-Stable self busy size [] w h = h
  offline_loop-Stable self busy size (n ∷ rest) w h =
      if-Holds (λ (u : Walk). P self u.nodes busy) (in_table size 0 w.msg n.mac_addr)
        (offline_loop-Stable self busy size rest w h)
        (offline_loop-Stable self busy size rest _ (p.drop self w.nodes busy n.mac_addr h))

  pub root_do_child_offline-Stable :
      (table : Option (List Mac)) (s : RootState) (cmd : ℕ)
      → On P s
      → On P (root_do_child_offline table s cmd).1
  unfolding root_do_child_offline
  root_do_child_offline-Stable none s cmd h = h
  root_do_child_offline-Stable (some table) s cmd h =
      let start : Walk = record { nodes = s.nodes; rm_num = 0; msg = put_table table 0 s.msg } in
      let w = offline_loop (length table) s.nodes start in
      let kept = offline_loop-Stable s.self_mac s.device_ota (length table) s.nodes start h in
      if-Holds Holds (cmd == 2) (if-Holds Holds (w.rm_num == 0) kept kept) h
