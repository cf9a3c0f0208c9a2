-- ===== src/Root/Tests.antt =====
-- The theorems on the root, with two nodes in its list.
use esp32_mesh.Common.{◌≤◌, ◌≡◌, refl, [], ◌∷◌, none, some, arith, length, if◌then◌else◌}
use esp32_mesh.Common.Memory.{Store, read}
use esp32_mesh.Effect.{send, mesh_write}
use esp32_mesh.DevList.{Mac}
use esp32_mesh.DevList.Laws.{version_of, IsUnique}
use esp32_mesh.Root.Restart.{broadcast}
use esp32_mesh.Root.Offline.{root_do_child_offline}
use esp32_mesh.Root.Offline.Table.{is_in}
use esp32_mesh.Root.Offline.Steps.{gone}
use esp32_mesh.Root.Offline.Laws.{root_do_child_offline_lem}
use esp32_mesh.Root.Offline.Steps as OfflineSteps
use esp32_mesh.Root.Ping.{root_send_ping}
use esp32_mesh.Root.Ping.Laws.{root_send_ping_lem}
use esp32_mesh.Root.Ping.Laws as PingLaws
use esp32_mesh.Root.TestData.{mac_root, mac_a, two, state, message, two-IsUnique}

-- The first node is in the routing table of the mesh, the second is not.
root_do_child_offline_lem_example :
    let s = state (message []) in
    let table = mac_root ∷ mac_a ∷ [] in
    let gs = gone table s.nodes in
    let o = root_do_child_offline (some table) s 2 in
    ((b : Mac) → version_of o.1.nodes b ≡ (if is_in table b then version_of s.nodes b else none))
    × IsUnique o.1.nodes
    × (length gs ≡ 0 → o.0 ≡ [])
    × (1 ≤ length gs
        → (m : Store) × ((o.0 ≡ send m 1436 ∷ [])
            × (read m 0 6 ≡ s.self_mac)
            × (m 12 ≡ 1)
            × (m 13 ≡ 7)
            × (m 14 ≡ length gs)
            × OfflineSteps.InRows gs 0 m))
root_do_child_offline_lem_example =
    root_do_child_offline_lem (mac_root ∷ mac_a ∷ []) (state (message [])) (refl, (refl, tt))
      (refl, (refl, tt)) two-IsUnique refl (omega arith)

root_send_ping_lem_example :
    let o = root_send_ping 3 90000 0 (some 1) mac_root two 89000 (message []) in
    (o.effects ≡ mesh_write (some broadcast) o.msg 1430 ∷ [])
    × (o.last ≡ 90000)
    × (o.msg 6 ≡ 1)
    × (o.msg 7 ≡ 10)
    × (o.msg 8 ≡ 1)
    × (read o.msg 9 6 ≡ mac_root)
    × (o.msg 15 ≡ message [] 15)
    × PingLaws.InRows two 0 o.msg
root_send_ping_lem_example =
    root_send_ping_lem 3 90000 0 (some 1) mac_root two 89000 (message []) refl refl refl
      (omega arith) (refl, (refl, tt)) (omega arith)
