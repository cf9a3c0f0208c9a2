-- ===== src/Node/Tests.antt =====
-- The theorems on a node's messages, on a ping of the root that names one other node.
use esp32_mesh.Common.{ℕ, ◌+◌, ◌≤◌, ◌≡◌, ◌⊎◌, refl, arith, true, List, [], ◌∷◌, ◌++◌, none, get_or}
use esp32_mesh.Common.Memory.{Store, read}
use esp32_mesh.Effect.{mesh_write}
use esp32_mesh.Node.Handlers.{NodeState, Surroundings, node_handle_ping_from_root}
use esp32_mesh.Node.Ping.{Asks, IsKnownRoot, IsNamed, node_handle_ping_from_root_lem}

abbrev self_mac : List ℕ
self_mac = 36 ∷ 10 ∷ 196 ∷ 1 ∷ 2 ∷ 3 ∷ []

abbrev root_mac : List ℕ
root_mac = 36 ∷ 10 ∷ 196 ∷ 9 ∷ 9 ∷ 9 ∷ []

-- A periodic ping of that root, with one node.
abbrev ping_bytes : List ℕ
ping_bytes =
    255 ∷ 255 ∷ 255 ∷ 255 ∷ 255 ∷ 255 ∷ 1 ∷ 10 ∷ 3 ∷ 36 ∷ 10 ∷ 196 ∷ 9 ∷ 9 ∷ 9 ∷ 1 ∷ 36 ∷ 10 ∷ 196
    ∷ 4 ∷ 5 ∷ 6 ∷ []

abbrev ping_msg : Store
ping_msg a = get_or ping_bytes a 0

abbrev env : Surroundings
env = record {
  write = λ i. 0;
  camera = none;
  opened = true;
  renamed = true;
  junk = [];
  no_mem = 257;
  device_version = 48 ∷ 46 ∷ 52 ∷ [];
}

abbrev state : Store → NodeState
state m = record {
  self_mac = self_mac;
  root_mac = root_mac;
  led = 0;
  files = record { config = none; temp = none };
  msg = m;
}

node_handle_ping_from_root_lem_example :
    let s = state ping_msg in
    let o = node_handle_ping_from_root env s in
    (Asks s
      → (¬ IsKnownRoot s) ⊎ (¬ IsNamed s)
      → (m : Store) × ((o.effects ≡ mesh_write none m 1430 ∷ [])
          × (m 6 ≡ 1)
          × (m 7 ≡ 6)
          × (read m 9 6 ≡ self_mac)
          × (read m 15 4 ≡ (48 ∷ 46 ∷ 52 ∷ []) ++ 0 ∷ [])
          × (15 + 4 ≤ 1430)))
    × (Asks s → IsKnownRoot s → IsNamed s → o.effects ≡ [])
    × (Asks s → o.state.root_mac ≡ read ping_msg 9 6)
    × (¬ Asks s → (o.effects ≡ []) × (o.state.root_mac ≡ root_mac))
    × (o.state.self_mac ≡ self_mac)
    × (o.state.led ≡ 0)
    × (o.state.files ≡ record { config = none; temp = none })
node_handle_ping_from_root_lem_example =
    node_handle_ping_from_root_lem env (state ping_msg) refl (omega arith) (omega arith)
