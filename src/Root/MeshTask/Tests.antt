-- ===== src/Root/MeshTask/Tests.antt =====
-- The root's loop, with a node that registers, and with a ping while a photo is gathered.
use esp32_mesh.Common.{ℕ, ◌≡◌, refl, true, false, List, [], ◌∷◌, some, arith}
use esp32_mesh.Effect.{Effect}
use esp32_mesh.DevList.Laws.{version_of}
use esp32_mesh.Config.Text.{cstr}
use esp32_mesh.Root.TestData.{quiet_round, mac_c, state, env, message, two-IsUnique}
use esp32_mesh.Root.MeshTask.{MeshTask, MeshSeen, read_phase}
use esp32_mesh.Root.MeshTask.Reading.{waiting}
use esp32_mesh.Root.MeshTask.Laws.{registration_of, read_phase-registers}

abbrev seen : MeshSeen
seen = record quiet_round { env = record env { sends = λ i. false } }

read_phase-registers_example :
    (es : List Effect) × ((t : MeshTask) × ((v : List ℕ) × ((read_phase
              (record seen {
                incoming = some (registration_of (message []) mac_c (48 ∷ 46 ∷ 52 ∷ []));
              })
              (waiting (message []) 0 false (state (message [])) 0)
            ≡ some (es, t))
          × (version_of t.root.nodes mac_c ≡ some v)
          × (cstr v ≡ 48 ∷ 46 ∷ 52 ∷ []))))
read_phase-registers_example =
    read_phase-registers seen (message []) 0 false (state (message [])) 0 (message []) mac_c
      (48 ∷ 46 ∷ 52 ∷ []) [] refl refl refl (omega arith)
      ((λ e. omega (arith, e)), ((λ e. omega (arith, e)), ((λ e. omega (arith, e)), tt)))
      two-IsUnique

-- A round in which a node has been added, while a photo is gathered.
abbrev told : MeshSeen
told = record quiet_round { mesh_queue = some 1 }

abbrev gathering : MeshTask
gathering = waiting (message []) 0 true (state (message [])) 0
