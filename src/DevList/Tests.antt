-- ===== src/DevList/Tests.antt =====
-- The theorems on the device list, on a list of two nodes.
use esp32_mesh.Common.{◌≡◌, ◌≢◌, ap, refl, List, [], ◌∷◌, some, bytes_eq}
use mathlib.Core.Bool.{true≢false}
use esp32_mesh.DevList.{Mac, NodeInfo}
use esp32_mesh.DevList.Registry.{Event, joined, left, last_version}
use esp32_mesh.DevList.Implements.{call_all, call_all-refines}
use esp32_mesh.DevList.Laws.{version_of, IsUnique}

abbrev mac_a : Mac
mac_a = 36 ∷ 10 ∷ 196 ∷ 1 ∷ 2 ∷ 3 ∷ []

abbrev mac_b : Mac
mac_b = 36 ∷ 10 ∷ 196 ∷ 4 ∷ 5 ∷ 6 ∷ []

abbrev mac_c : Mac
mac_c = 36 ∷ 10 ∷ 196 ∷ 7 ∷ 8 ∷ 9 ∷ []

abbrev node_a : NodeInfo
node_a = record { mac_addr = mac_a; version = 49 ∷ [] }

abbrev node_b : NodeInfo
node_b = record { mac_addr = mac_b; version = 50 ∷ [] }

abbrev two : List NodeInfo
two = node_a ∷ node_b ∷ []

two-IsUnique : IsUnique two
two-IsUnique = (refl, (refl, tt))

a_not_b : mac_a ≢ mac_b
a_not_b e = true≢false (ap (bytes_eq mac_a) e)

-- One device registers, an older one leaves, and the first registers again.
abbrev events : List Event
events = joined mac_c (51 ∷ []) ∷ left mac_a ∷ joined mac_c (52 ∷ []) ∷ []

call_all-refines_example :
    (r : List NodeInfo) × ((call_all [] events two ≡ some r)
      × IsUnique r
      × ((b : Mac) → version_of r b ≡ last_version events (version_of two b) b))
call_all-refines_example = call_all-refines [] events two two-IsUnique
