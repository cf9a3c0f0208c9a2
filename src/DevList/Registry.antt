-- ===== src/DevList/Registry.antt =====
-- What the device list promises to the code that uses it, and what its users may conclude from that.
use esp32_mesh.Common.{
  ℕ, ◌≡◌, refl, ap, ◌∙◌, List, [], ◌∷◌, Option, none, some, bytes_eq, if◌then◌else◌,
}
use esp32_mesh.DevList.{Mac}

-- A registry of devices: it finds the version that was set last, and nothing for a device taken off.
pub record Registry : Type 1 where
  pub State : Type 0
  pub set : State → Mac → List ℕ → State
  pub drop : State → Mac → State
  pub find : State → Mac → Option (List ℕ)
  pub find-set :
      (s : State) (a : Mac) (v : List ℕ) (b : Mac)
      → find (set s a v) b ≡ (if bytes_eq a b then some v else find s b)
  pub find-drop :
      (s : State) (a b : Mac) → find (drop s a) b ≡ (if bytes_eq a b then none else find s b)

-- What happens to a registry: a device registers with a version, or has left.
pub data Event : Type 0 where
  joined : Mac → List ℕ → Event
  left : Mac → Event

-- The version of a device after the events, by the last of them that is about it; `v` is what it had.
abbrev pub last_version : List Event → Option (List ℕ) → Mac → Option (List ℕ)
last_version [] v b = v
last_version (joined a w ∷ es) v b = last_version es (if bytes_eq a b then some w else v) b
last_version (left a ∷ es) v b = last_version es (if bytes_eq a b then none else v) b

module _ (r : Registry) where
  open r use {State, set, drop, find, find-set, find-drop}

  abbrev pub replay : List Event → State → State
  replay [] s = s
  replay (joined a w ∷ es) s = replay es (set s a w)
  replay (left a ∷ es) s = replay es (drop s a)

  -- Whatever happens, and in whatever order, a registry finds for each device what the last event about
  -- it says.
  pub find-replay :
      (es : List Event) (s : State) (b : Mac) → find (replay es s) b ≡ last_version es (find s b) b
  find-replay [] s b = refl
  find-replay (joined a w ∷ es) s b =
      find-replay es (set s a w) b ∙ ap (λ v. last_version es v b) (find-set s a w b)
  find-replay (left a ∷ es) s b =
      find-replay es (drop s a) b ∙ ap (λ v. last_version es v b) (find-drop s a b)
