-- ===== src/Root/Ota/Destinations.antt =====
-- Which devices the update task takes out of a command of the server.
use esp32_mesh.Common.{
  ℕ, zero, suc, ◌+◌, ◌*◌, ◌<◌, ◌≤◌, ◌≡◌, refl, ap, ◌∙◌, false, ◌&&◌, List, [], ◌∷◌, Option, none,
  some, arith, get_or, ltb, leb, ◌==◌, if◌then◌else◌, Bool-cases, inl, inr, leb→le,
}
use mathlib.Core.Path.{ap₂}
use esp32_mesh.Common.Memory.{Store, of_bytes, read, read_congr}
use esp32_mesh.DevList.{Mac}
use esp32_mesh.Root.Command.{ota_dest_data}
use esp32_mesh.Root.Ota.{dest_addrs, dest_table}

get_or-read : (m : Store) (off n i : ℕ) → i < n → get_or (read m off n) i 0 ≡ m (off + i)
get_or-read m off zero i h = absurd (omega arith)
get_or-read m off (suc n) zero h = ap m (omega arith)
get_or-read m off (suc n) (suc i) h = get_or-read m (suc off) n i (omega arith) ∙ ap m (omega arith)

-- A table in a copied region is the table in the region.
pub dest_table_congr :
    (a b : Store) (m m' num : ℕ)
    → ((i : ℕ) → i < num * 6 → a (m + i) ≡ b (m' + i))
    → dest_table a m num ≡ dest_table b m' num
dest_table_congr a b m m' zero h = refl
dest_table_congr a b m m' (suc num) h = ap₂ ◌∷◌ (read_congr a b m m' 6 (λ i l. h i (omega arith))) (
    dest_table_congr a b (m + 6) (m' + 6) num
      (λ i l. ap a (omega arith) ∙ h (6 + i) (omega arith) ∙ ap b (omega arith)))

-- The devices in a command of the server, from the message buffer.
abbrev pub command_devices : Store → List Mac
command_devices m = dest_table m 47 (m 46)

-- What the task makes of the number of devices and the table of them.
abbrev chosen : ℕ → List Mac → Option (List Mac)
chosen num table =
    if num == 0
    then some ((255 ∷ 255 ∷ 255 ∷ 255 ∷ 255 ∷ 255 ∷ []) ∷ [])
    else (if leb (num * 6 + 1) 61 && leb num 20 then some table else none)

abbrev pub wanted : ℕ → List Mac → Option (List Mac)
wanted num table =
    if num == 0
    then some ((255 ∷ 255 ∷ 255 ∷ 255 ∷ 255 ∷ 255 ∷ []) ∷ [])
    else (if leb num 10 then some table else none)

chosen_lem : (num : ℕ) (table : List Mac) → chosen num table ≡ wanted num table
chosen_lem num table = ground arith

past : (num : ℕ) (table other : List Mac) → leb num 10 ≡ false → chosen num table ≡ wanted num other
past num table other many = ground arith

first_byte : (m : Store) → get_or (ota_dest_data m) 0 0 ≡ m 46
unfolding ota_dest_data
first_byte m = get_or-read m 46 ((if ltb 10 (m 46) then 10 else m 46) * 6 + 1) 0 (omega arith)

copied :
    (m : Store) (i : ℕ) → m 46 ≤ 10 → i < m 46 * 6 + 1 → of_bytes (ota_dest_data m) i ≡ m (46 + i)
unfolding ota_dest_data
copied m i few l =
    let fits : i < (if ltb 10 (m 46) then 10 else m 46) * 6 + 1 = ground arith in
    get_or-read m 46 ((if ltb 10 (m 46) then 10 else m 46) * 6 + 1) i fits

-- From a command for an update the update task takes all devices where the command gives the number 0,
-- the devices in it, in order, where it gives at most 10, and else it reads past the end of the 61
-- bytes that hold them: no more than 10 are copied, but the number is copied as it is.
pub dest_addrs-ota_dest_data :
    (m : Store)
    → dest_addrs (ota_dest_data m) ≡ (
        if m 46 == 0
        then some ((255 ∷ 255 ∷ 255 ∷ 255 ∷ 255 ∷ 255 ∷ []) ∷ [])
        else (if leb (m 46) 10 then some (command_devices m) else none))
unfolding dest_addrs ota_dest_data
dest_addrs-ota_dest_data m =
    ap (λ num. chosen num (dest_table (of_bytes (ota_dest_data m)) 1 num)) (first_byte m)
    ∙ elim (Bool-cases (leb (m 46) 10)) [
      | inl few ↦
          ap (chosen (m 46)) (
            dest_table_congr (of_bytes (ota_dest_data m)) m 1 47 (m 46)
              (λ i l. copied m (1 + i) (leb→le (m 46) 10 few) (omega arith) ∙ ap m (omega arith)))
          ∙ chosen_lem (m 46) (command_devices m)
      | inr many ↦
          past (m 46) (dest_table (of_bytes (ota_dest_data m)) 1 (m 46)) (command_devices m) many
    ]
