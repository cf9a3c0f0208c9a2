-- ===== src/Config/Updating.antt =====
-- `update_system_config` replaces the line of one item, and reading gives the new value back.
use esp32_mesh.Common.{
  take_all, ◌-◌, ◌≡◌, refl, ap, sym, ◌∙◌, true, false, List, [], ◌∷◌, ◌++◌, length, take, arith,
  Option, none, some, if◌then◌else◌, length-append, Bool-cases, inl, inr,
}
use mathlib.Core.Path.{ap₂, subst}
use mathlib.Core.List.{append_assoc, append-nil}
use esp32_mesh.Config.Items.{Item, name, all_items, item_eq, size_of, field, SystemConfig}
use esp32_mesh.Config.Text.{Bytes, newline, equals, cstr, fgets, is_prefix}
use esp32_mesh.Config.{
  GetStatus, UpdateStatus, line_of, file_of, get_system_config, update_loop, update_system_config,
}
use esp32_mesh.Config.File.{IsValue, name_of_line, fgets_of_line, cstr_of_line, body}
use esp32_mesh.Config.Reading.{zeroed, get_system_config-file_of}

-- The values with one of them new.
abbrev pub updated : Item → Bytes → (Item → Bytes) → Item → Bytes
updated j v value i = if item_eq i j then v else value i

line_fits :
    (j : Item) (v : Bytes) → IsValue j v → take 127 (line_of (name j) v) ≡ line_of (name j) v
line_fits j v w = take_all 127 (line_of (name j) v) (
    omega (
      arith,
      length-append (name j) (equals ∷ (v ++ newline ∷ [])),
      length-append v (newline ∷ []),
      w.fits,
    ))

pub item_eq→eq : (i j : Item) → item_eq i j ≡ true → i ≡ j
item_eq→eq i j h = ground arith

chosen :
    (i j : Item) (u v : Bytes)
    → (if item_eq i j then line_of (name j) v else line_of (name i) u)
      ≡ line_of (name i) (if item_eq i j then v else u)
chosen i j u v = elim (Bool-cases (item_eq i j)) [
  | inl same ↦ rw same (ap (λ k. line_of (name k) v) (sym (item_eq→eq i j same)))
  | inr other ↦ rw other
]

update_line :
    (i j : Item) (u v : Bytes)
    → IsValue i u
    → (if is_prefix (name j) (cstr (body i u ++ newline ∷ []))
        then line_of (name j) v
        else cstr (body i u ++ newline ∷ []))
      ≡ line_of (name i) (if item_eq i j then v else u)
update_line i j u v w =
    ap (λ t. if is_prefix (name j) t then line_of (name j) v else t)
      (cstr_of_line i u w ∙ append_assoc (name i) (equals ∷ u) (newline ∷ []))
    ∙ ap (λ b. if b then line_of (name j) v else line_of (name i) u)
        (name_of_line i j (u ++ newline ∷ []))
    ∙ chosen i j u v

update_loop_lem :
    (is : List Item) (j : Item) (v : Bytes) (value : Item → Bytes) (rest buffer : Bytes)
    → ((i : Item) → IsValue i (value i))
    → update_loop (length is) (name j) (line_of (name j) v) buffer (file_of is value ++ rest)
      ≡ file_of is (updated j v value)
unfolding update_loop
update_loop_lem [] j v value rest buffer w = refl
update_loop_lem (i ∷ is) j v value rest buffer w =
    ap
      (λ r.
        (if is_prefix (name j) (cstr r.0) then line_of (name j) v else cstr r.0)
        ++ update_loop (length is) (name j) (line_of (name j) v) r.0 r.1)
      (ap (λ t. fgets 127 t buffer)
          (append_assoc (line_of (name i) (value i)) (file_of is value) rest)
        ∙ fgets_of_line i (value i) (w i) buffer (file_of is value ++ rest))
    ∙ ap₂ ◌++◌ (update_line i j (value i) v (w i))
        (update_loop_lem is j v value rest (body i (value i) ++ newline ∷ []) w)

pub updated-IsValue :
    (j : Item) (v : Bytes) (value : Item → Bytes)
    → ((i : Item) → IsValue i (value i))
    → IsValue j v
    → (i : Item) → IsValue i (updated j v value i)
updated-IsValue j v value w new i = elim (Bool-cases (item_eq i j)) [
  | inl same ↦ rw same (subst (λ k. IsValue k v) (sym (item_eq→eq i j same)) new)
  | inr other ↦ rw other (w i)
]

-- Where the settings file has a line for each item in order, with values without a zero or a newline
-- that fit a line, and it can be opened and renamed, updating an item succeeds, whatever the buffer
-- held: the file then has a line for each item, with the new value for this one and the old value
-- for every other, and no temporary file is left.
pub update_system_config_lem :
    (junk : Bytes) (j : Item) (v : Bytes) (value : Item → Bytes) (temp : Option Bytes)
    → ((i : Item) → IsValue i (value i))
    → IsValue j v
    → update_system_config true true junk
        (some (name j))
        (some v)
        (record { config = some (file_of all_items value); temp = temp })
      ≡ (
        UpdateStatus.ok,
        record { config = some (file_of all_items (updated j v value)); temp = none },
      )
unfolding update_system_config
update_system_config_lem junk j v value temp w new =
    ap (λ t. (UpdateStatus.ok, record { config = some t; temp = none }))
      (ap (λ l. update_loop 7 (name j) l junk (file_of all_items value)) (line_fits j v new)
        ∙ ap (update_loop 7 (name j) (line_of (name j) v) junk)
            (sym (append-nil (file_of all_items value)))
        ∙ update_loop_lem all_items j v value [] junk w)

-- Where the settings file has a line for each item in order, with values without a zero or a newline
-- that fit a line, and it can be opened and renamed, reading the settings after an update of one
-- item succeeds and gives the new value of that item, and the old value of every other, each cut to
-- one byte less than the size of its member.
pub get_system_config-update :
    (junk : Bytes) (j : Item) (v : Bytes) (value : Item → Bytes) (temp : Option Bytes)
    → ((i : Item) → IsValue i (value i))
    → IsValue j v
    → let fs =
        (update_system_config true true junk
          (some (name j))
          (some v)
          (record { config = some (file_of all_items value); temp = temp })).1 in
      ((get_system_config fs zeroed).0 ≡ GetStatus.ok)
      × ((i : Item)
          → cstr (field i (get_system_config fs zeroed).1)
            ≡ take (size_of i - 1) (if item_eq i j then v else value i))
get_system_config-update junk j v value temp w new =
    rw (update_system_config_lem junk j v value temp w new)
      (get_system_config-file_of (updated j v value) none (updated-IsValue j v value w new))

-- Where the rename fails the settings are lost: the file is gone, and reading fails.
pub update_system_config_lost :
    (junk variable value text : Bytes) (temp : Option Bytes) (c : SystemConfig)
    → let r =
        update_system_config true false junk
          (some variable)
          (some value)
          (record { config = some text; temp = temp }) in
      (r.0 ≡ UpdateStatus.rename_failed)
      × (r.1.config ≡ none)
      × (get_system_config r.1 c ≡ (GetStatus.open_failed, c))
unfolding update_system_config get_system_config
update_system_config_lost junk variable value text temp c = (refl, refl, refl)
