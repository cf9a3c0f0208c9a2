-- ===== src/Httpd/Status/Bounds.antt =====
-- The text of the settings fits its buffer.
use esp32_mesh.Common.{
  ℕ, ◌+◌, ◌≤◌, ◌≡◌, Bool, true, false, List, [], ◌∷◌, ◌++◌, length, length-append, arith,
  if◌then◌else◌,
}
use esp32_mesh.Config.Text.{Bytes, cstr}
use esp32_mesh.Config.Items.{Item, name, all_items, size_of, field, SystemConfig}
use esp32_mesh.Config.Reading.{zeroed}
use esp32_mesh.Config.Bounds.{AreTexts, get_system_config-AreTexts}
use esp32_mesh.Config.{Files, GetStatus, get_system_config}
use esp32_mesh.Httpd.Decimal.{decimal, length-decimal}
use esp32_mesh.Httpd.Status.{
  StatusField, Number, print_number, json_entry, status_entry, status_fields, all_fields,
  config_fields, status_text,
}

length-print_number : (n : Number) → length (print_number n) ≤ 11
unfolding print_number
length-print_number n = sign n.negative
  where
    sign : (b : Bool) → length (if b then 45 ∷ decimal n.magnitude else decimal n.magnitude) ≤ 11
    sign true = omega (arith, length-decimal n.magnitude)
    sign false = omega (arith, length-decimal n.magnitude)

length-json_entry :
    (name value : Bytes) → length (json_entry name value) ≡ 3 + (length name + length value)
length-json_entry name value = omega (arith, length-append name (34 ∷ 58 ∷ value))

-- The room that members take, with 11 bytes for each number.
abbrev fields_room : List StatusField → ℕ
fields_room [] = 0
fields_room (f ∷ fs) = 14 + length (status_entry f).0 + length (status_entry f).1 + fields_room fs

length-status_fields :
    (fs : List StatusField) (status : StatusField → Number)
    → length (status_fields fs status) ≤ fields_room fs
unfolding status_fields
length-status_fields [] status = omega arith
length-status_fields (f ∷ fs) status =
    let entry = status_entry f in
    let number = print_number (status f) in
    omega (
      arith,
      length-append (json_entry entry.0 (number ++ entry.1)) (status_fields fs status),
      length-json_entry entry.0 (number ++ entry.1),
      length-append number entry.1,
      length-print_number (status f),
      length-status_fields fs status,
    )

abbrev items_room : List Item → ℕ
items_room [] = 0
items_room (i ∷ is) = 4 + length (name i) + size_of i + items_room is

length-config_fields :
    (is : List Item) (c : SystemConfig) → AreTexts c → length (config_fields is c) ≤ items_room is
unfolding config_fields
length-config_fields [] c texts = omega arith
length-config_fields (i ∷ is) c texts = omega (
  arith,
  length-append (json_entry (name i) (cstr (field i c))) (config_fields is c),
  length-json_entry (name i) (cstr (field i c)),
  (texts i).1,
  length-config_fields is c texts,
)

-- The device's settings where they could be read.
abbrev printed : GetStatus → Bytes → Bytes
printed ret config = elim ret [ GetStatus.ok ↦ config | _ ↦ [] ]

length-printed :
    (ret : GetStatus) (config : Bytes)
    → length config ≤ items_room all_items
    → length (printed ret config) ≤ items_room all_items
length-printed GetStatus.ok config h = h
length-printed _ config h = omega arith

-- Whatever the camera's settings are, as numbers of at most 10 digits and a sign, and whatever the file
-- of the settings holds, the text and its end fit the 1024 bytes of json_response.
pub length-status_text :
    (status : StatusField → Number) (fs : Files) → length (status_text status fs) + 1 ≤ 1024
unfolding status_text
length-status_text status fs =
    let c = (get_system_config fs zeroed).1 in
    let fields = length-status_fields all_fields status in
    let config = printed (get_system_config fs zeroed).0 (config_fields all_items c) in
    let small =
      length-printed (get_system_config fs zeroed).0 (config_fields all_items c)
        (length-config_fields all_items c (get_system_config-AreTexts fs)) in
    omega (
      arith,
      length-append (status_fields all_fields status) (config ++ 125 ∷ []),
      length-append config (125 ∷ []),
      fields,
      small,
    )
