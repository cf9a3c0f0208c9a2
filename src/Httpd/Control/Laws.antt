-- ===== src/Httpd/Control/Laws.antt =====
-- What a command to the web server changes: one setting of the camera, or one of the device.
use esp32_mesh.Common.{
  ℕ, suc, ◌-◌, ◌≤◌, ◌≡◌, length, leb, refl, ap, ◌∙◌, Bool, true, false, [], Option, some, take,
  if◌then◌else◌, ne→==, arith, sym,
}
use mathlib.Core.Path.{subst}
use esp32_mesh.Config.Items.{Item, name, all_items, size_of, field, item_eq, router_ssid}
use esp32_mesh.Config.Text.{Bytes, cstr}
use esp32_mesh.Config.{
  Files, GetStatus, UpdateStatus, file_of, get_system_config, update_system_config,
}
use esp32_mesh.Config.File.{IsValue}
use esp32_mesh.Config.Reading.{zeroed}
use esp32_mesh.Config.Updating.{update_system_config_lem, get_system_config-update}
use esp32_mesh.Httpd.Control.{
  Setting, framesize, is_item, Query, fine, ControlSeen, key_value, Handled, update_reply,
  run_command, cmd_handler,
}

-- A query of any length that gives these values.
abbrev pub asks : (length : ℕ) → (variable value : Bytes) → Query
asks n variable value = record {
  query_len = suc n;
  allocated = true;
  query_read = true;
  var = some variable;
  val = some value;
}

abbrev pub is_framesize : Setting → Bool
is_framesize framesize = true
is_framesize _ = false

key_value_fits : (text : Bytes) → length text ≤ 31 → key_value (some text) ≡ some text
unfolding key_value
key_value_fits text h = let fits : leb (length text) 31 ≡ true = ground (arith, h) in rw fits refl

asked :
    (seen : ControlSeen) (n : ℕ) (variable value : Bytes) (files : Files)
    → length variable ≤ 31
    → length value ≤ 31
    → cmd_handler seen (asks n variable value) files ≡ run_command seen variable value files
unfolding cmd_handler
asked seen n variable value files short short' =
    rw
      (
        ne→== (suc n) 0 (λ e. omega (arith, e)),
        key_value_fits variable short,
        key_value_fits value short',
      )
      refl

short_name : (i : Item) → length (name i) ≤ 31
short_name router_ssid = omega arith
short_name _ = omega arith

run_command-item :
    (seen : ControlSeen) (j : Item) (value : Bytes) (files : Files)
    → let u =
        update_system_config seen.opened seen.renamed seen.junk
          (some (name j))
          (some value)
          files in
      run_command seen (name j) value files ≡ ([], update_reply u.0, u.1)
unfolding run_command is_item
run_command-item seen router_ssid value files = refl
run_command-item seen _ value files = refl

-- The files after a command for an item, with a value of at most 31 bytes, are those of the update.
pub cmd_handler-files :
    (seen : ControlSeen) (n : ℕ) (j : Item) (value : Bytes) (files : Files)
    → length value ≤ 31
    → (cmd_handler seen (asks n (name j) value) files).2
      ≡ (update_system_config seen.opened seen.renamed seen.junk
          (some (name j))
          (some value)
          files).1
cmd_handler-files seen n j value files short =
    ap (λ (r : Handled). r.2)
      (asked seen n (name j) value files (short_name j) short ∙ run_command-item seen j value files)

answered :
    (r : Handled) (u : UpdateStatus × Files) (P : Files → Type 0)
    → r ≡ ([], update_reply u.0, u.1)
    → u.0 ≡ UpdateStatus.ok
    → P u.1
    → (r.0 ≡ []) × (r.1 ≡ fine) × P r.2
answered r u P e fine_ p = (
  ap (λ (r : Handled). r.0) e,
  ap (λ (r : Handled). r.1) e ∙ ap update_reply fine_,
  subst P (sym (ap (λ (r : Handled). r.2) e)) p,
)

-- A command with the name of an item of the device's settings and a value of at most 31 bytes, where the
-- file of the settings is whole and can be written and renamed, calls nothing, answers that all is
-- well, and reading the settings afterwards gives the new value for this item, cut to the room it
-- has, and the old value for every other.
pub cmd_handler-item :
    (seen : ControlSeen) (n : ℕ) (j : Item) (v : Bytes) (value : Item → Bytes) (temp : Option Bytes)
    → ((i : Item) → IsValue i (value i))
    → IsValue j v
    → length v ≤ 31
    → let r =
        cmd_handler
          (record seen { opened = true; renamed = true })
          (asks n (name j) v)
          (record { config = some (file_of all_items value); temp = temp }) in
      let read = get_system_config r.2 zeroed in
      (r.0 ≡ [])
      × (r.1 ≡ fine)
      × (read.0 ≡ GetStatus.ok)
      × ((i : Item)
          → cstr (field i read.1) ≡ take (size_of i - 1) (if item_eq i j then v else value i))
cmd_handler-item seen n j v value temp w new short =
    let able = record seen { opened = true; renamed = true } in
    let before : Files = record { config = some (file_of all_items value); temp = temp } in
    let r =
      answered (cmd_handler able (asks n (name j) v) before)
        (update_system_config true true seen.junk (some (name j)) (some v) before)
        (λ files.
          ((get_system_config files zeroed).0 ≡ GetStatus.ok)
          × ((i : Item)
              → cstr (field i (get_system_config files zeroed).1)
                ≡ take (size_of i - 1) (if item_eq i j then v else value i)))
        (asked able n (name j) v before (short_name j) short ∙ run_command-item able j v before)
        (ap (λ (u : UpdateStatus × Files). u.0)
          (update_system_config_lem seen.junk j v value temp w new))
        (get_system_config-update seen.junk j v value temp w new) in
    (r.0, r.1, r.2.0, r.2.1)
