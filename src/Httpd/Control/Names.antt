-- ===== src/Httpd/Control/Names.antt =====
-- Which commands to the web server change anything at all.
use esp32_mesh.Common.{
  ◌≡◌, refl, ap, ◌∙◌, ◌⊎◌, inl, inr, Bool, true, false, ◌||◌, List, [], ◌∷◌, Option, none, some,
  bytes_eq, bytes_eq→eq, if◌then◌else◌, Bool-cases, Option-cases, ◌==◌, arith,
}
use esp32_mesh.Config.Items.{Item, codes, name, all_items}
use esp32_mesh.Config.Text.{Bytes}
use esp32_mesh.Config.{Files}
use esp32_mesh.Httpd.Control.{
  key_value, Handled, Setting, setting_name, all_settings, find_setting, is_item, Query,
  server_error, not_found, ControlSeen, set_camera, run_command, cmd_handler,
}

-- What a query names: an item of the settings, the restart, or a setting of the camera.
abbrev pub IsName : Bytes → Type 0
IsName variable =
    ((i : Item) × (variable ≡ name i))
    ⊎ ((variable ≡ codes "reboot") ⊎ ((s : Setting) × (variable ≡ setting_name s)))

find_setting-name :
    (ss : List Setting) (variable : Bytes) (s : Setting)
    → find_setting ss variable ≡ some s
    → variable ≡ setting_name s
unfolding find_setting
find_setting-name [] variable s e = ground arith
find_setting-name (t ∷ ss) variable s e =
    first (bytes_eq variable (setting_name t)) refl e (find_setting-name ss variable s)
  where
    first :
        (b : Bool)
        → bytes_eq variable (setting_name t) ≡ b
        → (if b then some t else find_setting ss variable) ≡ some s
        → (find_setting ss variable ≡ some s → variable ≡ setting_name s)
        → variable ≡ setting_name s
    first true same found later =
        let found_t : t ≡ s = ap (λ (o : Option Setting). elim o [ none ↦ t | some x ↦ x ]) found in
        bytes_eq→eq variable (setting_name t) same ∙ ap setting_name found_t
    first false other found later = later found

is_item-name :
    (is : List Item) (variable : Bytes)
    → is_item is variable ≡ true
    → (i : Item) × (variable ≡ name i)
unfolding is_item
is_item-name [] variable e = ground arith
is_item-name (i ∷ is) variable e =
    first (bytes_eq variable (name i)) refl e (is_item-name is variable)
  where
    first :
        (b : Bool)
        → bytes_eq variable (name i) ≡ b
        → (b || is_item is variable) ≡ true
        → (is_item is variable ≡ true → (i : Item) × (variable ≡ name i))
        → (i : Item) × (variable ≡ name i)
    first true same found later = (i, bytes_eq→eq variable (name i) same)
    first false other found later = later found

set_camera-IsName :
    (seen : ControlSeen) (variable value : Bytes) (files : Files)
    → (set_camera seen variable value files ≡ ([], server_error, files)) ⊎ IsName variable
unfolding set_camera
set_camera-IsName seen variable value files =
    elim (Option-cases (find_setting all_settings variable)) [
      | inl none_ ↦ inl (rw (set_camera, none_) refl)
      | inr (s, found) ↦ inr (inr (inr (s, find_setting-name all_settings variable s found)))
    ]

run_command-IsName :
    (seen : ControlSeen) (variable value : Bytes) (files : Files)
    → (run_command seen variable value files ≡ ([], server_error, files)) ⊎ IsName variable
unfolding run_command
run_command-IsName seen variable value files = elim (Bool-cases (is_item all_items variable)) [
  | inl item ↦ inr (inl (is_item-name all_items variable item))
  | inr other ↦ elim (Bool-cases (bytes_eq variable (codes "reboot"))) [
    | inl restart ↦ inr (inr (inl (bytes_eq→eq variable (codes "reboot") restart)))
    | inr camera ↦ rw (run_command, other, camera) (set_camera-IsName seen variable value files)
  ]
]

-- What the handler makes of the two values that it has read from the query.
abbrev values_read : ControlSeen → (var val : Option Bytes) → Files → Handled
values_read seen var val files = elim var [
  | none ↦ ([], not_found, files)
  | some variable ↦ elim val [
    | none ↦ ([], not_found, files)
    | some value ↦ run_command seen variable value files
  ]
]

values_read-IsName :
    (seen : ControlSeen) (var val : Option Bytes) (files : Files)
    → let r = values_read seen var val files in
      (r ≡ ([], not_found, files))
      ⊎ ((r ≡ ([], server_error, files))
          ⊎ ((variable : Bytes) × ((value : Bytes) × ((var ≡ some variable)
                  × (val ≡ some value)
                  × IsName variable))))
values_read-IsName seen none val files = inl refl
values_read-IsName seen (some variable) none files = inl refl
values_read-IsName seen (some variable) (some value) files =
    elim (run_command-IsName seen variable value files) [
      | inl failed ↦ inr (inl failed)
      | inr named ↦ inr (inr (variable, (value, (refl, refl, named))))
    ]

-- Whatever the query, the handler answers with an error, calls nothing and leaves the settings alone, or
-- both values could be read from the query, of at most 31 bytes each, and the first is the name of an item of the settings, of
-- the restart, or of a setting of the camera.
pub cmd_handler-IsName :
    (seen : ControlSeen) (q : Query) (files : Files)
    → (cmd_handler seen q files ≡ ([], not_found, files))
      ⊎ ((cmd_handler seen q files ≡ ([], server_error, files))
          ⊎ ((variable : Bytes) × ((value : Bytes) × ((key_value q.var ≡ some variable)
                  × (key_value q.val ≡ some value)
                  × IsName variable))))
unfolding cmd_handler
cmd_handler-IsName seen q files = elim (Bool-cases (q.query_len == 0)) [
  | inl empty ↦ rw empty (inl refl)
  | inr more ↦ rw more (read_in q.allocated q.query_read q.var q.val)
]
  where
    read_in :
        (allocated query_read : Bool) (var val : Option Bytes)
        → let r =
            cmd_handler seen
              (record {
                query_len = 1;
                allocated = allocated;
                query_read = query_read;
                var = var;
                val = val;
              })
              files in
          (r ≡ ([], not_found, files))
          ⊎ ((r ≡ ([], server_error, files))
              ⊎ ((variable : Bytes) × ((value : Bytes) × ((key_value var ≡ some variable)
                      × (key_value val ≡ some value)
                      × IsName variable))))
    read_in false query_read var val = inr (inl refl)
    read_in true false var val = inl refl
    read_in true true var val = values_read-IsName seen (key_value var) (key_value val) files
