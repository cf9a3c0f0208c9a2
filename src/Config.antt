-- ===== src/Config.antt =====
-- main/app_spiffs.c: the settings in /spiffs/config.txt, one `item=value` to a line, written through
-- /spiffs/replace.tmp. A file is its bytes, `none` where it does not exist. Whether the calls of the
-- file system succeed is an argument of each operation. A character buffer is the text in it.
pub mod Items
pub mod Text
pub mod File
pub mod Reading
pub mod Updating
pub mod Bounds
pub mod TestData
mod Tests
use esp32_mesh.Common.{
  ℕ, zero, suc, ◌-◌, ◌+◌, Bool, true, false, not, ◌&&◌, ◌||◌, List, [], ◌∷◌, ◌++◌, Option, none,
  some, map, length, take, drop, ltb, ◌==◌, if◌then◌else◌,
}
use Items.{Item, name, default_value, all_items, size_of, SystemConfig, field, set_field}
use Text.{Bytes, fgets, cstr, before, after, is_prefix, newline, equals, copy_field}

pub record Files : Type 0 where
  pub config : Option Bytes
  pub temp : Option Bytes

-- The results: 0 and the negative ones, as named in each function.
pub data InitStatus : Type 0 where
  ok mount_failed info_failed open_failed : InitStatus

-- fprintf(f, "%s=%s\n", item, value)
abbrev pub line_of : Bytes → Bytes → Bytes
line_of item value = item ++ equals ∷ (value ++ newline ∷ [])

-- The text with a line for each of the items.
abbrev pub file_of : List Item → (Item → Bytes) → Bytes
file_of [] value = []
file_of (i ∷ is) value = line_of (name i) (value i) ++ file_of is value

-- `system_config_init()`: 0, -1, -2 and -3. The text is written where there is no file yet.
pub system_config_init : (mounted info opened : Bool) → Files → InitStatus × Files
system_config_init mounted info opened fs =
    if not mounted
    then (InitStatus.mount_failed, fs)
    else (if not info then (InitStatus.info_failed, fs) else elim fs.config [
      | some text ↦ (InitStatus.ok, fs)
      | none ↦
          if opened
          then (InitStatus.ok, record fs { config = some (file_of all_items default_value) })
          else (InitStatus.open_failed, fs)
    ])

pub data GetStatus : Type 0 where
  ok open_failed no_equals : GetStatus

-- Lines 198 to 242: the value goes to every item whose name begins the line.
pub store_value : List Item → (line value : Bytes) → SystemConfig → SystemConfig
store_value [] line value c = c
store_value (j ∷ js) line value c = store_value js line value (
    if is_prefix (name j) line then set_field j (copy_field (size_of j) (field j c) value) c else c)

-- strchr(s, c) != NULL
pub is_in : ℕ → Bytes → Bool
is_in c s = ltb (length (before c s)) (length s)

-- What a round does with its line: `none` where there is no equals sign.
pub get_round : SystemConfig → Bytes → Option SystemConfig
unfolding is_in store_value
get_round c line =
    if is_in equals line then some (store_value all_items line (after equals line) c) else none

-- Lines 187 to 191: a line without an equals sign ends the loop with -2.
abbrev pub or_stop :
    Option SystemConfig
    → SystemConfig
    → (SystemConfig → GetStatus × SystemConfig)
    → GetStatus × SystemConfig
or_stop none c next = (GetStatus.no_equals, c)
or_stop (some c') c next = next c'

-- The loop of `get_system_config`, over the rounds left. What is stored stays where a later line fails.
pub get_loop : ℕ → Bytes → SystemConfig → GetStatus × SystemConfig
get_loop zero text c = (GetStatus.ok, c)
get_loop (suc n) text c =
    let (got, rest) = fgets 127 text [] in
    or_stop (get_round c (before newline (cstr got))) c (λ c'. get_loop n rest c')

-- `get_system_config(pConfig)`: 0, -1 and -2.
pub get_system_config : Files → SystemConfig → GetStatus × SystemConfig
get_system_config fs c = elim fs.config [
  | none ↦ (GetStatus.open_failed, c)
  | some text ↦ get_loop (length all_items) text c
]

pub data UpdateStatus : Type 0 where
  ok null_param open_failed rename_failed : UpdateStatus

-- The loop of `update_system_config`: each line is copied, or replaced where it begins with the
-- variable. At the end of the file `fgets` leaves the buffer alone, and it is written again.
pub update_loop : ℕ → (variable line buffer text : Bytes) → Bytes
update_loop zero variable line buffer text = []
update_loop (suc n) variable line buffer text =
    let (got, rest) = fgets 127 text buffer in
    (if is_prefix variable (cstr got) then line else cstr got)
    ++ update_loop n variable line got rest

-- `update_system_config(variable, value)`: 0, -1, -2 and -3; `junk` is what `buffer` holds before the
-- first read. `opened` is whether the temporary file can be; one that cannot is left as it was, and no
-- code reads it before it is written anew. A temporary file that cannot be renamed stays, and the settings are gone.
pub update_system_config :
    (opened renamed : Bool) (junk : Bytes)
    → Option Bytes
    → Option Bytes
    → Files
    → UpdateStatus × Files
unfolding update_loop
update_system_config opened renamed junk none value fs = (UpdateStatus.null_param, fs)
update_system_config opened renamed junk (some v) none fs = (UpdateStatus.null_param, fs)
update_system_config opened renamed junk (some variable) (some value) fs =
    if not opened then (UpdateStatus.open_failed, fs) else elim fs.config [
      | none ↦ (UpdateStatus.open_failed, record fs { temp = some [] })
      | some text ↦
          let line = take 127 (line_of variable value) in
          let out = update_loop (length all_items) variable line junk text in
          if renamed
          then (UpdateStatus.ok, record { config = some out; temp = none })
          else (UpdateStatus.rename_failed, record { config = none; temp = some out })
    ]
