-- ===== src/Httpd/Control.antt =====
-- `cmd_handler` of main/app_httpd.c: /control?var=…&val=…, which changes the camera's settings and those
-- of the device. The web server and the camera's driver are not in main/.
pub mod Laws
pub mod Names
use esp32_mesh.Common.{
  ℕ, zero, suc, ◌+◌, ◌-◌, ◌*◌, ◌%◌, ◌^◌, Bool, true, false, not, ◌||◌, ◌&&◌, List, [], ◌∷◌, ◌++◌,
  Option, none, some, length, leb, bytes_eq, ◌==◌, if◌then◌else◌,
}
use esp32_mesh.Config.Text.{Bytes}
use esp32_mesh.Config.Items.{codes, Item, name, all_items}
use esp32_mesh.Config.{Files, UpdateStatus, update_system_config}
use UpdateStatus.{ok}

-- The settings of the camera, in the order of the tests.
pub data Setting : Type 0 where
  framesize quality contrast brightness saturation gainceiling colorbar awb agc aec : Setting
  hmirror vflip awb_gain agc_gain aec_value aec2 dcw bpc wpc raw_gma lenc : Setting
  special_effect wb_mode ae_level : Setting

abbrev pub setting_name : Setting → Bytes
setting_name framesize = codes "framesize"
setting_name quality = codes "quality"
setting_name contrast = codes "contrast"
setting_name brightness = codes "brightness"
setting_name saturation = codes "saturation"
setting_name gainceiling = codes "gainceiling"
setting_name colorbar = codes "colorbar"
setting_name awb = codes "awb"
setting_name agc = codes "agc"
setting_name aec = codes "aec"
setting_name hmirror = codes "hmirror"
setting_name vflip = codes "vflip"
setting_name awb_gain = codes "awb_gain"
setting_name agc_gain = codes "agc_gain"
setting_name aec_value = codes "aec_value"
setting_name aec2 = codes "aec2"
setting_name dcw = codes "dcw"
setting_name bpc = codes "bpc"
setting_name wpc = codes "wpc"
setting_name raw_gma = codes "raw_gma"
setting_name lenc = codes "lenc"
setting_name special_effect = codes "special_effect"
setting_name wb_mode = codes "wb_mode"
setting_name ae_level = codes "ae_level"

abbrev pub all_settings : List Setting
all_settings =
    framesize ∷ quality ∷ contrast ∷ brightness ∷ saturation ∷ gainceiling ∷ colorbar ∷ awb ∷ agc
    ∷ aec ∷ hmirror ∷ vflip ∷ awb_gain ∷ agc_gain ∷ aec_value ∷ aec2 ∷ dcw ∷ bpc ∷ wpc ∷ raw_gma
    ∷ lenc ∷ special_effect ∷ wb_mode ∷ ae_level ∷ []

-- The first setting with this name.
unfoldable pub find_setting : List Setting → Bytes → Option Setting
find_setting [] variable = none
find_setting (s ∷ ss) variable =
    if bytes_eq variable (setting_name s) then some s else find_setting ss variable

-- Whether the variable is one of the items of the settings of the device.
unfoldable pub is_item : List Item → Bytes → Bool
is_item [] variable = false
is_item (i ∷ is) variable = bytes_eq variable (name i) || is_item is variable

-- The digits that a text begins with, behind this number.
unfoldable pub digits : ℕ → Bytes → ℕ
digits n [] = n
digits n (c ∷ cs) =
    let more = digits (n * 10 + (c - 48)) cs in if leb 48 c && leb c 57 then more else n

-- atoi behind the white space: a 32-bit word.
unfoldable pub signed : Bytes → ℕ
signed [] = 0
signed (c ∷ cs) =
    if c == 45
    then (2 ^ 32 - digits 0 cs % 2 ^ 32) % 2 ^ 32
    else (if c == 43 then digits 0 cs % 2 ^ 32 else digits 0 (c ∷ cs) % 2 ^ 32)

-- atoi(text), which is not given more digits than an `int` has room for.
unfoldable pub atoi : Bytes → ℕ
atoi [] = 0
atoi (c ∷ cs) =
    let later = atoi cs in if c == 32 || (leb 9 c && leb c 13) then later else signed (c ∷ cs)

-- What the web server makes of the query: its length, whether it can be copied and read, and the values
-- of `var` and `val` in it where they are there, of any length.
pub record Query : Type 0 where
  pub query_len : ℕ
  pub allocated : Bool
  pub query_read : Bool
  pub var : Option Bytes
  pub val : Option Bytes

-- httpd_query_key_value into a text of 32 bytes: a value with more than 31 is an error, not cut.
unfoldable pub key_value : Option Bytes → Option Bytes
key_value none = none
key_value (some text) = if leb (length text) 31 then some text else none

-- The answers: the status with an empty text behind it.
pub data Reply : Type 0 where
  fine not_found server_error : Reply

-- The calls of the camera's driver and of the watchdog's `system_reboot`.
pub data ControlCall : Type 0 where
  set : Setting → ℕ → ControlCall
  system_reboot : ControlCall

-- What the surroundings answer: whether the camera makes JPEG, whether a call of its driver returns 0,
-- and what `update_system_config` is given.
pub record ControlSeen : Type 0 where
  pub jpeg : Bool
  pub accepts : Setting → ℕ → Bool
  pub opened : Bool
  pub renamed : Bool
  pub junk : Bytes

abbrev pub reply_if : Bool → Reply
reply_if true = fine
reply_if false = server_error

-- The calls, the answer and the files.
abbrev pub Handled : Type 0
Handled = List ControlCall × Reply × Files

-- Lines 259 to 299.
unfoldable pub set_camera : ControlSeen → (variable value : Bytes) → Files → Handled
set_camera seen variable value files =
    let val = atoi value in
    let set_it : Setting → Handled = λ s. (set s val ∷ [], reply_if (seen.accepts s val), files) in
    elim (find_setting all_settings variable) [
      | none ↦ ([], server_error, files)
      | some framesize ↦ if seen.jpeg then set_it framesize else ([], fine, files)
      | some s ↦ set_it s
    ]

abbrev pub update_reply : UpdateStatus → Reply
update_reply ok = fine
update_reply _ = server_error

-- Lines 235 to 299.
unfoldable pub run_command : ControlSeen → (variable value : Bytes) → Files → Handled
run_command seen variable value files =
    let (status, files') =
      update_system_config seen.opened seen.renamed seen.junk (some variable) (some value) files in
    if is_item all_items variable
    then ([], update_reply status, files')
    else (if bytes_eq variable (codes "reboot")
        then (system_reboot ∷ [], fine, files)
        else set_camera seen variable value files)

-- `cmd_handler(req)`.
unfoldable pub cmd_handler : ControlSeen → Query → Files → Handled
cmd_handler seen q files =
    if q.query_len == 0
    then ([], not_found, files)
    else (if not q.allocated
        then ([], server_error, files)
        else (if not q.query_read then ([], not_found, files) else elim (key_value q.var) [
          | none ↦ ([], not_found, files)
          | some variable ↦ elim (key_value q.val) [
            | none ↦ ([], not_found, files)
            | some value ↦ run_command seen variable value files
          ]
        ]))
