-- ===== src/Httpd/Status.antt =====
-- `status_handler` of main/app_httpd.c: the camera's and the device's settings as one text.
pub mod Bounds
use esp32_mesh.Common.{ℕ, Bool, true, false, List, [], ◌∷◌, ◌++◌, if◌then◌else◌}
use esp32_mesh.Config.Text.{Bytes, cstr}
use esp32_mesh.Config.Items.{codes, Item, name, all_items, field, SystemConfig}
use esp32_mesh.Config.Reading.{zeroed}
use esp32_mesh.Config.{Files, GetStatus, get_system_config}
use esp32_mesh.Httpd.Decimal.{decimal}

-- The members of `camera_status_t` that are printed, in this order.
pub data StatusField : Type 0 where
  framesize quality brightness contrast saturation sharpness special_effect wb_mode : StatusField
  awb awb_gain aec aec2 ae_level aec_value agc agc_gain gainceiling : StatusField
  bpc wpc raw_gma lenc hmirror dcw colorbar : StatusField

-- The name of a member, and what stands behind its number: nothing behind the quality.
abbrev pub status_entry : StatusField → Bytes × Bytes
status_entry framesize = (codes "framesize", codes ",")
status_entry quality = (codes "quality", [])
status_entry brightness = (codes "brightness", codes ",")
status_entry contrast = (codes "contrast", codes ",")
status_entry saturation = (codes "saturation", codes ",")
status_entry sharpness = (codes "sharpness", codes ",")
status_entry special_effect = (codes "special_effect", codes ",")
status_entry wb_mode = (codes "wb_mode", codes ",")
status_entry awb = (codes "awb", codes ",")
status_entry awb_gain = (codes "awb_gain", codes ",")
status_entry aec = (codes "aec", codes ",")
status_entry aec2 = (codes "aec2", codes ",")
status_entry ae_level = (codes "ae_level", codes ",")
status_entry aec_value = (codes "aec_value", codes ",")
status_entry agc = (codes "agc", codes ",")
status_entry agc_gain = (codes "agc_gain", codes ",")
status_entry gainceiling = (codes "gainceiling", codes ",")
status_entry bpc = (codes "bpc", codes ",")
status_entry wpc = (codes "wpc", codes ",")
status_entry raw_gma = (codes "raw_gma", codes ",")
status_entry lenc = (codes "lenc", codes ",")
status_entry hmirror = (codes "hmirror", codes ",")
status_entry dcw = (codes "dcw", codes ",")
status_entry colorbar = (codes "colorbar", [])

abbrev pub all_fields : List StatusField
all_fields =
    framesize ∷ quality ∷ brightness ∷ contrast ∷ saturation ∷ sharpness ∷ special_effect ∷ wb_mode
    ∷ awb ∷ awb_gain ∷ aec ∷ aec2 ∷ ae_level ∷ aec_value ∷ agc ∷ agc_gain ∷ gainceiling ∷ bpc ∷ wpc
    ∷ raw_gma ∷ lenc ∷ hmirror ∷ dcw ∷ colorbar ∷ []

-- A number that is printed, which may be negative.
pub record Number : Type 0 where
  pub negative : Bool
  pub magnitude : ℕ

unfoldable pub print_number : Number → Bytes
print_number n = if n.negative then 45 ∷ decimal n.magnitude else decimal n.magnitude

-- "\"name\":value"
abbrev pub json_entry : (name value : Bytes) → Bytes
json_entry name value = 34 ∷ (name ++ 34 ∷ 58 ∷ value)

unfoldable pub status_fields : List StatusField → (StatusField → Number) → Bytes
status_fields [] status = []
status_fields (f ∷ fs) status =
    let (name, end) = status_entry f in
    json_entry name (print_number (status f) ++ end) ++ status_fields fs status

-- Each of the device's settings behind a comma, and not in quotes.
unfoldable pub config_fields : List Item → SystemConfig → Bytes
config_fields [] c = []
config_fields (i ∷ is) c = 44 ∷ (json_entry (name i) (cstr (field i c)) ++ config_fields is c)

-- What `status_handler` puts in json_response, without the 0 at its end.
unfoldable pub status_text : (StatusField → Number) → Files → Bytes
status_text status fs =
    let (ret, c) = get_system_config fs zeroed in
    let config : Bytes = elim ret [ GetStatus.ok ↦ config_fields all_items c | _ ↦ [] ] in
    123 ∷ (status_fields all_fields status ++ (config ++ 125 ∷ []))
