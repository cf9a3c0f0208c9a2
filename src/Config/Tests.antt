-- ===== src/Config/Tests.antt =====
-- The theorems on the settings, on a file with short values.
use esp32_mesh.Common.{◌-◌, ◌≡◌, true, [], none, some, take, if◌then◌else◌}
use esp32_mesh.Config.{file_of, GetStatus, get_system_config, update_system_config}
use esp32_mesh.Config.Items.{Item, name, run_mode, size_of, item_eq, all_items, field}
use esp32_mesh.Config.Text.{cstr}
use esp32_mesh.Config.TestData.{value, new_value, value-IsValue, new_value-IsValue}
use esp32_mesh.Config.Reading.{zeroed}
use esp32_mesh.Config.Updating.{get_system_config-update}

get_system_config-update_example :
    let fs =
      (update_system_config true true []
        (some (name run_mode))
        (some new_value)
        (record { config = some (file_of all_items value); temp = none })).1 in
    ((get_system_config fs zeroed).0 ≡ GetStatus.ok)
    × ((i : Item)
        → cstr (field i (get_system_config fs zeroed).1)
          ≡ take (size_of i - 1) (if item_eq i run_mode then new_value else value i))
get_system_config-update_example =
    get_system_config-update [] run_mode new_value value none value-IsValue
      (new_value-IsValue run_mode)
