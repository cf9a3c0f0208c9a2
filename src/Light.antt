-- ===== src/Light.antt =====
-- The status light of main/node_task.c: `set_light_color` and `get_light_color`, with `g_Led_color` as
-- the state. The pins are those of main/include/common.h.
pub mod Laws
use esp32_mesh.Common.{ℕ, List, [], ◌∷◌, ◌==◌, if◌then◌else◌}
use esp32_mesh.Effect.{Effect, gpio}
use esp32_mesh.Wire.LightColor

abbrev pub led_g_pin : ℕ
led_g_pin = 5

abbrev pub led_r_pin : ℕ
led_r_pin = 19

abbrev pub led_b_pin : ℕ
led_b_pin = 21

abbrev pub drive : ℕ → ℕ → ℕ → List Effect
drive b r g = gpio led_b_pin b ∷ gpio led_r_pin r ∷ gpio led_g_pin g ∷ []

-- `set_light_color(color)`: the new `g_Led_color`, and the pins driven.
unfoldable pub set_light_color : ℕ → ℕ × List Effect
set_light_color color = (
  color,
  if color == LightColor.off
      then drive 0 0 0
      else (if color == LightColor.blue
          then drive 1 0 0
          else (if color == LightColor.red
              then drive 0 1 0
              else (if color == LightColor.green then drive 0 0 1 else []))),
)

-- `get_light_color()`
unfoldable pub get_light_color : ℕ → ℕ
get_light_color led = led
