-- ===== src/Light/Laws.antt =====
-- The light shows one colour at a time.
use esp32_mesh.Common.{ℕ, ◌≤◌, ◌<◌, ◌≡◌, refl, List, [], ◌∷◌, arith, ltb, ◌==◌, if◌then◌else◌}
use esp32_mesh.Effect.{
  Effect, send, mesh_write, root_write, feed_dog_in, reboot, upgrade, start_ota, start_ota_read,
  gpio,
}
use esp32_mesh.Wire.LightColor
use esp32_mesh.Light.{led_g_pin, led_r_pin, led_b_pin, set_light_color, get_light_color}

-- The level of a pin after the calls, from its level before.
abbrev pub level : ℕ → ℕ → List Effect → ℕ
level pin old [] = old
level pin old (gpio p l ∷ es) = level pin (if p == pin then l else old) es
level pin old (send p n ∷ es) = level pin old es
level pin old (mesh_write a p n ∷ es) = level pin old es
level pin old (root_write a p n ∷ es) = level pin old es
level pin old (feed_dog_in n ∷ es) = level pin old es
level pin old (reboot ∷ es) = level pin old es
level pin old (upgrade a p n ∷ es) = level pin old es
level pin old (start_ota d ∷ es) = level pin old es
level pin old (start_ota_read ∷ es) = level pin old es

abbrev pub lit : ℕ → ℕ → ℕ
lit color c = if color == c then 1 else 0

-- The levels of the three pins for a colour, each on for its own colour only; none is driven for a number
-- that is no colour.
abbrev pub pins : ℕ → List Effect
pins color =
    if ltb color 4
    then gpio 21 (lit color LightColor.blue)
      ∷ gpio 19 (lit color LightColor.red)
      ∷ gpio 5 (lit color LightColor.green)
      ∷ []
    else []

pub set_light_color-pins : (color : ℕ) → (set_light_color color).1 ≡ pins color
unfolding set_light_color
set_light_color-pins color = ground arith

-- A colour of `light_color_t` is kept for `get_light_color` and lights its own pin and no other,
-- whatever the pins showed before; off lights none. A number that is no colour is kept as well, and
-- leaves the pins as they are.
pub set_light_color_lem :
    (color b r g : ℕ)
    → let es = (set_light_color color).1 in
      (get_light_color (set_light_color color).0 ≡ color)
      × (color < 4
          → (level led_b_pin b es ≡ lit color LightColor.blue)
            × (level led_r_pin r es ≡ lit color LightColor.red)
            × (level led_g_pin g es ≡ lit color LightColor.green))
      × (4 ≤ color → es ≡ [])
unfolding set_light_color get_light_color
set_light_color_lem color b r g =
    (refl, (λ h. (ground arith, ground arith, ground arith)), λ h. ground arith)
