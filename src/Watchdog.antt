-- ===== src/Watchdog.antt =====
-- The hardware watchdog on pin 22, as main/router.c feeds it: `feed_dog`, `system_reboot`,
-- `get_two_timestamp_interval` and `period_feed_dog_in_second`. Ticks are `uint32_t`; with the tick rate
-- of sdkconfig, CONFIG_FREERTOS_HZ=1000, a tick is one millisecond. Delays are left out.
pub mod Period
mod Tests
use esp32_mesh.Common.{
  ℕ, ◌+◌, ◌-◌, ◌*◌, ◌/◌, ◌%◌, ◌^◌, Bool, List, [], ◌∷◌, ◌++◌, ltb, leb, if◌then◌else◌,
}
use esp32_mesh.Effect.{Effect, gpio}

-- portTICK_RATE_MS
abbrev pub tick_rate_ms : ℕ
tick_rate_ms = 1

abbrev pub wtd_pin : ℕ
wtd_pin = 22

-- `feed_dog`: a pulse.
pub feed_dog : List Effect
feed_dog = gpio wtd_pin 0 ∷ gpio wtd_pin 1 ∷ gpio wtd_pin 0 ∷ []

-- `system_reboot`
pub system_reboot : List Effect
unfolding feed_dog
system_reboot = feed_dog ++ feed_dog

-- `get_two_timestamp_interval(curtime, lasttime)`, in seconds.
unfoldable pub get_two_timestamp_interval : ℕ → ℕ → ℕ
get_two_timestamp_interval cur last =
    ((cur + 2 ^ 32 - last) % 2 ^ 32 * tick_rate_ms) % 2 ^ 32 / 1000

-- `period_feed_dog_in_second(sec)`: the static `u32LastTimeStamp` and the tick count are arguments, the
-- new time stamp and the pulses are the result.
pub period_feed_dog_in_second : (last cur sec : ℕ) → ℕ × List Effect
unfolding get_two_timestamp_interval
period_feed_dog_in_second last cur sec =
    if ltb last cur
    then (if leb sec (get_two_timestamp_interval cur last) then (cur, feed_dog) else (last, []))
    else let total = (cur + (0xffffffff - last)) % 2 ^ 32 in
      if leb sec (get_two_timestamp_interval total 0) then (cur, feed_dog) else (last, [])
