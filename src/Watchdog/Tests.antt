-- ===== src/Watchdog/Tests.antt =====
-- The period of the watchdog at two ticks of a run.
use esp32_mesh.Common.{◌-◌, ◌/◌, ◌≡◌, [], ltb, leb, ◌==◌, if◌then◌else◌, arith}
use esp32_mesh.Watchdog.{feed_dog, period_feed_dog_in_second}
use esp32_mesh.Watchdog.Period.{elapsed, period_feed_dog_in_second_lem}

period_feed_dog_in_second_lem_example : period_feed_dog_in_second 4294960000 5000 10 ≡ (
    if leb 10 (
      if ltb 4294960000 5000
      then elapsed 4294960000 5000 / 1000
      else (if 5000 == 4294960000 then 4294967 else (elapsed 4294960000 5000 - 1) / 1000))
    then (5000, feed_dog)
    else (4294960000, []))
period_feed_dog_in_second_lem_example =
    period_feed_dog_in_second_lem 4294960000 5000 10 (omega arith) (omega arith)
