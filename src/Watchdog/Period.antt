-- ===== src/Watchdog/Period.antt =====
-- When `period_feed_dog_in_second` feeds the watchdog.
use esp32_mesh.Common.{
  ℕ, ◌+◌, ◌-◌, ◌/◌, ◌%◌, ◌^◌, ◌<◌, ◌≤◌, ◌≡◌, [], arith, ltb, leb, ◌==◌, if◌then◌else◌,
}
use esp32_mesh.Watchdog.{feed_dog, period_feed_dog_in_second}

-- The ticks since the last pulse, on a counter that has wrapped at most once.
abbrev pub elapsed : ℕ → ℕ → ℕ
elapsed last cur = (cur + 2 ^ 32 - last) % 2 ^ 32

-- The dog is fed, and the time kept, exactly when whole seconds of the elapsed ticks reach the period:
-- of the ticks themselves while the counter has not wrapped, of one tick less once it has. A second
-- call at the same tick counts as a full turn of the counter, 4294967 seconds.
pub period_feed_dog_in_second_lem :
    (last cur sec : ℕ)
    → last < 2 ^ 32
    → cur < 2 ^ 32
    → period_feed_dog_in_second last cur sec ≡ (
        if leb sec (
          if ltb last cur
          then elapsed last cur / 1000
          else (if cur == last then 4294967 else (elapsed last cur - 1) / 1000))
        then (cur, feed_dog)
        else (last, []))
unfolding period_feed_dog_in_second
period_feed_dog_in_second_lem last cur sec h k = ground arith

-- A dog that was fed now and is asked for again in the same tick is fed again, however long the period
-- (to 4294967 seconds).
pub period_feed_dog_in_second_twice :
    (now sec : ℕ)
    → now < 2 ^ 32
    → sec ≤ 4294967
    → period_feed_dog_in_second now now sec ≡ (now, feed_dog)
unfolding period_feed_dog_in_second
period_feed_dog_in_second_twice now sec h k = ground arith
