-- ===== src/Adapter.antt =====
-- Adaptive values (adapter.go). A float64 value is represented by the number of units that it
-- holds, of which `one` make 1.0: with a rate of 0.5 per second a nanosecond is a unit. The
-- rounding of floating point is not represented. Times are readings of a monotonic clock.
pub mod Bounds
use incite.Base.{ℕ, ◌+◌, ◌-◌, ◌*◌, ◌/◌, Bool, true, false, not, ltb, ◌==◌, if◌then◌else◌}
use incite.Base.Int.{pos_part}
use incite.Clock.{Time, second, time_sub}

abbrev pub one : ℕ
one = 2000000000

pub record StandardAdapter : Type 0 where
  pub val : ℕ
  pub max : ℕ
  pub up_per_s : ℕ
  pub min : ℕ
  pub down_step : ℕ
  pub last : Time

pub data Adapter : Type 0 where
  disabled : ℕ → Adapter
  standard : StandardAdapter → Adapter

unfoldable pub value : Adapter → ℕ
value (disabled v) = v
value (standard a) = a.val

-- `time` is the time of the call.
unfoldable pub increase_standard : Time → StandardAdapter → StandardAdapter × Bool
increase_standard time a =
    let d = pos_part (time_sub time a.last) in
    let val = a.val + d * a.up_per_s / second in
    let capped = if ltb a.max val then a.max else val in
    if ltb a.val a.max then (record a { last = time; val = capped }, true) else (a, false)

unfoldable pub decrease_standard : Time → StandardAdapter → StandardAdapter × Bool
decrease_standard time a =
    let val = if ltb a.val (a.min + a.down_step) then a.min else a.val - a.down_step in
    if not (a.val == val)
    then (record a { last = time; val = val }, true)
    else (record a { last = time }, false)

unfoldable pub increase : Time → Adapter → Adapter × Bool
increase time (disabled v) = (disabled v, false)
increase time (standard a) = let (a', changed) = increase_standard time a in (standard a', changed)

unfoldable pub decrease : Time → Adapter → Adapter × Bool
decrease time (disabled v) = (disabled v, false)
decrease time (standard a) = let (a', changed) = decrease_standard time a in (standard a', changed)

-- int(a.value()).
unfoldable pub whole : Adapter → ℕ
unfolding value
whole a = value a / one
