-- ===== src/Clock.antt =====
-- Time and durations (time.go, and Go's time.Time and time.Duration as the program uses them).
-- A time.Time is a number of nanoseconds since Go's zero time, 1 January of the year 1, so
-- times before it are not represented. A time.Duration is an int64 number of nanoseconds.
use incite.Base.{ℕ, suc, ◌+◌, ◌-◌, ◌/◌, ◌%◌, min, Bool, false, not, ltb, leb, ◌==◌, if◌then◌else◌}
use incite.Base.Int.{ℤ, pos, negsuc, ◌+ℤ◌, ◌*ℤ◌}

abbrev pub Time : Type 0
Time = ℕ

abbrev pub Duration : Type 0
Duration = ℤ

abbrev pub microsecond : ℕ
microsecond = 1000

abbrev pub millisecond : ℕ
millisecond = 1000000

abbrev pub second : ℕ
second = 1000000000

abbrev pub max_duration : ℕ
max_duration = 9223372036854775807

-- An int64 from an integer, modulo 2^64.
unfoldable pub int64 : ℤ → ℤ
int64 (pos n) =
    let m = n % 18446744073709551616 in
    if leb m max_duration then pos m else negsuc (18446744073709551615 - m)
int64 (negsuc n) =
    let m = n % 18446744073709551616 in
    if leb m max_duration then negsuc m else pos (18446744073709551615 - m)

-- t.Sub(u), which saturates.
unfoldable pub time_sub : Time → Time → Duration
time_sub t u =
    if leb u t then pos (min (t - u) max_duration) else negsuc (min (u - t - 1) max_duration)

-- t.Add(d).
unfoldable pub time_add : Time → Duration → Time
time_add t (pos d) = t + d
time_add t (negsuc d) = t - suc d

-- t.Truncate(d): down to a multiple of d since the zero time.
unfoldable pub truncate : Time → Duration → Time
truncate t (pos d) = if d == 0 then t else t - t % d
truncate t (negsuc d) = t

-- Integer division of int64 values, which truncates toward zero. No caller divides by zero.
unfoldable pub quot : ℤ → ℤ → ℤ
quot (pos a) (pos b) = pos (a / b)
quot (pos a) (negsuc b) = pos 0 +ℤ (negsuc 0 *ℤ pos (a / suc b))
quot (negsuc a) (pos b) = negsuc 0 *ℤ pos (suc a / b)
quot (negsuc a) (negsuc b) = pos (suc a / suc b)

-- d.Round(m) for a positive m: to the nearest multiple of m, halves away from zero. A result that
-- an int64 cannot hold is the largest duration.
unfoldable pub round : Duration → ℕ → Duration
round (pos d) m =
    let r = d % m in
    let up = d + (m - r) in
    if ltb (r + r) m then pos (d - r) else if leb up max_duration then pos up else pos max_duration
round (negsuc d) m =
    let r = suc d % m in
    let up = suc d + (m - r) in
    if ltb (r + r) m
    then negsuc 0 *ℤ pos (suc d - r)
    else if leb up (suc max_duration)
    then negsuc (up - 1)
    else negsuc max_duration

-- t.Nanosecond(), the offset within the second.
unfoldable pub nanosecond : Time → ℕ
nanosecond t = t % second

unfoldable pub has_sub_millisecond : Time → Bool
unfolding nanosecond
has_sub_millisecond t = not (nanosecond t % millisecond == 0)

-- The remainder of a negative duration is not positive.
unfoldable pub has_sub_millisecond_d : Duration → Bool
has_sub_millisecond_d (pos d) = ltb 0 (d % millisecond)
has_sub_millisecond_d (negsuc d) = false

-- t.Unix(): the zero time is 62135596800 seconds before 1970.
unfoldable pub unix : Time → ℤ
unix t = pos (t / second) +ℤ negsuc 62135596799

unfoldable pub epoch_millisecond : Time → ℤ
unfolding nanosecond unix
epoch_millisecond t = int64 (unix t *ℤ pos 1000 +ℤ pos (nanosecond t / millisecond))
