-- ===== src/Stats.antt =====
-- The Stats structure and its add method (incite.go). The metrics that CloudWatch reports as
-- float64 are counts of bytes and records, and stand here as whole numbers. The ranges are int64.
use incite.Base.{ℕ, ◌+◌}
use incite.Base.Int.{◌+ℤ◌, ◌-ℤ◌, pos}
use incite.Clock.{Duration, int64}

pub record Stats : Type 0 where
  pub bytes_scanned : ℕ
  pub records_matched : ℕ
  pub records_scanned : ℕ
  pub range_requested : Duration
  pub range_started : Duration
  pub range_done : Duration
  pub range_failed : Duration
  pub range_maxed : Duration

-- Stats{}.
abbrev pub zero_stats : Stats
zero_stats = record {
  bytes_scanned = 0;
  records_matched = 0;
  records_scanned = 0;
  range_requested = pos 0;
  range_started = pos 0;
  range_done = pos 0;
  range_failed = pos 0;
  range_maxed = pos 0;
}

-- `+=` and `-=` on a duration.
unfoldable pub plus : Duration → Duration → Duration
plus a b = int64 (a +ℤ b)

unfoldable pub minus : Duration → Duration → Duration
minus a b = int64 (a -ℤ b)

unfoldable pub add : Stats → Stats → Stats
add s t = record {
  bytes_scanned = s.bytes_scanned + t.bytes_scanned;
  records_matched = s.records_matched + t.records_matched;
  records_scanned = s.records_scanned + t.records_scanned;
  range_requested = plus s.range_requested t.range_requested;
  range_started = plus s.range_started t.range_started;
  range_done = plus s.range_done t.range_done;
  range_failed = plus s.range_failed t.range_failed;
  range_maxed = plus s.range_maxed t.range_maxed;
}
