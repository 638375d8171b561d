-- ===== src/Examples/Data.antt =====
-- Inputs for the examples: a query over nine seconds with chunks of five, its stream, and chunks.
use incite.Base.{false, none, some, [], ◌∷◌, trim_space, List, Text, codes, Option, ◌≡◌, refl, true}
use incite.Base.Int.{pos, ◌-ℤ◌}
use incite.Stats.{zero_stats}
use incite.Errors.{eof, ok}
use incite.Stream.{QuerySpec, Stream, Row}
use incite.Query.{query, new_stream, check_chunk, check_limit, check_split_until, chunk_count}
use incite.Chunk.{Chunk, polling}
use incite.Service.{ServiceField, GetQueryResultsOutput, QueryStatus}
use incite.Regulator.{Regulator, make_regulator}
use incite.Clock.{
  has_sub_millisecond, has_sub_millisecond_d, time_sub, quot, truncate, time_add, int64,
}

abbrev pub nine_seconds : QuerySpec
nine_seconds = record {
  text = codes "fields @message";
  groups = codes "logs" ∷ [];
  start = 3000000000;
  end = 12000000000;
  limit = pos 10000;
  chunk = pos 5000000000;
  preview = false;
  priority = pos 0;
  split_until = pos 1000000000;
}

-- Three chunks: the first two meet at 5 s, the last two at 10 s.
abbrev pub stream : Stream
stream = new_stream nine_seconds 3 (pos 9000000000)

pub stream-accepted : query false nine_seconds ≡ ok stream
unfolding query trim_space has_sub_millisecond check_chunk has_sub_millisecond_d time_sub
    check_limit check_split_until chunk_count quot truncate time_add int64 ◌-ℤ◌
stream-accepted = refl

abbrev pub row : Text → Row
row t = record { field = codes "@message"; value = t } ∷ []

-- The stream after two blocks and its end, one row of which was read.
abbrev pub ended : Stream
ended = record stream {
  blocks = (row (codes "a") ∷ row (codes "b") ∷ []) ∷ (row (codes "c") ∷ []) ∷ [];
  j = 1;
  err = some eof;
}

abbrev pub chunk : Chunk
chunk = record {
  stats = zero_stats;
  stream = 0;
  gen = 0;
  chunk_id = codes "1";
  query_id = codes "q";
  ptr = none;
  start = 5000000000;
  end = 10000000000;
  state = polling;
  err = none;
  try = 0;
  tmp = 0;
  restart = 0;
}

-- A result of a query with preview.
abbrev pub result : Text → Text → List (Option ServiceField)
result ptr message =
    some (record { field = some (codes "@ptr"); value = some ptr })
    ∷ some (record { field = some (codes "@message"); value = some message })
    ∷ []

abbrev pub answer : QuerySpec → GetQueryResultsOutput
answer q = record {
  status = some QueryStatus.complete;
  statistics = none;
  results = result (codes "p") (codes "a") ∷ [];
}

abbrev pub regulator : Regulator
regulator = make_regulator 1000000000 (pos 5) 2 true
