-- ===== src/Examples/Queries.antt =====
-- The theorems on queries and on their chunks, at the nine seconds of the data.
use incite.Base.{
  trim_space, trim_space, ℕ, false, true, none, [], arith, ◌≡◌, refl, ◌≤◌, ◌<◌, ◌↔◌, ◌≢◌, inr,
  length,
}
use incite.Base.Int.{pos}
use incite.Clock.{has_sub_millisecond, has_sub_millisecond_d, time_sub, epoch_millisecond}
use incite.Errors.{
  err, ok, closed, limit_exceeded_exception, aws, nil_error, permanent_class, classify_error,
}
use incite.Errors.Retry.{Retryable, classify_error_lem}
use incite.Stream.{Stream}
use incite.Query.{query, new_stream, check_chunk, check_limit, check_split_until}
use incite.Query.Checks.{IsSettled, IsNormal, query-IsNormal}
use incite.Query.Refusals.{Explains, query-Explains, IsValid, query-accepts}
use incite.Query.Ranges.{IsPartition, range}
use incite.Query.Partition.{query-IsPartition}
use incite.Chunk.{split_children}
use incite.Chunk.Splitting.{Covers, Children, Even, IsSplittable, split_children_lem}
use incite.Starter.{start_input}
use incite.Starter.Windows.{◌≤ℤ◌, start_input-window}
use incite.Examples.Data.{nine_seconds, stream, stream-accepted, chunk}

query-IsPartition_example : IsPartition (range stream) 3 3000000000 12000000000 5000000000
unfolding new_stream
query-IsPartition_example =
    query-IsPartition false nine_seconds stream stream-accepted (omega arith)

query-IsNormal_example : IsSettled nine_seconds stream × IsNormal stream
query-IsNormal_example = query-IsNormal false nine_seconds stream stream-accepted

refused : query true nine_seconds ≡ err closed
unfolding query trim_space has_sub_millisecond check_chunk has_sub_millisecond_d time_sub
    check_limit check_split_until
refused = refl

query-Explains_example : Explains closed true nine_seconds
query-Explains_example = query-Explains true nine_seconds closed refused

valid : IsValid nine_seconds
unfolding trim_space
valid = record {
  text_given = refl;
  groups_given = refl;
  start_aligned = refl;
  end_aligned = refl;
  ordered = omega arith;
  chunk_aligned = refl;
  limit_bounded = omega arith;
  split_aligned = refl;
  split_allowed = inr (refl, refl);
}

query-accepts_example : (s : Stream) × (query false nine_seconds ≡ ok s)
query-accepts_example = query-accepts nine_seconds valid

chunk-IsSplittable : IsSplittable chunk
chunk-IsSplittable = record {
  not_empty = omega arith;
  start_aligned = refl;
  end_aligned = refl;
  short = omega arith;
}

split_children_lem_example :
    let children = split_children chunk (pos 1000000000) in
    Covers 5000000000 10000000000 children
    × (2 ≤ length children)
    × (length children ≤ 4)
    × Children chunk children
    × ((f : ℕ) × (1000000000 ≤ f) × Even f children)
split_children_lem_example =
    split_children_lem chunk 1000000000 chunk-IsSplittable (omega arith) refl (omega arith)

start_input-window_example :
    (((start_input stream chunk).start_time ≤ℤ epoch_millisecond 9999000000)
      × (epoch_millisecond 9999000000 ≤ℤ (start_input stream chunk).end_time))
    ↔ ((5000000000 ≤ 9999000000) × (9999000000 < 10000000000))
start_input-window_example =
    start_input-window stream chunk 9999000000 (omega arith) refl refl refl (omega arith)
      (omega arith)

classify_error_lem_example :
    (classify_error (aws none limit_exceeded_exception [] nil_error) ≢ permanent_class)
    ↔ Retryable (aws none limit_exceeded_exception [] nil_error)
classify_error_lem_example = classify_error_lem (aws none limit_exceeded_exception [] nil_error)
