-- ===== src/Poller.antt =====
-- The poller (poller.go).
pub mod Translate
pub mod Preview
pub mod Keys
pub mod Rows
pub mod Block
pub mod Maxed
pub mod Outcomes
use incite.Base.{
  ℕ, ◌+◌, ◌-◌, Bool, true, false, not, ◌&&◌, Option, none, some, List, [], ◌∷◌, ◌++◌, ltb, leb,
  ◌==◌, if◌then◌else◌, Text, length,
}
use incite.Base.Int.{ℤ, pos, ltb_ℤ, leb_ℤ}
use incite.Stats.{Stats, plus, minus}
use incite.Errors.{
  Error, stop_chunk, restart_chunk, split_chunk, unexpected_query, terminal_status, Cause, service,
  nil_status, classify_error, ErrorClass, permanent_class, throttling_class, limit_exceeded_class,
  temporary_class, Result, ok, err,
}
use incite.Stream.{Stream, Row, alive}
use incite.Query.{max_limit}
use incite.Chunk.{Chunk, complete, duration, is_some}
use incite.Service.{
  Reply, output, failure, QueryStatus, scheduled, unknown, running, failed, other_status,
  QueryStatistics, ServiceField, GetQueryResultsOutput,
}
use incite.Service
use incite.Worker.{Outcome, nothing, finished, inconclusive, throttling_error, temporary_error}
use Translate.{translate_no_preview}
use Preview.{translate_preview}

abbrev pub max_restart : ℕ
max_restart = 2

-- A change of a chunk's Stats.
abbrev pub with_stats : (Stats → Stats) → Chunk → Chunk
with_stats f c = record c { stats = f c.stats }

abbrev pub or_zero : Option ℕ → ℕ
or_zero none = 0
or_zero (some n) = n

unfoldable pub translate_stats : Option QueryStatistics → Stats → Stats
translate_stats none s = s
translate_stats (some q) s = record s {
  bytes_scanned = s.bytes_scanned + or_zero q.bytes_scanned;
  records_matched = s.records_matched + or_zero q.records_matched;
  records_scanned = s.records_scanned + or_zero q.records_scanned;
}

-- c.stream.blocks = append(c.stream.blocks, block), and the signal.
abbrev pub append_block : List Row → Stream → Stream
append_block [] s = s
append_block (r ∷ rs) s = record s { blocks = s.blocks ++ (r ∷ rs) ∷ []; signals = s.signals + 1 }

-- What sendChunkBlock does to the chunk and its stream, and what it returns.
pub record Sent : Type 0 where
  pub chunk : Chunk
  pub stream : Stream
  pub done : Bool

abbrev pub send_result : Result (List Row × Option (List Text)) → Chunk → Stream → Sent
send_result (err e) c s = record { chunk = record c { err = some e }; stream = s; done = false }
send_result (ok (block, ptr)) c s = record {
  chunk = record c { ptr = ptr };
  stream = append_block block s;
  done = true;
}

abbrev keep_ptr : Result (List Row) → Result (List Row × Option (List Text))
keep_ptr (ok block) = ok (block, none)
keep_ptr (err e) = err e

abbrev some_ptr : Result (List Row × List Text) → Result (List Row × Option (List Text))
some_ptr (ok (block, ptr)) = ok (block, some ptr)
some_ptr (err e) = err e

-- `order` is the order in which Go visits the keys of a map.
unfoldable pub translate :
    (List Text → List Text)
    → Chunk
    → Stream
    → List (List (Option ServiceField))
    → Option (List Text)
    → Result (List Row × Option (List Text))
translate order c s results none = keep_ptr (translate_no_preview c.query_id s.spec.text results)
translate order c s results (some ptr) =
    some_ptr (translate_preview order c.query_id s.spec.text ptr results)

unfoldable pub send_chunk_block :
    (List Text → List Text) → Chunk → Stream → List (List (Option ServiceField)) → Sent
unfolding translate
send_chunk_block order c s results = send_result (translate order c s results c.ptr) c s

-- c.Stats.RangeMaxed += c.duration(), and its reverse.
abbrev pub add_maxed : Chunk → Chunk
add_maxed c = with_stats (λ t. record t { range_maxed = plus t.range_maxed (duration c) }) c

abbrev pub sub_maxed : Chunk → Chunk
sub_maxed c = with_stats (λ t. record t { range_maxed = minus t.range_maxed (duration c) }) c

abbrev pub add_done : Chunk → Chunk
add_done c = with_stats (λ t. record t { range_done = plus t.range_done (duration c) }) c

-- Whether a chunk with n results is split.
unfoldable pub splittable : Chunk → Stream → ℕ → Chunk × Bool
splittable c s n =
    if ltb_ℤ (pos n) s.spec.limit
    then (c, false)
    else if is_some c.ptr
    then (add_maxed c, false)
    else if ltb n max_limit
    then (add_maxed c, false)
    else if leb_ℤ (duration c) s.spec.split_until
    then (add_maxed c, false)
    else (sub_maxed (add_maxed c), true)

-- What manipulate does.
pub record Polled : Type 0 where
  pub chunk : Chunk
  pub stream : Stream
  pub outcome : Outcome
  pub requested : Bool

abbrev pub poll_failed : ErrorClass → Outcome
poll_failed throttling_class = throttling_error
poll_failed temporary_class = temporary_error
poll_failed limit_exceeded_class = temporary_error
poll_failed permanent_class = finished

abbrev pub finish : Chunk → Stream → Polled
finish c s = record { chunk = c; stream = s; outcome = finished; requested = true }

abbrev pub go_again : Chunk → Stream → Polled
go_again c s = record { chunk = c; stream = s; outcome = inconclusive; requested = true }

-- c.err = err.
abbrev pub with_err : Chunk → Option Error → Chunk
with_err c e = record c { err = e }

-- The status string of the service. A status that the source does not name comes with its text;
-- `failed_text` is the text of the status Failed.
abbrev pub status_text : Text → QueryStatus → Text
status_text failed_text (other_status t) = t
status_text failed_text _ = failed_text

module _ (order : List Text → List Text) (failed_text : Text) where
  -- The case of the status Running.
  unfoldable pub poll_running : Chunk → Stream → GetQueryResultsOutput → Polled
  unfolding send_chunk_block translate_stats
  poll_running c s out =
      let sent = send_chunk_block order (with_err c none) s out.results in
      if not (is_some c.ptr)
      then go_again (with_err c none) s
      else if sent.done
      then go_again sent.chunk sent.stream
      else finish (with_stats (translate_stats out.statistics) sent.chunk) sent.stream

  -- The case of the status Complete.
  unfoldable pub poll_complete : Chunk → Stream → GetQueryResultsOutput → Polled
  unfolding send_chunk_block splittable translate_stats
  poll_complete c s out =
      let c' = with_stats (translate_stats out.statistics) c in
      let (c'', splits) = splittable c' s (length out.results) in
      let sent = send_chunk_block order (add_done (with_err c'' none)) s out.results in
      if splits
      then finish (with_err c'' (some split_chunk)) s
      else if sent.done
      then finish (record (sent.chunk) { state = complete }) sent.stream
      else finish sent.chunk sent.stream

  -- A terminal status, the default case.
  unfoldable pub poll_terminal : QueryStatus → Chunk → Stream → GetQueryResultsOutput → Polled
  unfolding translate_stats
  poll_terminal status c s out =
      finish
        (with_err (with_stats (translate_stats out.statistics) c)
          (some (terminal_status c.query_id (status_text failed_text status) s.spec.text)))
        s

  -- The case of the status Failed, which falls through to the default.
  unfoldable pub poll_status_failed : Chunk → Stream → GetQueryResultsOutput → Polled
  unfolding poll_terminal translate_stats
  poll_status_failed c s out =
      let c' = with_stats (translate_stats out.statistics) c in
      if not (is_some c.ptr) && ltb c.restart max_restart
      then finish (record c' { restart = c.restart + 1; err = some restart_chunk }) s
      else poll_terminal failed c s out

  unfoldable pub poll_status : Option QueryStatus → Chunk → Stream → GetQueryResultsOutput → Polled
  unfolding poll_running poll_complete poll_status_failed poll_terminal
  poll_status none c s out =
      finish (with_err c (some (unexpected_query c.query_id s.spec.text nil_status))) s
  poll_status (some scheduled) c s out = go_again (with_err c none) s
  poll_status (some unknown) c s out = go_again (with_err c none) s
  poll_status (some running) c s out = poll_running c s out
  poll_status (some QueryStatus.complete) c s out = poll_complete c s out
  poll_status (some failed) c s out = poll_status_failed c s out
  poll_status (some (other_status t)) c s out = poll_terminal (other_status t) c s out

  abbrev pub poll_reply : Reply GetQueryResultsOutput → Chunk → Stream → Polled
  poll_reply (output out) c s = poll_status out.status c s out
  poll_reply (failure e) c s = record {
    chunk = with_err c (some (unexpected_query c.query_id s.spec.text (service e)));
    stream = s;
    outcome = poll_failed (classify_error e);
    requested = true;
  }

  -- The poller's manipulate. A chunk of a dead stream goes back to be stopped.
  unfoldable pub poller_manipulate : Stream → Reply GetQueryResultsOutput → Chunk → Polled
  unfolding poll_status
  poller_manipulate s reply c = if alive s then poll_reply reply c s else record {
    chunk = with_err c (some stop_chunk);
    stream = s;
    outcome = nothing;
    requested = false;
  }
