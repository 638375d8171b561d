-- ===== src/Starter.antt =====
-- The starter (starter.go) and the stopper (stopper.go).
pub mod Windows
pub mod Panics
use incite.Base.{Bool, true, false, Option, none, some, List, ◌∷◌, if◌then◌else◌}
use incite.Base.Int.{ℤ, negsuc}
use incite.Clock.{Time, millisecond, time_add, epoch_millisecond}
use incite.Errors.{
  Error, start_query, reduce_parallel, service, missing_query_id, classify_error, ErrorClass,
  permanent_class, throttling_class, limit_exceeded_class, temporary_class, GoError,
}
use incite.Stream.{Stream, alive}
use incite.Chunk.{Chunk, started}
use incite.Service.{Reply, output, failure, StartQueryInput, StartQueryOutput, StopQueryOutput}
use incite.Regulator.{Regulator, wait_timer}
use incite.Worker.{Outcome, nothing, finished, inconclusive, throttling_error, temporary_error}

-- What manipulate does: the chunk, its outcome, and whether a request was made, whose time is
-- then the regulator's lastReq.
pub record Started : Type 0 where
  pub chunk : Chunk
  pub outcome : Outcome
  pub requested : Bool

-- The request. The service takes inclusive ranges, the program exclusive ones.
unfoldable pub start_input : Stream → Chunk → StartQueryInput
unfolding epoch_millisecond
start_input s c = record {
  query_string = s.spec.text;
  start_time = epoch_millisecond c.start;
  end_time = epoch_millisecond (time_add c.end (negsuc 999999));
  log_group_names = s.spec.groups;
  limit = s.spec.limit;
}

-- The reaction to an error of the service.
abbrev start_failed : ErrorClass → Chunk → Started
start_failed throttling_class c = record { chunk = c; outcome = throttling_error; requested = true }
start_failed limit_exceeded_class c = record {
  chunk = record c { err = some reduce_parallel };
  outcome = finished;
  requested = true;
}
start_failed temporary_class c = record { chunk = c; outcome = temporary_error; requested = true }
start_failed permanent_class c = record { chunk = c; outcome = finished; requested = true }

unfoldable pub start_chunk : Stream → Reply StartQueryOutput → Chunk → Started
start_chunk s (failure e) c =
    start_failed (classify_error e)
      (record c { err = some (start_query s.spec.text c.start c.end (service e)) })
start_chunk s (output none) c = record {
  chunk = record c { err = some (start_query s.spec.text c.start c.end missing_query_id) };
  outcome = finished;
  requested = true;
}
start_chunk s (output (some query_id)) c = record {
  chunk = record c { query_id = query_id; state = started; err = none };
  outcome = finished;
  requested = true;
}

-- The starter's manipulate. A chunk of a dead stream is discarded.
unfoldable pub starter_manipulate : Stream → Reply StartQueryOutput → Chunk → Started
unfolding start_chunk
starter_manipulate s reply c =
    if alive s
    then start_chunk s reply c
    else record { chunk = c; outcome = nothing; requested = false }

-- The stopper's manipulate leaves the chunk as it is.
abbrev stop_failed : ErrorClass → Outcome
stop_failed throttling_class = throttling_error
stop_failed temporary_class = temporary_error
stop_failed limit_exceeded_class = temporary_error
stop_failed permanent_class = finished

unfoldable pub stopper_manipulate : Reply StopQueryOutput → Chunk → Outcome
stopper_manipulate (failure e) c = stop_failed (classify_error e)
stopper_manipulate (output success) c = finished

-- release of the stopper: it waits for its timer alone, and stops the chunk at the time `later`, with
-- no regard to the outcome. none when it waits for ever.
unfoldable pub stopper_release :
    Time → Time → Regulator → Reply StopQueryOutput → Chunk → Option (Regulator × Outcome)
unfolding wait_timer stopper_manipulate
stopper_release now later r reply c = elim (wait_timer now r) [
  | none ↦ none
  | some r' ↦ some (record r' { last_req = later }, stopper_manipulate reply c)
]

-- release of the starter and of the poller, which write to the log only.
unfoldable pub logged_release : Chunk → Chunk
logged_release c = c
