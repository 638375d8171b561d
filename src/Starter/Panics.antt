-- ===== src/Starter/Panics.antt =====
-- Where the log entry of a worker's loop on a temporary error panics (worker.go, with the
-- manipulators of starter.go, stopper.go and poller.go).
use incite.Base.{true, false, none, some, ◌≡◌, refl, arith}
use incite.Clock.{Time}
use incite.Errors.{
  GoError, ErrorClass, permanent_class, throttling_class, limit_exceeded_class, temporary_class,
  classify_error, stop_chunk, start_query, service,
}
use incite.Stream.{Stream}
use incite.Chunk.{Chunk}
use incite.Regulator.{Regulator, WaitResult, go_on}
use incite.Service.{Reply, output, failure, StartQueryOutput}
use incite.Worker.{Worker, Input, unwraps, panics, after_pop, popped, panicked}
use incite.Starter.{starter_manipulate, start_chunk, start_failed, stopper_manipulate}

start_failed-unwraps :
    (k : ErrorClass) (c : Chunk)
    → unwraps c.err ≡ true
    → panics (start_failed k c).outcome (start_failed k c).chunk ≡ false
unfolding panics
start_failed-unwraps permanent_class c h = refl
start_failed-unwraps throttling_class c h = refl
start_failed-unwraps limit_exceeded_class c h = refl
start_failed-unwraps temporary_class c h = rw h refl

-- A worker's loop does not panic on a chunk that the starter has manipulated, whatever the state of
-- the stream and the answer of the service.
pub starter_manipulate-panics :
    (s : Stream) (reply : Reply StartQueryOutput) (c : Chunk)
    → let r = starter_manipulate s reply c in panics r.outcome r.chunk ≡ false
unfolding starter_manipulate start_chunk panics unwraps
starter_manipulate-panics s (output none) c = ground arith
starter_manipulate-panics s (output (some q)) c = ground arith
starter_manipulate-panics s (failure e) c = ground (
  arith,
  start_failed-unwraps (classify_error e)
      (record c { err = some (start_query s.spec.text c.start c.end (service e)) }),
)

-- When the wait for the stopper's next request ends and the service answers it with an error
-- that is classified as temporary, the stopper's loop panics if the chunk has the error that
-- marks the chunks of a dead stream.
pub stopper_manipulate-panics :
    (wait_for : Chunk → Regulator → Regulator × WaitResult) (e : GoError) (now : Time) (c : Chunk)
    (w : Worker) (i : Input)
    → (wait_for c w.regulator).1 ≡ go_on
    → classify_error e ≡ temporary_class
    → c.err ≡ some stop_chunk
    → after_pop wait_for (λ c. (c, stopper_manipulate (failure e) c)) now (popped c w i) ≡ panicked
unfolding after_pop stopper_manipulate panics unwraps
stopper_manipulate-panics wait_for e now c w i h k p = ground (arith, h, k, p)
