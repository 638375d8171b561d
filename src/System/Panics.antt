-- ===== src/System/Panics.antt =====
-- The starter and the poller never panic on a temporary error (worker.go, starter.go, poller.go).
use incite.Base.{◌≡◌, ◌≢◌, refl, Bool, true, false, Option, none, some, arith, Text, List}
use incite.Clock.{Time}
use incite.Errors.{
  ErrorClass, permanent_class, throttling_class, limit_exceeded_class, temporary_class,
  classify_error,
}
use incite.Chunk.{Chunk}
use incite.Stream.{Stream}
use incite.Service.{
  Reply, output, failure, QueryStatus, running, failed, GetQueryResultsOutput, StartQueryOutput,
}
use incite.Regulator.{Regulator, WaitResult}
use incite.Worker.{
  Outcome, Worker, Input, Popped, waits, closing, popped, pop, Round, waiting, returned, panicked,
  goes_on, stops, after_pop, round_of, panics, unwraps,
}
use incite.Starter.Panics.{starter_manipulate-panics}
use incite.Poller.{
  Polled, poll_failed, poll_status, poll_running, poll_complete, poll_status_failed,
  poller_manipulate,
}
use incite.Manager.{Streams}
use incite.Working.{Moment, Worked, after_wait, after_round, work, starts_chunk}

after_pop-ne-panicked :
    (wait_for : Chunk → Regulator → Regulator × WaitResult) (manipulate : Chunk → Chunk × Outcome)
    (now : Time)
    → ((c : Chunk) → panics (manipulate c).1 (manipulate c).0 ≡ false)
    → (p : Popped) → after_pop wait_for manipulate now p ≢ panicked
unfolding after_pop
after_pop-ne-panicked wait_for manipulate now safe waits h = cc
after_pop-ne-panicked wait_for manipulate now safe closing h = cc
after_pop-ne-panicked wait_for manipulate now safe (popped c w i) h = ground (arith, safe c, h)

after_round-ne-failed :
    (now : Time) (requested : Bool) (streams : Streams) (r : Round)
    → r ≢ panicked
    → after_round now requested streams r ≢ Worked.failed
after_round-ne-failed now requested streams waiting n h = cc
after_round-ne-failed now requested streams returned n h = cc
after_round-ne-failed now requested streams panicked n h = n refl
after_round-ne-failed now requested streams (goes_on w i out) n h = cc
after_round-ne-failed now requested streams (stops w i) n h = cc

after_wait-ne-failed :
    (result : Option (Regulator × WaitResult)) (rest : Regulator × WaitResult → Worked)
    → ((x : Regulator × WaitResult) → rest x ≢ Worked.failed)
    → after_wait result rest ≢ Worked.failed
after_wait-ne-failed none rest n h = cc
after_wait-ne-failed (some x) rest n h = n x h

work-ne-failed :
    (at : Moment) (manipulate : Chunk → Polled) (streams : Streams) (w : Worker) (i : Input)
    → ((c : Chunk) → panics (manipulate c).outcome (manipulate c).chunk ≡ false)
    → work at manipulate streams w i ≢ Worked.failed
unfolding work round_of
work-ne-failed at manipulate streams w i safe = after_wait-ne-failed _ _ (λ result.
    after_round-ne-failed at.answered _ _ _ (
      after_pop-ne-panicked (λ c r. result) (λ c. ((manipulate c).chunk, (manipulate c).outcome))
        at.answered safe (pop w i)))

pub starter_work-ne-failed :
    (at : Moment) (streams : Streams) (w : Worker) (i : Input) (reply : Reply StartQueryOutput)
    → work at (starts_chunk streams reply) streams w i ≢ Worked.failed
unfolding starts_chunk
starter_work-ne-failed at streams w i reply =
    work-ne-failed at (starts_chunk streams reply) streams w i
      (λ c. starter_manipulate-panics (streams c.stream) reply c)

-- A worker's loop does not panic on a chunk that the poller has manipulated.
poll_status-panics :
    (order : List Text → List Text) (failed_text : Text) (status : Option QueryStatus) (c : Chunk)
    (s : Stream) (out : GetQueryResultsOutput)
    → let r = poll_status order failed_text status c s out in panics r.outcome r.chunk ≡ false
unfolding poll_status panics poll_running poll_complete poll_status_failed
poll_status-panics order failed_text (some running) c s out = ground arith
poll_status-panics order failed_text (some QueryStatus.complete) c s out = ground arith
poll_status-panics order failed_text (some failed) c s out = ground arith
poll_status-panics order failed_text _ c s out = ground arith

poll_failed-panics :
    (k : ErrorClass) (c : Chunk) → unwraps c.err ≡ true → panics (poll_failed k) c ≡ false
unfolding panics
poll_failed-panics permanent_class c h = refl
poll_failed-panics throttling_class c h = refl
poll_failed-panics limit_exceeded_class c h = rw h refl
poll_failed-panics temporary_class c h = rw h refl

poller_manipulate-panics :
    (order : List Text → List Text) (failed_text : Text) (s : Stream)
    (reply : Reply GetQueryResultsOutput) (c : Chunk)
    → let r = poller_manipulate order failed_text s reply c in panics r.outcome r.chunk ≡ false
unfolding poller_manipulate panics unwraps
poller_manipulate-panics order failed_text s (output out) c =
    ground (arith, poll_status-panics order failed_text out.status c s out)
poller_manipulate-panics order failed_text s (failure e) c =
    ground (arith, poll_failed-panics (classify_error e))

pub poller_work-ne-failed :
    (order : List Text → List Text) (failed_text : Text) (at : Moment) (streams : Streams)
    (w : Worker) (i : Input) (reply : Reply GetQueryResultsOutput)
    → work at (λ c. poller_manipulate order failed_text (streams c.stream) reply c) streams w i
      ≢ Worked.failed
poller_work-ne-failed order failed_text at streams w i reply =
    work-ne-failed at _ streams w i
      (λ c. poller_manipulate-panics order failed_text (streams c.stream) reply c)
