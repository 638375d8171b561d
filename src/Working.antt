-- ===== src/Working.antt =====
-- A round of each worker, with what its manipulate does to the streams (worker.go, starter.go,
-- poller.go, stopper.go).
use incite.Base.{Bool, true, false, Option, none, some, if◌then◌else◌}
use incite.Clock.{Time}
use incite.Chunk.{Chunk}
use incite.Service.{Reply, StartQueryOutput, StopQueryOutput}
use incite.Regulator.{Regulator, WaitResult, timer_fires, context_ends, wait}
use incite.Worker.{
  Worker, Input, Popped, waits, closing, popped, pop, Round, waiting, returned, panicked, goes_on,
  stops, round_of,
}
use incite.Starter.{starter_manipulate, stopper_manipulate}
use incite.Poller.{Polled}
use incite.Manager.{Streams, put}

-- When a worker starts to wait, whether its timer fires before the context of its chunk ends, and
-- when its request is answered.
pub record Moment : Type 0 where
  pub begun : Time
  pub fires : Bool
  pub answered : Time

-- The chunk that a worker took, if it did, and what its manipulate makes of it.
abbrev pub taken {ℓ} : {A : Type ℓ} → Popped → (Chunk → A) → A → A
taken waits f a = a
taken closing f a = a
taken (popped c w i) f a = f c

-- s.lastReq = time.Now().
abbrev pub stamp : Bool → Time → Worker → Worker
stamp requested now w =
    if requested then record w { regulator = record (w.regulator) { last_req = now } } else w

-- A round of a worker, with what its manipulate does: what it leaves of the worker and its channel,
-- what it sends out, and the streams.
pub data Worked : Type 0 where
  idle failed : Worked
  worked : Worker → Input → Option Chunk → Streams → Worked

abbrev pub after_round : Time → Bool → Streams → Round → Worked
after_round now requested streams waiting = idle
after_round now requested streams returned = idle
after_round now requested streams panicked = failed
after_round now requested streams (goes_on w i out) = worked (stamp requested now w) i out streams
after_round now requested streams (stops w i) = idle

-- A wait that never ends leaves the worker where it is.
abbrev pub after_wait : Option (Regulator × WaitResult) → (Regulator × WaitResult → Worked) → Worked
after_wait none rest = idle
after_wait (some result) rest = rest result

unfoldable pub work : Moment → (Chunk → Polled) → Streams → Worker → Input → Worked
unfolding put
work at manipulate streams w i =
    let p = pop w i in
    after_wait (wait at.begun (if at.fires then timer_fires else context_ends) w.regulator)
      (λ result.
        after_round at.answered (taken p (λ c. (manipulate c).requested) false)
          (taken p (λ c. put c.stream (manipulate c).stream streams) streams)
          (round_of (λ c r. result) (λ c. ((manipulate c).chunk, (manipulate c).outcome))
            at.answered w i))

-- The manipulators as one type. The starter and the stopper leave the streams alone.
unfoldable pub starts_chunk : Streams → Reply StartQueryOutput → Chunk → Polled
starts_chunk streams reply c =
    let r = starter_manipulate (streams c.stream) reply c in
    record {
      chunk = r.chunk;
      stream = streams c.stream;
      outcome = r.outcome;
      requested = r.requested;
    }

unfoldable pub stops_chunk : Streams → Reply StopQueryOutput → Chunk → Polled
stops_chunk streams reply c = record {
  chunk = c;
  stream = streams c.stream;
  outcome = stopper_manipulate reply c;
  requested = true;
}
