-- ===== src/System/Rounds.antt =====
-- What a round of each worker leaves, with its manipulate (worker.go, starter.go, poller.go,
-- stopper.go).
use incite.Base.{
  ℕ, ◌+◌, ◌≡◌, refl, ◌≢◌, ap, ◌⊎◌, inr, Bool, true, false, Option, none, some, List, arith, Text,
}
use incite.Clock.{Time}
use incite.Errors.{Error}
use incite.Chunk.{Chunk, ChunkState, started, complete}
use incite.Stream.{Stream}
use incite.Service.{
  Reply, output, failure, StartQueryOutput, GetQueryResultsOutput, StopQueryOutput,
}
use incite.Regulator.{Regulator, WaitResult}
use incite.Worker.{
  Outcome, finished, Worker, Input, pop, Round, waiting, returned, panicked, goes_on, stops,
  round_of,
}
use incite.Worker.Ring.{held, IsCounted, Keeps, total_out, round_of-weighed}
use incite.Worker.States.{Test, AllIn, OutIn, Manipulates, RoundIn, is_done, round_of-RoundIn}
use incite.Manager.{Streams, put}
use incite.Poller.{Polled, poller_manipulate}
use incite.Starter.{starter_manipulate, start_chunk}
use incite.Poller.Outcomes.{poller_manipulate-IsPolled}
use incite.Working.{
  Moment, Worked, idle, failed, worked, after_round, after_wait, work, taken, starts_chunk,
  stops_chunk,
}
use incite.System.Ends.{not_eof, starter_manipulate-not_eof, poller_manipulate-not_eof}
use incite.System.Served.{by, IsServed}
use incite.System.Kinds.{
  is_starting, is_polling, is_stopping, from_starter, from_poller, from_stopper,
}

abbrev call : (Chunk → Polled) → Chunk → Chunk × Outcome
call manipulate c = ((manipulate c).chunk, (manipulate c).outcome)

module _ (p mine : Test) (w : Worker) (i : Input) where
  -- What a round keeps.
  pub record IsKept (w' : Worker) (i' : Input) (out : Option Chunk) : Type 0 where
    pub balanced : (f : ℕ → ℕ) → held (by f) w' i' + total_out (by f) out ≡ held (by f) w i
    pub counted : IsCounted w'
    pub ring : AllIn p w'.chunks
    pub queue : AllIn p i'.queue
    pub sent : OutIn mine out

  abbrev pub WorkedIn : Worked → Type 0
  WorkedIn idle = Unit {0}
  WorkedIn failed = Unit {0}
  WorkedIn (worked w' i' out streams) = IsKept w' i' out

  after_round-WorkedIn :
      (now : Time) (requested : Bool) (streams : Streams) (r : Round)
      → ((f : ℕ → ℕ) → Keeps (by f) (held (by f) w i) r)
      → RoundIn p mine r
      → WorkedIn (after_round now requested streams r)
  after_round-WorkedIn now requested streams waiting k h = tt
  after_round-WorkedIn now requested streams returned k h = tt
  after_round-WorkedIn now requested streams panicked k h = tt
  after_round-WorkedIn now true streams (goes_on w' i' out) k h = record {
    balanced = λ f. (k f).0;
    counted = (k (λ n. 0)).1;
    ring = h.0;
    queue = h.1;
    sent = h.2;
  }
  after_round-WorkedIn now false streams (goes_on w' i' out) k h = record {
    balanced = λ f. (k f).0;
    counted = (k (λ n. 0)).1;
    ring = h.0;
    queue = h.1;
    sent = h.2;
  }
  after_round-WorkedIn now requested streams (stops w' i') k h = tt

  after_wait-WorkedIn :
      (result : Option (Regulator × WaitResult)) (rest : Regulator × WaitResult → Worked)
      → ((x : Regulator × WaitResult) → WorkedIn (rest x))
      → WorkedIn (after_wait result rest)
  after_wait-WorkedIn none rest h = tt
  after_wait-WorkedIn (some x) rest h = h x

  pub work-WorkedIn :
      (at : Moment) (manipulate : Chunk → Polled) (streams : Streams)
      → ((c : Chunk) → (manipulate c).chunk.stream ≡ c.stream)
      → Manipulates p mine (call manipulate)
      → IsCounted w
      → AllIn p w.chunks
      → AllIn p i.queue
      → WorkedIn (work at manipulate streams w i)
  unfolding work
  work-WorkedIn at manipulate streams same good counted ring queue =
      after_wait-WorkedIn _ _ (λ result.
        after_round-WorkedIn at.answered (taken (pop w i) (λ c. (manipulate c).requested) false)
          (taken (pop w i) (λ c. put c.stream (manipulate c).stream streams) streams)
          (round_of (λ c r. result) (call manipulate) at.answered w i)
          (λ f.
            round_of-weighed (λ c r. result) (call manipulate) at.answered w i (by f)
              (λ c. ap f (same c)) counted)
          (round_of-RoundIn p mine (λ c r. result) (call manipulate) at.answered w i good ring
            queue))

starter-kept :
    (s : Stream) (reply : Reply StartQueryOutput) (c : Chunk)
    → let r = starter_manipulate s reply c in
      (r.chunk.stream ≡ c.stream)
      × ((r.chunk.state ≡ c.state) ⊎ ((r.chunk.state ≡ started) × (r.outcome ≡ finished)))
unfolding starter_manipulate start_chunk
starter-kept s (output none) c = ground arith
starter-kept s (output (some q)) c = ground arith
starter-kept s (failure e) c = ground arith

-- What a worker holds is clear, and so is what it makes of it.
start_clear : (s : ChunkState) (e : Option Error) → is_starting s e ≡ true → not_eof e ≡ true
start_clear s e h = ground (arith, h)

from_start :
    (s s' : ChunkState) (e e' : Option Error) (o : Outcome)
    → is_starting s e ≡ true
    → not_eof e' ≡ true
    → (s' ≡ s) ⊎ ((s' ≡ started) × (o ≡ finished))
    → (from_starter s' e' ≡ true) × ((is_done o ≡ true) ⊎ (is_starting s' e' ≡ true))
from_start s s' e e' o h c k = ground (arith, h, k, c)

from_poll :
    (s s' : ChunkState) (e e' : Option Error) (o : Outcome)
    → is_polling s e ≡ true
    → not_eof e' ≡ true
    → (s' ≡ s) ⊎ (s' ≡ complete)
    → (s ≢ complete → s' ≡ complete → o ≡ finished)
    → (from_poller s' e' ≡ true) × ((is_done o ≡ true) ⊎ (is_polling s' e' ≡ true))
from_poll s s' e e' o h c k l = ground (arith, h, k, l, c)

from_stop : (s : ChunkState) (e : Option Error) → is_stopping s e ≡ true → from_stopper s e ≡ true
from_stop s e h = ground (arith, h)

module _ (at : Moment) (streams : Streams) (ghost : List Chunk) (w : Worker) (i : Input)
    (update : List Chunk) where
  pub starter_work-WorkedIn :
      (reply : Reply StartQueryOutput)
      → IsServed is_starting from_starter ghost w i update
      → WorkedIn is_starting from_starter w i (work at (starts_chunk streams reply) streams w i)
  unfolding starts_chunk
  starter_work-WorkedIn reply h =
      work-WorkedIn is_starting from_starter w i at (starts_chunk streams reply) streams
        (λ c. (starter-kept (streams c.stream) reply c).0)
        (λ c k.
          from_start c.state _ c.err _ _ k
            (starter_manipulate-not_eof (streams c.stream) reply c (start_clear c.state c.err k))
            (starter-kept (streams c.stream) reply c).1)
        h.counted h.ring h.queue

  pub poller_work-WorkedIn :
      (order : List Text → List Text) (failed_text : Text) (reply : Reply GetQueryResultsOutput)
      → IsServed is_polling from_poller ghost w i update
      → WorkedIn is_polling from_poller w i (
          work at (λ c. poller_manipulate order failed_text (streams c.stream) reply c) streams w i)
  poller_work-WorkedIn order failed_text reply h =
      let polled =
        λ (c : Chunk). poller_manipulate-IsPolled order failed_text (streams c.stream) reply c in
      work-WorkedIn is_polling from_poller w i at _ streams (λ c. (polled c).same.stream)
        (λ c k.
          from_poll c.state _ c.err _ _ k
            (poller_manipulate-not_eof order failed_text (streams c.stream) reply c)
            (polled c).state (λ a b. ((polled c).completed a b).0))
        h.counted h.ring h.queue

  pub stopper_work-WorkedIn :
      (reply : Reply StopQueryOutput)
      → IsServed is_stopping from_stopper ghost w i update
      → WorkedIn is_stopping from_stopper w i (work at (stops_chunk streams reply) streams w i)
  unfolding stops_chunk
  stopper_work-WorkedIn reply h =
      work-WorkedIn is_stopping from_stopper w i at (stops_chunk streams reply) streams (λ c. refl)
        (λ c k. (from_stop c.state c.err k, inr k)) h.counted h.ring h.queue
