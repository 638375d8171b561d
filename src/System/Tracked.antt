-- ===== src/System/Tracked.antt =====
-- Every event keeps the account of the chunks of each stream (mgr.go, worker.go, stream.go).
use incite.Base.{
  ℕ, ◌≤◌, ◌≡◌, refl, sym, subst, ◌∙◌, inl, inr, Bool, false, Bool-cases, Option, none, some, List,
  [], ◌∷◌, arith, ◌==◌, ==_iff, if◌then◌else◌, Text,
}
use incite.Clock.{Time}
use incite.Errors.{eof}
use incite.Stream.{Stream, Row, read, close, set_err}
use incite.Chunk.{Chunk}
use incite.Service.{Reply, GetQueryResultsOutput}
use incite.Worker.{
  Worker, Input, Popped, pop, waits, closing, popped, Round, waiting, returned, panicked, goes_on,
  stops, round_of,
}
use incite.Regulator.{Regulator, WaitResult, wait, timer_fires, context_ends}
use incite.Poller.{Polled, poller_manipulate, append_block}
use incite.Poller.Outcomes.{poller_manipulate-IsPolled}
use incite.Manager.{Mgr, Streams, put}
use incite.Manager.Account.{left}
use incite.Manager.Consistency.{IsConsistent}
use incite.Manager.Final.{IsFinal}
use incite.Manager.Others.{Unmade}
use incite.Working.{Moment, work, Worked, idle, failed, worked, taken, after_wait, after_round}

-- A change that keeps what counts of a stream, and does not give it io.EOF.
pub record IsSimilar (s s' : Stream) : Type 0 where
  pub next : s'.next ≡ s.next
  pub n0 : s'.n0 ≡ s.n0
  pub m : s'.m ≡ s.m
  pub n : s'.n ≡ s.n
  pub err : s'.err ≡ some eof → s.err ≡ some eof

-- What is known of the stream with a number. One that is not made yet has no chunks.
pub record IsTracked (k : ℕ) (num_streams : ℕ) (m : Mgr) : Type 0 where
  pub consistent : IsConsistent k m
  pub final : IsFinal (m.streams k)
  pub unmade : num_streams ≤ k → Unmade k m

pub IsSimilar-refl : (s : Stream) → IsSimilar s s
IsSimilar-refl s = record { next = refl; n0 = refl; m = refl; n = refl; err = λ e. e }

pub read-IsSimilar : (s : Stream) (room : ℕ) → IsSimilar s (read s room).0
unfolding read
read-IsSimilar s room = record { next = refl; n0 = refl; m = refl; n = refl; err = λ e. e }

pub close-IsSimilar : (s : Stream) → IsSimilar s (close s).0
unfolding close set_err
close-IsSimilar s = ground arith

append_block-IsSimilar : (rows : List Row) (s : Stream) → IsSimilar s (append_block rows s)
append_block-IsSimilar [] s = IsSimilar-refl s
append_block-IsSimilar (r ∷ rs) s = ground arith

unfoldable pub AllSimilar : Streams → Streams → Type 0
AllSimilar streams streams' = (k : ℕ) → IsSimilar (streams k) (streams' k)

pub put-AllSimilar :
    (j : ℕ) (s : Stream) (streams : Streams)
    → IsSimilar (streams j) s
    → AllSimilar streams (put j s streams)
unfolding AllSimilar put
put-AllSimilar j s streams h k = elim (Bool-cases (k == j)) [
  | inl e ↦ rw e (subst (λ (i : ℕ). IsSimilar (streams i) s) (sym ((==_iff k j).0 e)) h)
  | inr e ↦ rw e (IsSimilar-refl (streams k))
]

pub similar-IsTracked :
    (k num_streams : ℕ) (m : Mgr) (streams : Streams)
    → IsSimilar (m.streams k) (streams k)
    → IsTracked k num_streams m
    → IsTracked k num_streams (record m { streams = streams })
unfolding left Unmade
similar-IsTracked k num_streams m streams same h = record {
  consistent = record {
    accounted = omega (arith, h.consistent.accounted, same.next, same.n0, same.m, same.n);
    once = h.consistent.once;
    unfinished = λ o. omega (arith, h.consistent.unfinished o, same.next, same.n0);
  };
  final = λ e. same.m ∙ h.final (same.err e) ∙ sym same.n;
  unmade = λ e. (same.n ∙ (h.unmade e).0, same.n0 ∙ (h.unmade e).1);
}

-- What happens to the streams in a round of a worker.
abbrev pub WorkedSimilar : Streams → Worked → Type 0
WorkedSimilar streams idle = Unit {0}
WorkedSimilar streams failed = Unit {0}
WorkedSimilar streams (worked w i out streams') = AllSimilar streams streams'

after_round-WorkedSimilar :
    (now : Time) (requested : Bool) (streams streams' : Streams) (r : Round)
    → AllSimilar streams streams'
    → WorkedSimilar streams (after_round now requested streams' r)
after_round-WorkedSimilar now requested streams streams' waiting h = tt
after_round-WorkedSimilar now requested streams streams' returned h = tt
after_round-WorkedSimilar now requested streams streams' panicked h = tt
after_round-WorkedSimilar now requested streams streams' (goes_on w i out) h = h
after_round-WorkedSimilar now requested streams streams' (stops w i) h = tt

after_wait-WorkedSimilar :
    (streams : Streams) (result : Option (Regulator × WaitResult))
    (rest : Regulator × WaitResult → Worked)
    → ((x : Regulator × WaitResult) → WorkedSimilar streams (rest x))
    → WorkedSimilar streams (after_wait result rest)
after_wait-WorkedSimilar streams none rest h = tt
after_wait-WorkedSimilar streams (some x) rest h = h x

taken-AllSimilar :
    (p : Popped) (manipulate : Chunk → Polled) (streams : Streams)
    → ((c : Chunk) → IsSimilar (streams c.stream) (manipulate c).stream)
    → AllSimilar streams (taken p (λ c. put c.stream (manipulate c).stream streams) streams)
unfolding AllSimilar
taken-AllSimilar waits manipulate streams h k = IsSimilar-refl (streams k)
taken-AllSimilar closing manipulate streams h k = IsSimilar-refl (streams k)
taken-AllSimilar (popped c w i) manipulate streams h k =
    unfold AllSimilar in put-AllSimilar c.stream (manipulate c).stream streams (h c) k

pub work-WorkedSimilar :
    (at : Moment) (manipulate : Chunk → Polled) (streams : Streams) (w : Worker) (i : Input)
    → ((c : Chunk) → IsSimilar (streams c.stream) (manipulate c).stream)
    → WorkedSimilar streams (work at manipulate streams w i)
unfolding work
work-WorkedSimilar at manipulate streams w i h =
    let requested : Bool = taken (pop w i) (λ c. (manipulate c).requested) false in
    let streams' : Streams =
      taken (pop w i) (λ c. put c.stream (manipulate c).stream streams) streams in
    let round : Regulator × WaitResult → Round = λ result.
      round_of (λ c r. result) (λ c. ((manipulate c).chunk, (manipulate c).outcome)) at.answered w
        i in
    after_wait-WorkedSimilar streams
      (wait at.begun (if at.fires then timer_fires else context_ends) w.regulator)
      (λ result. after_round at.answered requested streams' (round result))
      (λ result.
        after_round-WorkedSimilar at.answered requested streams streams' (round result)
          (taken-AllSimilar (pop w i) manipulate streams h))

pub polled-IsSimilar :
    (order : List Text → List Text) (failed_text : Text) (streams : Streams)
    (reply : Reply GetQueryResultsOutput) (c : Chunk)
    → IsSimilar
        (streams c.stream)
        (poller_manipulate order failed_text (streams c.stream) reply c).stream
polled-IsSimilar order failed_text streams reply c =
    let (rows, e) =
      (poller_manipulate-IsPolled order failed_text (streams c.stream) reply c).delivered in
    subst (IsSimilar (streams c.stream)) (sym e) (append_block-IsSimilar rows (streams c.stream))
