-- ===== src/System/Eof.antt =====
-- A stream of the running manager has io.EOF only when all its chunks have completed (mgr.go, worker.go,
-- stream.go).
use incite.Base.{
  ◌∙◌, none, Option, ℕ, ◌≡◌, refl, sym, subst, inl, inr, false, Bool-cases, some, List, [], ◌∷◌,
  arith, ltb, Text,
}
use incite.Clock.{Time}
use incite.Errors.{eof}
use incite.Stream.{Stream, read, close}
use incite.Query.{query}
use incite.Manager.{Mgr, Heap, Streams}
use incite.Manager.Counts.{occurrences}
use incite.Manager.Account.{count, left}
use incite.Manager.Consistency.{IsHeap}
use incite.Manager.Others.{Unmade}
use incite.System.{
  System, Event, client_queries, client_reads, client_closes, mgr_receives, starter_works,
  poller_works, stopper_works, Next, mgr_panicked, starter_panicked, poller_panicked,
  stopper_panicked, next, starter_worked, poller_worked, stopper_worked, ask, change_stream, step,
  run, and_then,
}
use incite.Working.{Worked, idle, failed, worked, starts_chunk, stops_chunk}
use incite.System.Coherence.{IsCoherent}
use incite.System.Tracked.{
  IsSimilar, IsTracked, IsSimilar-refl, read-IsSimilar, close-IsSimilar, AllSimilar, put-AllSimilar,
  similar-IsTracked, WorkedSimilar, work-WorkedSimilar, polled-IsSimilar,
}
use incite.Base.Int.{pos_part}
use incite.Query.{new_stream}
use incite.Setup.Ready.{new_query_manager-with_channels}
use incite.Setup.{Config, Launched, new_query_manager, with_channels, new_mgr, filled_in}
use incite.System.{launch, no_stream}
use incite.System.Room.{launch-HoldsAt, launched-has_actions}
use incite.System.Steps.{step-Holds}
use incite.System.Rests.{HoldsAt, Holds}
use incite.System.Accounts.{TracksAt, Tracks, received-Tracks, asked-Tracks}

-- A change of the streams.
similar-TracksAt :
    (s : System) (streams : Streams)
    → AllSimilar s.mgr.streams streams
    → TracksAt s
    → (k : ℕ) → IsTracked k s.num_streams (record (s.mgr) { streams = streams })
unfolding AllSimilar
similar-TracksAt s streams all t k = similar-IsTracked k s.num_streams s.mgr streams (all k) (t k)

changed-Tracks :
    (j : ℕ) (change : Stream → Stream) (s : System)
    → ((stream : Stream) → IsSimilar stream (change stream))
    → TracksAt s
    → TracksAt (change_stream j change s)
changed-Tracks j change s similar t k = elim (Bool-cases (ltb j s.num_streams)) [
  | inl e ↦ rw e (
      similar-TracksAt s _
        (put-AllSimilar j (change (s.mgr.streams j)) s.mgr.streams (similar (s.mgr.streams j))) t k)
  | inr e ↦ rw e (t k)
]

starter_worked-Tracks :
    (s : System) (r : Worked)
    → TracksAt s
    → WorkedSimilar s.mgr.streams r
    → Tracks (starter_worked s r)
starter_worked-Tracks s idle t h = t
starter_worked-Tracks s failed t h = tt
starter_worked-Tracks s (worked w i out streams) t h = similar-TracksAt s streams h t

poller_worked-Tracks :
    (s : System) (r : Worked)
    → TracksAt s
    → WorkedSimilar s.mgr.streams r
    → Tracks (poller_worked s r)
poller_worked-Tracks s idle t h = t
poller_worked-Tracks s failed t h = tt
poller_worked-Tracks s (worked w i out streams) t h = similar-TracksAt s streams h t

stopper_worked-Tracks :
    (s : System) (r : Worked)
    → TracksAt s
    → WorkedSimilar s.mgr.streams r
    → Tracks (stopper_worked s r)
stopper_worked-Tracks s idle t h = t
stopper_worked-Tracks s failed t h = tt
stopper_worked-Tracks s (worked w i out streams) t h = similar-TracksAt s streams h t

module _ (heap : Heap) (h : IsHeap heap) (order : List Text → List Text) (failed_text : Text) where
  step-Tracks :
      (e : Event) (s : System)
      → IsCoherent s
      → TracksAt s
      → Tracks (step heap order failed_text e s)
  unfolding step
  step-Tracks (client_queries q) s c t =
      unfold ask in asked-Tracks heap h q (query false q) s refl t
  step-Tracks (client_reads k room) s c t =
      changed-Tracks k (λ stream. (read stream room).0) s (λ stream. read-IsSimilar stream room) t
  step-Tracks (client_closes k) s c t =
      changed-Tracks k (λ stream. (close stream).0) s close-IsSimilar t
  step-Tracks (mgr_receives now) s c t = received-Tracks heap h now s.update s refl c t
  step-Tracks (starter_works at reply) s c t = starter_worked-Tracks s _ t (
      work-WorkedSimilar at (starts_chunk s.mgr.streams reply) s.mgr.streams s.starter s.start
        (λ c. unfold starts_chunk in IsSimilar-refl (s.mgr.streams c.stream)))
  step-Tracks (poller_works at reply) s c t = poller_worked-Tracks s _ t (
      work-WorkedSimilar at _ s.mgr.streams s.poller s.poll
        (polled-IsSimilar order failed_text s.mgr.streams reply))
  step-Tracks (stopper_works at reply) s c t = stopper_worked-Tracks s _ t (
      work-WorkedSimilar at (stops_chunk s.mgr.streams reply) s.mgr.streams s.stopper s.stop
        (λ c. unfold stops_chunk in IsSimilar-refl (s.mgr.streams c.stream)))

  and_then-Tracks :
      (limit : ℕ) (rest : System → Next) (r : Next)
      → ((s : System) → HoldsAt limit s → TracksAt s → Tracks (rest s))
      → Holds limit r
      → Tracks r
      → Tracks (and_then rest r)
  and_then-Tracks limit rest mgr_panicked all p t = tt
  and_then-Tracks limit rest starter_panicked all p t = tt
  and_then-Tracks limit rest poller_panicked all p t = tt
  and_then-Tracks limit rest stopper_panicked all p t = tt
  and_then-Tracks limit rest (next s) all p t = all s p t

  run-Tracks :
      (limit : ℕ) (es : List Event) (s : System)
      → HoldsAt limit s
      → TracksAt s
      → Tracks (run heap order failed_text es s)
  unfolding run
  run-Tracks limit [] s p t = t
  run-Tracks limit (e ∷ es) s p t =
      and_then-Tracks limit (run heap order failed_text es) (step heap order failed_text e s)
        (run-Tracks limit es) (step-Holds limit heap order failed_text e s p)
        (step-Tracks e s p.1 t)

new_mgr-IsTracked :
    (now : Time) (parallel k : ℕ) → IsTracked k 0 (new_mgr now (λ j. no_stream) parallel)
unfolding new_mgr left count occurrences Unmade new_stream
new_mgr-IsTracked now parallel k = record {
  consistent = record {
    accounted = omega arith;
    once = omega arith;
    unfinished = λ o. absurd (omega (arith, o));
  };
  final = λ e. refl;
  unmade = λ e. (refl, refl);
}

with_channels-mgr :
    (now : Time) (streams : Streams) (cfg : Config) (parallel update : Option ℕ) (l : Launched)
    → with_channels now streams cfg parallel update ≡ some l
    → (n : ℕ) × (l.mgr ≡ new_mgr now streams n)
with_channels-mgr now streams cfg none update l h = cc
with_channels-mgr now streams cfg (some n) none l h = cc
with_channels-mgr now streams cfg (some n) (some m) l h = (pos_part cfg.parallel, ground (arith, h))

launched-mgr :
    (address : Text) (now : Time) (streams : Streams) (cfg : Config) (l : Launched)
    → new_query_manager address now streams cfg ≡ some l
    → (parallel : ℕ) × (l.mgr ≡ new_mgr now streams parallel)
launched-mgr address now streams cfg l h =
    let made =
      new_query_manager-with_channels address now streams cfg
        (launched-has_actions address now streams cfg l h) in
    with_channels-mgr now streams (filled_in address cfg) _ _ l (sym made ∙ h)

Tracks-next : (r : Next) (s : System) → r ≡ next s → Tracks r → TracksAt s
Tracks-next r s e t = subst Tracks e t

-- Whatever the clients ask for, however the service answers and in whatever order a manager that was
-- new and its workers run, if container/heap adds and takes out one stream at a time: when a stream
-- has io.EOF, as many of its chunks have completed as it has, and none is ready, with the starter or
-- the poller, or still to be made.
pub run-eof :
    (heap : Heap) (order : List Text → List Text) (failed_text address : Text) (now : Time)
    (cfg : Config) (l : Launched) (es : List Event) (s : System) (k : ℕ)
    → IsHeap heap
    → new_query_manager address now (λ j. no_stream) cfg ≡ some l
    → run heap order failed_text es (launch l) ≡ next s
    → (s.mgr.streams k).err ≡ some eof
    → ((s.mgr.streams k).m ≡ (s.mgr.streams k).n) × (left k s.mgr ≡ 0)
run-eof heap order failed_text address now cfg l es s k h launched ran e =
    let held = launch-HoldsAt address now (λ j. no_stream) cfg l launched in
    let (parallel, made) = launched-mgr address now (λ j. no_stream) cfg l launched in
    let new : TracksAt (launch l) =
      unfold launch in
      subst (λ (m : Mgr). (j : ℕ) → IsTracked j 0 m) (sym made)
        (λ j. new_mgr-IsTracked now parallel j) in
    let t =
      Tracks-next _ s ran
        (run-Tracks heap h order failed_text l.worker_capacity es (launch l) held new) k in
    let done = t.final e in (done, omega (arith, done, t.consistent.accounted))
