-- ===== src/System/Room.antt =====
-- The channels between the manager and its workers always have room (mgr.go: NewQueryManager, loop).
use incite.Base.{
  Bool, ℕ, ◌+◌, ◌≤◌, ◌≡◌, refl, ap, inl, inr, true, false, Bool-cases, some, List, [], ◌∷◌, arith,
  length, Text,
}
use incite.Clock.{Time}
use incite.Chunk.{Chunk}
use incite.Worker.{Worker, Input}
use incite.Worker.Ring.{total}
use incite.Worker.States.{Test, AllIn}
use incite.Manager.{Heap, Streams}
use incite.Setup.{Config, Launched, new_query_manager}
use incite.Setup.Ready.{launched-IsReady}
use incite.Setup.Fresh.{IsFresh}
use incite.System.{
  System, Event, Next, mgr_panicked, starter_panicked, poller_panicked, stopper_panicked, next,
  launch, run,
}
use incite.System.Served.{by, select, IsServed}
use incite.System.Kinds.{from_starter, from_poller, from_stopper}
use incite.System.Coherence.{is_expected}
use incite.System.Steps.{run-Holds}
use incite.System.Rests.{HoldsAt, Holds}

-- The chunks in the channels and in the workers' rings are together no more than Config.Parallel.
abbrev pub present : System → ℕ
present s =
    length s.start.queue
    + length s.poll.queue
    + length s.stop.queue
    + length s.update
    + s.starter.num_chunks
    + s.poller.num_chunks
    + s.stopper.num_chunks

total-one : (cs : List Chunk) → total (by (λ k. 1)) cs ≡ length cs
unfolding total
total-one [] = refl
total-one (c ∷ cs) = omega (arith, total-one cs)

-- A chunk that is expected comes from one of the workers.
selected :
    (cs : List Chunk)
    → AllIn is_expected cs
    → length cs
      ≡ length (select from_starter cs)
        + length (select from_poller cs)
        + length (select from_stopper cs)
unfolding select
selected [] h = refl
selected (c ∷ cs) (h, k) = ground (arith, h, selected cs k)

served_count :
    (p mine : Test) (ghost : List Chunk) (w : Worker) (i : Input) (update : List Chunk)
    → IsServed p mine ghost w i update
    → length ghost ≡ w.num_chunks + length i.queue + length (select mine update)
served_count p mine ghost w i update h = omega (
  arith,
  h.balanced (λ k. 1),
  h.counted,
  total-one ghost,
  total-one w.chunks,
  total-one i.queue,
  total-one (select mine update),
)

HoldsAt-present : (limit : ℕ) (s : System) → HoldsAt limit s → present s ≤ limit
HoldsAt-present limit s (sound, h) = omega (
  arith,
  sound.bounded,
  served_count _ _ s.mgr.start s.starter s.start s.update h.starter,
  served_count _ _ s.mgr.poll s.poller s.poll s.update h.poller,
  served_count _ _ s.mgr.stop s.stopper s.stop s.update h.stopper,
  selected s.update h.expected,
)

fresh-IsServed :
    (p mine : Test) (rate : ℕ) (adapting : Bool) (w : Worker)
    → IsFresh rate adapting w
    → IsServed p mine [] w (record { queue = []; is_closed = false }) []
unfolding total select
fresh-IsServed p mine rate adapting w fresh = record {
  balanced = λ f. ground (arith, ap (total (by f)) fresh.chunks);
  ring = rw fresh.chunks tt;
  queue = tt;
  counted = ground (arith, fresh.chunks, fresh.num_chunks);
}

-- What comes of some events: the log entry of the stopper has panicked, or nothing has and there is
-- room for every chunk.
abbrev pub KeepsRoom : ℕ → Next → Type 0
KeepsRoom limit stopper_panicked = Unit {0}
KeepsRoom limit (next s) = present s ≤ limit
KeepsRoom limit _ = ⊥

Holds-KeepsRoom : (limit : ℕ) (r : Next) → Holds limit r → KeepsRoom limit r
Holds-KeepsRoom limit mgr_panicked h = h
Holds-KeepsRoom limit starter_panicked h = h
Holds-KeepsRoom limit poller_panicked h = h
Holds-KeepsRoom limit stopper_panicked h = h
Holds-KeepsRoom limit (next s) h = HoldsAt-present limit s h

pub launched-has_actions :
    (address : Text) (now : Time) (streams : Streams) (cfg : Config) (l : Launched)
    → new_query_manager address now streams cfg ≡ some l
    → cfg.has_actions ≡ true
unfolding new_query_manager
launched-has_actions address now streams cfg l h = elim (Bool-cases cfg.has_actions) [
  | inl e ↦ e
  | inr e ↦ absurd (ground (arith, e, h))
]

module _ (address : Text) (now : Time) (streams : Streams) (cfg : Config) (l : Launched)
    (launched : new_query_manager address now streams cfg ≡ some l) where
  pub launch-HoldsAt : HoldsAt l.worker_capacity (launch l)
  unfolding launch
  launch-HoldsAt =
      let ready =
        launched-IsReady address now streams cfg l
          (launched-has_actions address now streams cfg l launched) launched in
      (
        ready.sound,
        record {
          starter = rw ready.start (fresh-IsServed _ _ _ _ l.starter ready.starter);
          poller = rw ready.poll (fresh-IsServed _ _ _ _ l.poller ready.poller);
          stopper = rw ready.stop (fresh-IsServed _ _ _ _ l.stopper ready.stopper);
          expected = tt;
          clear = rw ready.ready tt;
        },
      )

  -- Whatever the clients ask for, however the service answers and in whatever order the manager and
  -- its workers run, while the manager is open it never meets a chunk in a state that it does not
  -- expect, the starter and the poller do not panic, and, unless the stopper has panicked, there
  -- are never more chunks in the workers' rings and the channels together than Config.Parallel,
  -- so that no send to a channel has to wait.
  pub run-KeepsRoom :
      (heap : Heap) (order : List Text → List Text) (failed_text : Text) (es : List Event)
      → KeepsRoom l.worker_capacity (run heap order failed_text es (launch l))
  run-KeepsRoom heap order failed_text es =
      Holds-KeepsRoom l.worker_capacity _
        (run-Holds l.worker_capacity heap order failed_text es (launch l) launch-HoldsAt)
