-- ===== src/System.antt =====
-- The manager with its three workers (mgr.go: loop; worker.go; starter.go; poller.go; stopper.go;
-- stream.go): what the goroutines and the clients do, one event at a time, while the manager is open.
pub mod Ends
pub mod Served
pub mod Kinds
pub mod Sends
pub mod Refills
pub mod Rounds
pub mod Panics
pub mod Coherence
pub mod Rests
pub mod Steps
pub mod Tracked
pub mod Accounts
pub mod Eof
pub mod Room
use incite.Base.{
  ℕ, zero, suc, ◌+◌, Bool, true, false, Option, none, some, List, [], ◌∷◌, ◌++◌, Text, drop, length,
  ◌==◌, ltb, if◌then◌else◌,
}
use incite.Clock.{Time}
use incite.Errors.{Result, ok, err}
use incite.Base.Int.{pos}
use incite.Query.{query, new_stream}
use incite.Stream.{Stream, QuerySpec, read, close}
use incite.Chunk.{
  Chunk, ChunkState, created, starting, started, polling, complete, stopping, stopped,
}
use incite.Adapter.{whole}
use incite.Service.{Reply, StartQueryOutput, GetQueryResultsOutput, StopQueryOutput}
use incite.Regulator.{Regulator, WaitResult, timer_fires, context_ends, wait}
use incite.Worker.{
  Worker, Input, Popped, waits, closing, popped, pop, Round, waiting, returned, panicked, goes_on,
  stops, round_of,
}
use incite.Starter.{starter_manipulate, stopper_manipulate}
use incite.Poller.{Polled, poller_manipulate}
use incite.Setup.{Launched}
use incite.Working.{Moment, Worked, idle, failed, worked, work, starts_chunk, stops_chunk}
use incite.Manager.{Mgr, Streams, Heap, put, handle_chunk, add_query, dispatch}

-- `start`, `poll` and `stop` are the channels to the workers and `update` is the one back. The
-- streams are numbered in the order in which the manager received them.
pub record System : Type 0 where
  pub mgr : Mgr
  pub starter : Worker
  pub poller : Worker
  pub stopper : Worker
  pub start : Input
  pub poll : Input
  pub stop : Input
  pub update : List Chunk
  pub num_streams : ℕ

abbrev no_query : QuerySpec
no_query = record {
  text = [];
  groups = [];
  start = 0;
  end = 0;
  limit = pos 0;
  chunk = pos 0;
  preview = false;
  priority = pos 0;
  split_until = pos 0;
}

-- What a number is before it has a stream.
abbrev pub no_stream : Stream
no_stream = new_stream no_query 0 (pos 0)

-- A new manager, whose goroutines have been started and have done nothing yet.
unfoldable pub launch : Launched → System
launch l = record {
  mgr = l.mgr;
  starter = l.starter;
  poller = l.poller;
  stopper = l.stopper;
  start = record { queue = []; is_closed = false };
  poll = record { queue = []; is_closed = false };
  stop = record { queue = []; is_closed = false };
  update = [];
  num_streams = 0;
}

pub data Event : Type 0 where
  client_queries : QuerySpec → Event
  client_reads : ℕ → ℕ → Event
  client_closes : ℕ → Event
  mgr_receives : Time → Event
  starter_works : Moment → Reply StartQueryOutput → Event
  poller_works : Moment → Reply GetQueryResultsOutput → Event
  stopper_works : Moment → Reply StopQueryOutput → Event

-- What comes of an event. A goroutine that waits leaves the state as it is.
pub data Next : Type 0 where
  mgr_panicked starter_panicked poller_panicked stopper_panicked : Next
  next : System → Next

-- The chunks that were sent to a worker, without the first one of a stream.
unfoldable pub remove : ℕ → List Chunk → List Chunk
remove k [] = []
remove k (c ∷ cs) = let rest = remove k cs in if k == c.stream then cs else c ∷ rest

-- A chunk that comes back with a state is no longer with its worker.
abbrev pub take_from : ChunkState → ℕ → Mgr → Mgr
take_from created k m = m
take_from starting k m = record m { start = remove k m.start }
take_from started k m = record m { start = remove k m.start }
take_from polling k m = record m { poll = remove k m.poll }
take_from complete k m = record m { poll = remove k m.poll }
take_from stopping k m = record m { stop = remove k m.stop }
take_from stopped k m = record m { stop = remove k m.stop }

unfoldable pub take_back : Chunk → Mgr → Mgr
unfolding remove
take_back c m = take_from c.state c.stream m

abbrev pub sent : List Chunk → List Chunk → Input → Input
sent before after i = record i { queue = i.queue ++ drop (length before) after }

-- What the manager has sent to its workers is in their channels.
unfoldable pub deliver : Mgr → Mgr → System → System
deliver m m' s = record s {
  mgr = m';
  start = sent m.start m'.start s.start;
  poll = sent m.poll m'.poll s.poll;
  stop = sent m.stop m'.stop s.stop;
}

abbrev pub send_out : Option Chunk → List Chunk → List Chunk
send_out none update = update
send_out (some c) update = update ++ c ∷ []

abbrev pub starter_worked : System → Worked → Next
starter_worked s idle = next s
starter_worked s failed = starter_panicked
starter_worked s (worked w i out streams) = next (record s {
  mgr = record (s.mgr) { streams = streams };
  starter = w;
  start = i;
  update = send_out out s.update;
})

abbrev pub poller_worked : System → Worked → Next
poller_worked s idle = next s
poller_worked s failed = poller_panicked
poller_worked s (worked w i out streams) = next (record s {
  mgr = record (s.mgr) { streams = streams };
  poller = w;
  poll = i;
  update = send_out out s.update;
})

abbrev pub stopper_worked : System → Worked → Next
stopper_worked s idle = next s
stopper_worked s failed = stopper_panicked
stopper_worked s (worked w i out streams) = next (record s {
  mgr = record (s.mgr) { streams = streams };
  stopper = w;
  stop = i;
  update = send_out out s.update;
})

module _ (heap : Heap) where
  -- The inner loop of the manager, after a round of its outer loop that left the manager m'.
  unfoldable pub dispatched : Mgr → Mgr → System → System
  unfolding deliver
  dispatched m m' s = deliver m (dispatch heap (whole m'.parallel) m') s

  -- m.Query, and what the loop does with the new stream.
  abbrev pub asked : Result Stream → System → System
  asked (err e) s = s
  asked (ok stream) s =
      let m = record (s.mgr) { streams = put s.num_streams stream s.mgr.streams } in
      dispatched m (add_query heap s.num_streams m) (record s { num_streams = s.num_streams + 1 })

  unfoldable pub ask : QuerySpec → System → System
  unfolding put dispatched
  ask q s = asked (query false q) s

  -- The loop receives a chunk.
  abbrev pub handled : Mgr → System → Option Mgr → Next
  handled m s none = mgr_panicked
  handled m s (some m') = next (dispatched m m' s)

  abbrev pub receive_first : Time → List Chunk → System → Next
  receive_first now [] s = next s
  receive_first now (c ∷ cs) s =
      handled (take_back c s.mgr) (record s { update = cs })
        (handle_chunk now c (take_back c s.mgr))

-- A client has a stream only after the manager has got it.
abbrev pub change_stream : ℕ → (Stream → Stream) → System → System
change_stream k change s =
    if ltb k s.num_streams
    then record s {
      mgr = record (s.mgr) { streams = put k (change (s.mgr.streams k)) s.mgr.streams };
    }
    else s

abbrev pub and_then : (System → Next) → Next → Next
and_then rest mgr_panicked = mgr_panicked
and_then rest starter_panicked = starter_panicked
and_then rest poller_panicked = poller_panicked
and_then rest stopper_panicked = stopper_panicked
and_then rest (next s) = rest s

module _ (heap : Heap) (order : List Text → List Text) (failed_text : Text) where
  unfoldable pub step : Event → System → Next
  unfolding ask take_back work starts_chunk stops_chunk put
  step (client_queries q) s = next (ask heap q s)
  step (client_reads k room) s = next (change_stream k (λ stream. (read stream room).0) s)
  step (client_closes k) s = next (change_stream k (λ stream. (close stream).0) s)
  step (mgr_receives now) s = receive_first heap now s.update s
  step (starter_works at reply) s =
      let streams = s.mgr.streams in
      starter_worked s (work at (starts_chunk streams reply) streams s.starter s.start)
  step (poller_works at reply) s =
      let streams = s.mgr.streams in
      poller_worked s (
        work at (λ c. poller_manipulate order failed_text (streams c.stream) reply c) streams
          s.poller s.poll)
  step (stopper_works at reply) s =
      let streams = s.mgr.streams in
      stopper_worked s (work at (stops_chunk streams reply) streams s.stopper s.stop)

  unfoldable pub run : List Event → System → Next
  unfolding step
  run [] s = next s
  run (e ∷ es) s = and_then (λ s'. run es s') (step e s)
