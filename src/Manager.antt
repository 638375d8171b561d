-- ===== src/Manager.antt =====
-- The manager (mgr.go): what its loop does on a new stream and on a chunk that a worker returns.
pub mod Sound
pub mod Counts
pub mod Streams
pub mod Shutdown
pub mod Account
pub mod Consistency
pub mod Dispatching
pub mod Final
pub mod Others
pub mod Priority
use incite.Base.{
  ℕ, zero, suc, ◌+◌, ◌-◌, Bool, true, false, Option, none, some, List, [], ◌∷◌, ◌++◌, ltb, ◌==◌,
  if◌then◌else◌, Text, codes, length,
}
use incite.Base.Int.{ℤ, ltb_ℤ}
use incite.Clock.{Time}
use incite.Stats.{Stats, add, zero_stats}
use incite.Errors.{
  Error, eof, reduce_parallel, restart_chunk, split_chunk, stop_chunk, unexpected_query,
}
use incite.Stream.{Stream, set_err, alive, next_chunk_range}
use incite.Chunk.{
  Chunk, created, starting, started, polling, complete, stopping, stopped, first_chunk,
  mark_started, add_failed, split_children,
}
use incite.Adapter.{Adapter, increase, decrease, whole}

-- The streams that chunks point to, by their numbers.
abbrev pub Streams : Type 0
Streams = ℕ → Stream

unfoldable pub put : ℕ → Stream → Streams → Streams
put k s streams = λ j. if j == k then s else streams j

-- The state of mgr. `start`, `poll` and `stop` hold the chunks that were sent to a worker and have
-- not come back through the channel `update`.
pub record Mgr : Type 0 where
  pub pq : List ℕ
  pub ready : List Chunk
  pub parallel : Adapter
  pub num_ready : ℕ
  pub num_starting : ℕ
  pub num_polling : ℕ
  pub num_stopping : ℕ
  pub start : List Chunk
  pub poll : List Chunk
  pub stop : List Chunk
  pub stats : Stats
  pub streams : Streams

-- container/heap over streamHeap, with the streams as they are at the time of the call.
pub record Heap : Type 0 where
  pub push : Streams → ℕ → List ℕ → List ℕ
  pub pop : Streams → List ℕ → Option (ℕ × List ℕ)

-- streamHeap.Less.
unfoldable pub less : Stream → Stream → Bool
less s t =
    if ltb_ℤ s.spec.priority t.spec.priority
    then true
    else if ltb_ℤ t.spec.priority s.spec.priority
    then false
    else ltb s.next t.next

unfoldable pub make_ready : Chunk → Mgr → Mgr
make_ready c m = record m { ready = m.ready ++ c ∷ []; num_ready = m.num_ready + 1 }

unfoldable pub kill_stream : Chunk → Mgr → Mgr
unfolding put
kill_stream c m = record m {
  stats = add m.stats c.stats;
  streams = put c.stream (set_err (m.streams c.stream) c.err c.stats).0 m.streams;
}

unfoldable pub stop_chunk_of : Chunk → Mgr → Mgr
stop_chunk_of c m = record m {
  num_stopping = m.num_stopping + 1;
  stop = m.stop ++ record c { state = stopping } ∷ [];
}

-- handleStartingError.
abbrev pub starting_error : Time → Option Error → Chunk → Mgr → Mgr
starting_error now (some reduce_parallel) c m =
    make_ready c (record m { parallel = (decrease now m.parallel).0 })
starting_error now _ c m = kill_stream (mark_started c) m

unfoldable pub handle_starting_error : Time → Chunk → Mgr → Mgr
unfolding make_ready kill_stream
handle_starting_error now c m = starting_error now c.err c m

unfoldable pub handle_chunk_started : Time → Chunk → Mgr → Mgr
handle_chunk_started now c m = record m {
  poll = m.poll ++ record (mark_started c) { state = polling } ∷ [];
  parallel = (increase now m.parallel).0;
}

-- m.splitChunk: the children become ready, and the stream has so many chunks more.
unfoldable pub split_chunk_of : Chunk → Mgr → Mgr
unfolding put
split_chunk_of c m =
    let s = m.streams c.stream in
    let children = split_children c s.spec.split_until in
    record m {
      streams = put c.stream (record s { n = s.n + length children }) m.streams;
      num_ready = m.num_ready + length children;
      ready = m.ready ++ children;
    }

unfoldable pub handle_chunk_completion : Chunk → Mgr → Mgr
unfolding put kill_stream
handle_chunk_completion c m =
    let s = m.streams c.stream in
    let s' = record s { m = s.m + 1 } in
    kill_stream (if s'.m == s'.n then record c { err = some eof } else c)
      (record m { streams = put c.stream s' m.streams })

-- handlePollingError. A chunk that was sent to the stopper is shared with it, and the change of
-- its statistics after the send shows there.
abbrev pub polling_error : Option Error → Chunk → Mgr → Mgr
polling_error (some restart_chunk) c m =
    make_ready (record c { chunk_id = c.chunk_id ++ codes "R"; err = none }) m
polling_error (some split_chunk) c m =
    handle_chunk_completion (record c { err = none }) (split_chunk_of c m)
polling_error (some stop_chunk) c m = stop_chunk_of c m
polling_error (some (unexpected_query query_id text cause)) c m =
    kill_stream (add_failed c) (stop_chunk_of (add_failed c) m)
polling_error _ c m = kill_stream (add_failed c) m

unfoldable pub handle_polling_error : Chunk → Mgr → Mgr
unfolding make_ready split_chunk_of handle_chunk_completion stop_chunk_of kill_stream
handle_polling_error c m = polling_error c.err c m

-- handleChunk. none when it panics on an unexpected state.
unfoldable pub handle_chunk : Time → Chunk → Mgr → Option Mgr
unfolding handle_starting_error handle_chunk_started handle_polling_error handle_chunk_completion
handle_chunk now c m = elim c.state [
  | starting ↦ some (handle_starting_error now c (record m { num_starting = m.num_starting - 1 }))
  | started ↦ some (
      handle_chunk_started now c
        (record m { num_starting = m.num_starting - 1; num_polling = m.num_polling + 1 }))
  | polling ↦ some (handle_polling_error c (record m { num_polling = m.num_polling - 1 }))
  | complete ↦ some (handle_chunk_completion c (record m { num_polling = m.num_polling - 1 }))
  | stopping ↦ some (record m { num_stopping = m.num_stopping - 1 })
  | stopped ↦ some (record m { num_stopping = m.num_stopping - 1 })
  | created ↦ none
]

module _ (heap : Heap) where
  unfoldable pub add_query : ℕ → Mgr → Mgr
  add_query k m = record m {
    pq = heap.push m.streams k m.pq;
    stats =
        add m.stats (record zero_stats { range_requested = (m.streams k).stats.range_requested });
  }

  -- The next chunk of a stream that was taken from the queue becomes ready.
  unfoldable pub make_chunk : ℕ → List ℕ → Mgr → Mgr
  unfolding put make_ready
  make_chunk k rest m =
      let s = m.streams k in
      let c = first_chunk k s.next (next_chunk_range s) s.spec.preview in
      let s' = record s { next = s.next + 1 } in
      let streams' = put k s' m.streams in
      make_ready c (record m {
        streams = streams';
        pq = if ltb s'.next s'.n0 then heap.push streams' k rest else rest;
      })

  -- The loop of getReadyChunk. Each stream that it drops leaves the queue, so the length of the
  -- queue is enough fuel.
  unfoldable pub fill_ready : ℕ → Mgr → Mgr
  unfolding make_chunk
  fill_ready zero m = m
  fill_ready (suc fuel) m = elim m.num_ready [
    | suc n ↦ m
    | zero ↦ elim (heap.pop m.streams m.pq) [
      | none ↦ m
      | some (k, rest) ↦
          if alive (m.streams k)
          then make_chunk k rest m
          else fill_ready fuel (record m { pq = rest })
    ]
  ]

  -- getReadyChunk, and the sending of the chunk to the starter: one round of the inner loop.
  abbrev pub send_first : List Chunk → Mgr → Mgr
  send_first [] m = m
  send_first (c ∷ cs) m = record m {
    ready = cs;
    num_ready = m.num_ready - 1;
    num_starting = m.num_starting + 1;
    start = m.start ++ record c { state = starting } ∷ [];
  }

  unfoldable pub send_ready : Mgr → Mgr
  unfolding fill_ready
  send_ready m = let m' = fill_ready (length m.pq) m in send_first m'.ready m'

  -- The inner loop. It sends as many chunks as the parallelism allows, so that is enough fuel.
  unfoldable pub dispatch : ℕ → Mgr → Mgr
  unfolding send_ready
  dispatch zero m = m
  dispatch (suc fuel) m =
      elim (ltb (m.num_starting + m.num_polling + m.num_stopping) (whole m.parallel)) [
        | true ↦ dispatch fuel (send_ready m)
        | false ↦ m
      ]
