-- ===== src/Manager/Sound.antt =====
-- What the handlers of the manager keep: its counters count the chunks with the workers (mgr.go).
use incite.Base.{
  ℕ, suc, ◌*◌, ◌⊎◌, ◌+◌, ◌-◌, ◌≤◌, ◌<◌, ◌≡◌, Option, some, List, [], ◌∷◌, ◌++◌, arith, inl, inr,
  length, length-append,
}
use incite.Clock.{Time}
use incite.Errors.{Error, reduce_parallel, restart_chunk, split_chunk, stop_chunk, unexpected_query}
use incite.Adapter.{Adapter, one, increase, decrease, increase_standard, decrease_standard}
use incite.Adapter.Bounds.{Within}
use incite.Chunk.{
  Chunk, starting, started, polling, complete, stopping, stopped, split_children, mark_started,
  add_failed,
}
use incite.Manager.{
  Mgr, make_ready, kill_stream, stop_chunk_of, starting_error, handle_starting_error,
  handle_chunk_started, split_chunk_of, handle_chunk_completion, polling_error,
  handle_polling_error, handle_chunk,
}

-- The chunks that are with the workers.
abbrev pub in_flight : Mgr → ℕ
in_flight m = length m.start + length m.poll + length m.stop

-- What the manager relies on, `limit` being Config.Parallel: the counters count the ready chunks
-- and those with each worker, and there are no more with the workers than one of their channels
-- can hold.
pub record IsSound (limit : ℕ) (m : Mgr) : Type 0 where
  pub ready : m.num_ready ≡ length m.ready
  pub starting : m.num_starting ≡ length m.start
  pub polling : m.num_polling ≡ length m.poll
  pub stopping : m.num_stopping ≡ length m.stop
  pub bounded : in_flight m ≤ limit
  pub parallel : Within one (limit * one) m.parallel

length-remove :
    (before after : List Chunk) (c : Chunk)
    → length (before ++ c ∷ after) ≡ suc (length (before ++ after))
length-remove before after c =
    omega (arith, length-append before (c ∷ after), length-append before after)

increase-Within :
    (lo hi : ℕ) (now : Time) (a : Adapter) → Within lo hi a → Within lo hi (increase now a).0
unfolding increase increase_standard
increase-Within lo hi now a h = ground arith

decrease-Within :
    (lo hi : ℕ) (now : Time) (a : Adapter) → Within lo hi a → Within lo hi (decrease now a).0
unfolding decrease decrease_standard
decrease-Within lo hi now a h = ground arith

module _ (limit : ℕ) (now : Time) where
  make_ready-IsSound : (c : Chunk) (m : Mgr) → IsSound limit m → IsSound limit (make_ready c m)
  unfolding make_ready
  make_ready-IsSound c m h = ground (arith, length-append m.ready (c ∷ []))

  kill_stream-IsSound : (c : Chunk) (m : Mgr) → IsSound limit m → IsSound limit (kill_stream c m)
  unfolding kill_stream
  kill_stream-IsSound c m h = ground arith

  stop_chunk_of-IsSound :
      (c : Chunk) (m : Mgr)
      → IsSound limit m
      → in_flight m < limit
      → IsSound limit (stop_chunk_of c m)
  unfolding stop_chunk_of
  stop_chunk_of-IsSound c m h lt =
      ground (arith, length-append m.stop (record c { state = stopping } ∷ []))

  handle_chunk_completion-IsSound :
      (c : Chunk) (m : Mgr) → IsSound limit m → IsSound limit (handle_chunk_completion c m)
  unfolding handle_chunk_completion kill_stream
  handle_chunk_completion-IsSound c m h = ground arith

  split_chunk_of-IsSound :
      (c : Chunk) (m : Mgr) → IsSound limit m → IsSound limit (split_chunk_of c m)
  unfolding split_chunk_of
  split_chunk_of-IsSound c m h =
      ground (arith, length-append m.ready (split_children c (m.streams c.stream).spec.split_until))

  starting_error-IsSound :
      (e : Option Error) (c : Chunk) (m : Mgr)
      → IsSound limit m
      → IsSound limit (starting_error now e c m)
  starting_error-IsSound (some reduce_parallel) c m h =
      make_ready-IsSound c (record m { parallel = (decrease now m.parallel).0 })
        (ground (arith, decrease-Within one (limit * one) now m.parallel))
  starting_error-IsSound _ c m h = kill_stream-IsSound (mark_started c) m h

  polling_error-IsSound :
      (e : Option Error) (c : Chunk) (m : Mgr)
      → IsSound limit m
      → in_flight m < limit
      → IsSound limit (polling_error e c m)
  polling_error-IsSound (some restart_chunk) c m h lt = make_ready-IsSound _ m h
  polling_error-IsSound (some split_chunk) c m h lt =
      handle_chunk_completion-IsSound _ (split_chunk_of c m) (split_chunk_of-IsSound c m h)
  polling_error-IsSound (some stop_chunk) c m h lt = stop_chunk_of-IsSound c m h lt
  polling_error-IsSound (some (unexpected_query query_id text cause)) c m h lt =
      kill_stream-IsSound (add_failed c) _ (stop_chunk_of-IsSound (add_failed c) m h lt)
  polling_error-IsSound _ c m h lt = kill_stream-IsSound (add_failed c) m h

  handle_chunk_started-IsSound :
      (c : Chunk) (m : Mgr)
      → IsSound limit m
      → in_flight m < limit
      → IsSound limit (handle_chunk_started now c (record m { num_polling = m.num_polling + 1 }))
  unfolding handle_chunk_started
  handle_chunk_started-IsSound c m h lt = ground (
    arith,
    increase-Within one (limit * one) now m.parallel,
    length-append m.poll (record (mark_started c) { state = polling } ∷ []),
  )

  -- What handle_chunk does by the state of the chunk.
  pub starter_return-IsSound :
      (before after : List Chunk) (sent c : Chunk) (m m' : Mgr)
      → IsSound limit m
      → m.start ≡ before ++ sent ∷ after
      → (c.state ≡ starting) ⊎ (c.state ≡ started)
      → handle_chunk now c (record m { start = before ++ after }) ≡ some m'
      → IsSound limit m'
  unfolding handle_chunk handle_starting_error
  starter_return-IsSound before after sent c m m' h e s r =
      let m1 = record m { start = before ++ after; num_starting = m.num_starting - 1 } in
      let removed = length-remove before after sent in
      let sound : IsSound limit m1 = ground (arith, removed, e, h) in
      let room : in_flight m1 < limit = ground (arith, removed, e, h) in
      elim s [
        | inl p ↦ ground (arith, p, r, starting_error-IsSound c.err c m1 sound)
        | inr p ↦ ground (arith, p, r, handle_chunk_started-IsSound c m1 sound room)
      ]

  pub poller_return-IsSound :
      (before after : List Chunk) (sent c : Chunk) (m m' : Mgr)
      → IsSound limit m
      → m.poll ≡ before ++ sent ∷ after
      → (c.state ≡ polling) ⊎ (c.state ≡ complete)
      → handle_chunk now c (record m { poll = before ++ after }) ≡ some m'
      → IsSound limit m'
  unfolding handle_chunk handle_polling_error
  poller_return-IsSound before after sent c m m' h e s r =
      let m1 = record m { poll = before ++ after; num_polling = m.num_polling - 1 } in
      let removed = length-remove before after sent in
      let sound : IsSound limit m1 = ground (arith, removed, e, h) in
      let room : in_flight m1 < limit = ground (arith, removed, e, h) in
      elim s [
        | inl p ↦ ground (arith, p, r, polling_error-IsSound c.err c m1 sound room)
        | inr p ↦ ground (arith, p, r, handle_chunk_completion-IsSound c m1 sound)
      ]

  pub stopper_return-IsSound :
      (before after : List Chunk) (sent c : Chunk) (m m' : Mgr)
      → IsSound limit m
      → m.stop ≡ before ++ sent ∷ after
      → (c.state ≡ stopping) ⊎ (c.state ≡ stopped)
      → handle_chunk now c (record m { stop = before ++ after }) ≡ some m'
      → IsSound limit m'
  unfolding handle_chunk
  stopper_return-IsSound before after sent c m m' h e s r =
      let removed = length-remove before after sent in
      elim s [
        | inl p ↦ ground (arith, removed, e, h, p, r)
        | inr p ↦ ground (arith, removed, e, h, p, r)
      ]
