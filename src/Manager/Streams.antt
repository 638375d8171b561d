-- ===== src/Manager/Streams.antt =====
-- What the manager does to the error of a stream (mgr.go: killStream, handleChunkCompletion).
use incite.Base.{
  ℕ, zero, suc, ◌+◌, ◌-◌, ◌≡◌, ◌≢◌, refl, sym, subst, true, false, Option, none, some, List, [],
  ◌∷◌, ◌++◌, arith, ◌==◌, ==_iff, length, if◌then◌else◌, Option-cases, inl, inr,
}
use incite.Clock.{Time}
use incite.Stats.{Stats}
use incite.Errors.{
  Error, eof, closed, reduce_parallel, restart_chunk, split_chunk, stop_chunk, unexpected_query,
}
use incite.Stream.{alive, Stream, is_closed, set_err}
use incite.Service.{Reply, StartQueryOutput}
use incite.Starter.{starter_manipulate}
use incite.Chunk.{starting, Chunk, complete, mark_started, add_failed}
use incite.Manager.{
  put, Mgr, Heap, kill_stream, make_ready, stop_chunk_of, starting_error, handle_starting_error,
  handle_chunk_started, split_chunk_of, handle_chunk_completion, polling_error,
  handle_polling_error, handle_chunk, add_query, make_chunk, fill_ready, send_first, send_ready,
  dispatch,
}
use incite.Manager.Counts.{Step, asks, sends, starter_returns, poller_returns, stopper_returns}

abbrev pub IsClosed : ℕ → Mgr → Type 0
IsClosed k m = is_closed (m.streams k).err ≡ true

-- A chunk that completes gives its stream io.EOF exactly when it is the last one, unless the stream
-- is closed; and otherwise the stream gets the error of the chunk, whatever error it had.
handle_chunk_completion_lem :
    (c : Chunk) (m : Mgr)
    → let s = m.streams c.stream in
      let s' = (handle_chunk_completion c m).streams c.stream in
      (s'.m ≡ s.m + 1)
      × (s'.err ≡ (if is_closed s.err then s.err else if s.m + 1 == s.n then some eof else c.err))
unfolding handle_chunk_completion kill_stream put set_err
handle_chunk_completion_lem c m = ground arith

is_closed-other : (e : Error) → e ≢ closed → is_closed (some e) ≡ false
unfolding is_closed
is_closed-other closed h = absurd (h refl)
is_closed-other _ h = refl

-- A stream that has got an error, and is not closed, has none again after one of its other chunks
-- completes, if that is not the last one.
pub handle_chunk-revives :
    (now : Time) (c : Chunk) (m : Mgr) (e : Error)
    → c.state ≡ complete
    → c.err ≡ none
    → (m.streams c.stream).err ≡ some e
    → e ≢ closed
    → (m.streams c.stream).m + 1 ≢ (m.streams c.stream).n
    → (m' : Mgr) × (handle_chunk now c m ≡ some m') × ((m'.streams c.stream).err ≡ none)
unfolding handle_chunk
handle_chunk-revives now c m e p q h k l =
    let m1 = record m { num_polling = m.num_polling - 1 } in
    (
      handle_chunk_completion c m1,
      rw p refl,
      ground (arith, q, h, l, is_closed-other e k, handle_chunk_completion_lem c m1),
    )

discard-err :
    (now : Time) (c : Chunk) (m : Mgr) (e : Error)
    → c.err ≡ none
    → (m.streams c.stream).err ≡ some e
    → e ≢ closed
    → ((handle_starting_error now c m).streams c.stream).err ≡ none
unfolding handle_starting_error kill_stream put set_err mark_started
discard-err now c m e q h k = ground (arith, q, h, is_closed-other e k)

dead_discarded :
    (s : Stream) (reply : Reply StartQueryOutput) (c : Chunk) (e : Error)
    → s.err ≡ some e
    → (starter_manipulate s reply c).chunk ≡ c
unfolding starter_manipulate alive
dead_discarded s reply c e h = rw h refl

-- A stream that has got an error, and is not closed, has none again after the starter has
-- discarded a chunk of it that was not tried before: the manager takes the missing error of the
-- chunk for that of the stream.
pub starter_manipulate-revives :
    (now : Time) (reply : Reply StartQueryOutput) (c : Chunk) (m : Mgr) (e : Error)
    → c.state ≡ starting
    → c.err ≡ none
    → (m.streams c.stream).err ≡ some e
    → e ≢ closed
    → let c' = (starter_manipulate (m.streams c.stream) reply c).chunk in
      (m' : Mgr) × (handle_chunk now c' m ≡ some m') × ((m'.streams c.stream).err ≡ none)
unfolding handle_chunk
starter_manipulate-revives now reply c m e p q h k =
    let m1 = record m { num_starting = m.num_starting - 1 } in
    subst
      (λ (x : Chunk).
        (m' : Mgr) × (handle_chunk now x m ≡ some m') × ((m'.streams c.stream).err ≡ none))
      (sym (dead_discarded (m.streams c.stream) reply c e h))
      (handle_starting_error now c m1, rw p refl, discard-err now c m1 e q h k)

set_err-closed :
    (s : Stream) (e : Option Error) (t : Stats) → is_closed s.err ≡ true → (set_err s e t).0 ≡ s
unfolding set_err
set_err-closed s e t h = rw h refl

kill_stream-IsClosed : (k : ℕ) (c : Chunk) (m : Mgr) → IsClosed k m → IsClosed k (kill_stream c m)
unfolding kill_stream put set_err
kill_stream-IsClosed k c m h = ground (arith, ==_iff k c.stream)

handle_chunk_completion-IsClosed :
    (k : ℕ) (c : Chunk) (m : Mgr) → IsClosed k m → IsClosed k (handle_chunk_completion c m)
unfolding handle_chunk_completion put
handle_chunk_completion-IsClosed k c m h =
    let s = m.streams c.stream in
    let s' = record s { m = s.m + 1 } in
    let m1 = record m { streams = put c.stream s' m.streams } in
    let ended = if s'.m == s'.n then record c { err = some eof } else c in
    kill_stream-IsClosed k ended m1 (ground (arith, ==_iff k c.stream))

split_chunk_of-IsClosed :
    (k : ℕ) (c : Chunk) (m : Mgr) → IsClosed k m → IsClosed k (split_chunk_of c m)
unfolding split_chunk_of put
split_chunk_of-IsClosed k c m h = ground (arith, ==_iff k c.stream)

module _ (k : ℕ) (now : Time) where
  starting_error-IsClosed :
      (e : Option Error) (c : Chunk) (m : Mgr)
      → IsClosed k m
      → IsClosed k (starting_error now e c m)
  unfolding make_ready
  starting_error-IsClosed (some reduce_parallel) c m h = h
  starting_error-IsClosed _ c m h = kill_stream-IsClosed k (mark_started c) m h

  polling_error-IsClosed :
      (e : Option Error) (c : Chunk) (m : Mgr) → IsClosed k m → IsClosed k (polling_error e c m)
  unfolding make_ready stop_chunk_of
  polling_error-IsClosed (some restart_chunk) c m h = h
  polling_error-IsClosed (some split_chunk) c m h =
      handle_chunk_completion-IsClosed k _ (split_chunk_of c m) (split_chunk_of-IsClosed k c m h)
  polling_error-IsClosed (some stop_chunk) c m h = h
  polling_error-IsClosed (some (unexpected_query query_id text cause)) c m h =
      kill_stream-IsClosed k (add_failed c) (stop_chunk_of (add_failed c) m) h
  polling_error-IsClosed _ c m h = kill_stream-IsClosed k (add_failed c) m h

  handle_chunk-IsClosed :
      (c : Chunk) (m m' : Mgr) → IsClosed k m → handle_chunk now c m ≡ some m' → IsClosed k m'
  unfolding handle_chunk handle_starting_error handle_polling_error handle_chunk_started
  handle_chunk-IsClosed c m m' h r =
      let m1 = record m { num_starting = m.num_starting - 1 } in
      let m2 = record m { num_polling = m.num_polling - 1 } in
      ground (
        arith,
        starting_error-IsClosed c.err c m1 h,
        polling_error-IsClosed c.err c m2 h,
        handle_chunk_completion-IsClosed k c m2 h,
      )

module _ (heap : Heap) (k : ℕ) where
  fill_ready-IsClosed : (fuel : ℕ) (m : Mgr) → IsClosed k m → IsClosed k (fill_ready heap fuel m)
  unfolding fill_ready make_chunk make_ready put
  fill_ready-IsClosed zero m h = h
  fill_ready-IsClosed (suc fuel) m h = elim (Option-cases (heap.pop m.streams m.pq)) [
    | inl p ↦ ground (arith, p)
    | inr ((j, rest), p) ↦
        ground (arith, p, ==_iff k j, fill_ready-IsClosed fuel (record m { pq = rest }))
  ]

  send_first-IsClosed :
      (cs : List Chunk) (m : Mgr) → IsClosed k m → IsClosed k (send_first heap cs m)
  send_first-IsClosed [] m h = h
  send_first-IsClosed (c ∷ cs) m h = h

  dispatch-IsClosed : (fuel : ℕ) (m : Mgr) → IsClosed k m → IsClosed k (dispatch heap fuel m)
  unfolding dispatch send_ready
  dispatch-IsClosed zero m h = h
  dispatch-IsClosed (suc fuel) m h =
      let filled = fill_ready-IsClosed (length m.pq) m h in
      let m1 = fill_ready heap (length m.pq) m in
      let sent = send_first-IsClosed m1.ready m1 filled in
      ground (arith, dispatch-IsClosed fuel (send_ready heap m) sent)

  -- A stream that is closed stays closed, whatever befalls its manager.
  pub Step-IsClosed : {m m' : Mgr} → Step heap m m' → IsClosed k m → IsClosed k m'
  unfolding add_query
  Step-IsClosed {m} (asks j _ _ e) h = subst (IsClosed k) (sym e) h
  Step-IsClosed {m} (sends fuel e) h = subst (IsClosed k) (sym e) (dispatch-IsClosed fuel m h)
  Step-IsClosed {m} {m'} (starter_returns before after sent c now e _ s r) h =
      handle_chunk-IsClosed k now c (record m { start = before ++ after }) m' h r
  Step-IsClosed {m} {m'} (poller_returns before after sent c now e _ s r) h =
      handle_chunk-IsClosed k now c (record m { poll = before ++ after }) m' h r
  Step-IsClosed {m} {m'} (stopper_returns before after sent c now e _ s r) h =
      handle_chunk-IsClosed k now c (record m { stop = before ++ after }) m' h r
