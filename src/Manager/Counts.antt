-- ===== src/Manager/Counts.antt =====
-- The counters of the manager, and how many chunks are with the workers (mgr.go).
use incite.Base.{
  ◌==◌, if◌then◌else◌, ℕ, zero, suc, ◌*◌, ◌⊎◌, ◌+◌, ◌≤◌, ◌<◌, ◌≡◌, refl, sym, subst, Option-cases,
  some, List, [], ◌∷◌, ◌++◌, arith, inl, inr, length, length-append,
}
use incite.Clock.{Time}
use incite.Stream.{next_chunk_range}
use incite.Adapter.{Adapter, one, whole}
use incite.Adapter.Bounds.{Within, Within-value}
use incite.Chunk.{Chunk, starting, started, polling, complete, stopping, stopped, first_chunk}
use incite.Manager.Sound.{
  in_flight, IsSound, starter_return-IsSound, poller_return-IsSound, stopper_return-IsSound,
}
use incite.Manager.{
  Mgr, Heap, make_ready, handle_chunk, add_query, make_chunk, fill_ready, send_first, send_ready,
  dispatch,
}

-- How often a number is in the queue.
unfoldable pub occurrences : ℕ → List ℕ → ℕ
occurrences k [] = 0
occurrences k (j ∷ js) = (if k == j then 1 else 0) + occurrences k js

-- What befalls a manager: a new stream, whose first chunk is still to be made, the sending of ready
-- chunks to the starter, and the return of a chunk of the same stream as was sent to a worker, with
-- a state that this worker leaves.
pub data Step (heap : Heap) : Mgr → Mgr → Type 0 where
  asks :
      {m m' : Mgr} (k : ℕ)
      → occurrences k m.pq ≡ 0
      → (m.streams k).next < (m.streams k).n0
      → m' ≡ add_query heap k m
      → Step heap m m'
  sends : {m m' : Mgr} (fuel : ℕ) → m' ≡ dispatch heap fuel m → Step heap m m'
  starter_returns :
      {m m' : Mgr} (before after : List Chunk) (sent c : Chunk) (now : Time)
      → m.start ≡ before ++ sent ∷ after
      → c.stream ≡ sent.stream
      → (c.state ≡ starting) ⊎ (c.state ≡ started)
      → handle_chunk now c (record m { start = before ++ after }) ≡ some m'
      → Step heap m m'
  poller_returns :
      {m m' : Mgr} (before after : List Chunk) (sent c : Chunk) (now : Time)
      → m.poll ≡ before ++ sent ∷ after
      → c.stream ≡ sent.stream
      → (c.state ≡ polling) ⊎ (c.state ≡ complete)
      → handle_chunk now c (record m { poll = before ++ after }) ≡ some m'
      → Step heap m m'
  stopper_returns :
      {m m' : Mgr} (before after : List Chunk) (sent c : Chunk) (now : Time)
      → m.stop ≡ before ++ sent ∷ after
      → c.stream ≡ sent.stream
      → (c.state ≡ stopping) ⊎ (c.state ≡ stopped)
      → handle_chunk now c (record m { stop = before ++ after }) ≡ some m'
      → Step heap m m'

module _ (heap : Heap) (limit : ℕ) where
  -- The queue and the ready chunks may change, and nothing else that counts.
  unfoldable pub Refilled : Mgr → Mgr → Type 0
  Refilled m m' = IsSound limit m' × (in_flight m' ≡ in_flight m) × (m'.parallel ≡ m.parallel)

  pub make_chunk-Refilled :
      (k : ℕ) (rest : List ℕ) (m : Mgr) → IsSound limit m → Refilled m (make_chunk heap k rest m)
  unfolding Refilled make_chunk make_ready
  make_chunk-Refilled k rest m h =
      let s = m.streams k in
      ground (
        arith,
        length-append m.ready (first_chunk k s.next (next_chunk_range s) s.spec.preview ∷ []),
      )

  pub fill_ready-Refilled :
      (fuel : ℕ) (m : Mgr) → IsSound limit m → Refilled m (fill_ready heap fuel m)
  unfolding Refilled fill_ready
  fill_ready-Refilled zero m h = (h, refl, refl)
  fill_ready-Refilled (suc fuel) m h = elim (Option-cases (heap.pop m.streams m.pq)) [
    | inl p ↦ ground (arith, p)
    | inr ((k, rest), p) ↦
        let ih = fill_ready-Refilled fuel (record m { pq = rest }) (ground (arith, h)) in
        let made = make_chunk-Refilled k rest m h in ground (arith, p, ih, made)
  ]

  send_first-IsSound :
      (cs : List Chunk) (m : Mgr)
      → IsSound limit m
      → cs ≡ m.ready
      → in_flight m < limit
      → IsSound limit (send_first heap cs m)
  send_first-IsSound [] m h e lt = h
  send_first-IsSound (c ∷ cs) m h e lt =
      ground (arith, length-append m.start (record c { state = starting } ∷ []))

  pub whole_limit : (a : Adapter) → Within one (limit * one) a → whole a ≤ limit
  unfolding whole
  whole_limit a h = ground (arith, Within-value one (limit * one) a h)

  pub send_ready-IsSound :
      (m : Mgr) → IsSound limit m → in_flight m < limit → IsSound limit (send_ready heap m)
  unfolding send_ready Refilled
  send_ready-IsSound m h lt =
      let (sound, same, _) = fill_ready-Refilled (length m.pq) m h in
      send_first-IsSound _ (fill_ready heap (length m.pq) m) sound refl (omega (arith, same))

  dispatch-IsSound : (fuel : ℕ) (m : Mgr) → IsSound limit m → IsSound limit (dispatch heap fuel m)
  unfolding dispatch
  dispatch-IsSound zero m h = h
  dispatch-IsSound (suc fuel) m h = ground (
    arith,
    whole_limit m.parallel h.parallel,
    send_ready-IsSound m h,
    dispatch-IsSound fuel (send_ready heap m),
  )

  -- Whatever befalls a manager, its counters count the ready chunks and those with each worker, its
  -- parallelism stays between one and Config.Parallel, and there are never more chunks with the
  -- workers together than Config.Parallel, so that no send to a worker has to wait.
  pub Step-IsSound : {m m' : Mgr} → Step heap m m' → IsSound limit m → IsSound limit m'
  unfolding add_query
  Step-IsSound {m} (asks k _ _ e) h = subst (IsSound limit) (sym e) (ground (arith, h))
  Step-IsSound {m} (sends fuel e) h = subst (IsSound limit) (sym e) (dispatch-IsSound fuel m h)
  Step-IsSound {m} {m'} (starter_returns before after sent c now e _ s r) h =
      starter_return-IsSound limit now before after sent c m m' h e s r
  Step-IsSound {m} {m'} (poller_returns before after sent c now e _ s r) h =
      poller_return-IsSound limit now before after sent c m m' h e s r
  Step-IsSound {m} {m'} (stopper_returns before after sent c now e _ s r) h =
      stopper_return-IsSound limit now before after sent c m m' h e s r
