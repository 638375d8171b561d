-- ===== src/Manager/Consistency.antt =====
-- The chunks of a stream and the queue of streams are consistent, whatever befalls the manager
-- (mgr.go).
use incite.Base.{
  ℕ, zero, suc, ◌+◌, ◌-◌, ◌≤◌, ◌<◌, ◌≡◌, refl, sym, ap, subst, false, Option, Option-cases, none,
  some, List, [], ◌∷◌, ◌++◌, arith, ◌==◌, ==_iff, length, if◌then◌else◌, inl, inr, ◌≢◌, ◌∙◌,
}
use incite.Clock.{Time}
use incite.Errors.{
  Error, eof, reduce_parallel, restart_chunk, split_chunk, stop_chunk, unexpected_query,
}
use incite.Stream.{Stream, set_err, next_chunk_range, is_closed}
use incite.Chunk.{Chunk, starting, first_chunk, complete, mark_started, add_failed}
use incite.Manager.{
  Mgr, Heap, put, kill_stream, stop_chunk_of, split_chunk_of, starting_error, polling_error,
  handle_starting_error, handle_polling_error, handle_chunk_started, make_ready,
  handle_chunk_completion, handle_chunk, add_query, make_chunk, fill_ready, send_first, send_ready,
  dispatch,
}
use incite.Manager.Counts.{
  occurrences, Step, asks, sends, starter_returns, poller_returns, stopper_returns,
}
use incite.Manager.Account.{
  count, count-append, left, IsAccounted, HasRoom, own, count-remove, handle_chunk-IsAccounted,
}

-- What is known of container/heap: a push adds a stream to the queue, and a pop takes one out.
pub record IsHeap (heap : Heap) : Type 0 where
  pub pushed :
      (streams : ℕ → Stream) (j k : ℕ) (ks : List ℕ)
      → occurrences j (heap.push streams k ks) ≡ (if j == k then 1 else 0) + occurrences j ks
  pub popped :
      (streams : ℕ → Stream) (j k : ℕ) (ks rest : List ℕ)
      → heap.pop streams ks ≡ some (k, rest)
      → occurrences j ks ≡ (if j == k then 1 else 0) + occurrences j rest

-- A stream is in the queue at most once, and then has a chunk that is still to be made.
pub record IsConsistent (k : ℕ) (m : Mgr) : Type 0 where
  pub accounted : IsAccounted k m
  pub once : occurrences k m.pq ≤ 1
  pub unfinished : 0 < occurrences k m.pq → (m.streams k).next < (m.streams k).n0

module _ (heap : Heap) (h : IsHeap heap) (k : ℕ) where
  make_chunk-IsConsistent :
      (j : ℕ) (rest : List ℕ) (m : Mgr)
      → IsConsistent k m
      → heap.pop m.streams m.pq ≡ some (j, rest)
      → IsConsistent k (make_chunk heap j rest m)
  unfolding make_chunk make_ready put left count first_chunk
  make_chunk-IsConsistent j rest m c p =
      let s = m.streams j in
      let s' = record s { next = s.next + 1 } in
      let made = first_chunk j s.next (next_chunk_range s) s.spec.preview in
      ground (
        arith,
        c,
        ==_iff k j,
        h.popped m.streams k j m.pq rest p,
        h.pushed (put j s' m.streams) k j rest,
        count-append k m.ready (made ∷ []),
      )

  fill_ready-IsConsistent :
      (fuel : ℕ) (m : Mgr) → IsConsistent k m → IsConsistent k (fill_ready heap fuel m)
  unfolding fill_ready left
  fill_ready-IsConsistent zero m c = c
  fill_ready-IsConsistent (suc fuel) m c = elim (Option-cases (heap.pop m.streams m.pq)) [
    | inl p ↦ ground (arith, p)
    | inr ((j, rest), p) ↦
        let popped = h.popped m.streams k j m.pq rest p in
        let dropped : IsConsistent k (record m { pq = rest }) = ground (arith, c, popped) in
        let ih = fill_ready-IsConsistent fuel (record m { pq = rest }) dropped in
        ground (arith, p, ih, make_chunk-IsConsistent j rest m c p)
  ]

  send_first-IsConsistent :
      (cs : List Chunk) (m : Mgr)
      → cs ≡ m.ready
      → IsConsistent k m
      → IsConsistent k (send_first heap cs m)
  unfolding left count
  send_first-IsConsistent [] m e c = c
  send_first-IsConsistent (x ∷ cs) m e c =
      ground (arith, c, ap (count k) e, count-append k m.start (record x { state = starting } ∷ []))

  dispatch-IsConsistent :
      (fuel : ℕ) (m : Mgr) → IsConsistent k m → IsConsistent k (dispatch heap fuel m)
  unfolding dispatch send_ready
  dispatch-IsConsistent zero m c = c
  dispatch-IsConsistent (suc fuel) m c =
      let m1 = fill_ready heap (length m.pq) m in
      let filled = fill_ready-IsConsistent (length m.pq) m c in
      let sent = send_first-IsConsistent m1.ready m1 refl filled in
      ground (arith, dispatch-IsConsistent fuel (send_ready heap m) sent)

  -- The handlers leave the queue, and what a stream has of chunks still to be made.
  Kept : Mgr → Mgr → Type 0
  Kept m m' =
      (m'.pq ≡ m.pq)
      × ((m'.streams k).next ≡ (m.streams k).next)
      × ((m'.streams k).n0 ≡ (m.streams k).n0)

  kill_stream-Kept : (c : Chunk) (m : Mgr) → Kept m (kill_stream c m)
  unfolding Kept kill_stream put set_err
  kill_stream-Kept c m = ground (arith, ==_iff k c.stream)

  handle_chunk_completion-Kept : (c : Chunk) (m : Mgr) → Kept m (handle_chunk_completion c m)
  unfolding Kept handle_chunk_completion kill_stream put set_err
  handle_chunk_completion-Kept c m = ground (arith, ==_iff k c.stream)

  split_chunk_of-Kept : (c : Chunk) (m : Mgr) → Kept m (split_chunk_of c m)
  unfolding Kept split_chunk_of put
  split_chunk_of-Kept c m = ground (arith, ==_iff k c.stream)

  starting_error-Kept :
      (now : Time) (e : Option Error) (c : Chunk) (m : Mgr) → Kept m (starting_error now e c m)
  unfolding Kept make_ready
  starting_error-Kept now (some reduce_parallel) c m = (refl, refl, refl)
  starting_error-Kept now _ c m = kill_stream-Kept (mark_started c) m

  polling_error-Kept : (e : Option Error) (c : Chunk) (m : Mgr) → Kept m (polling_error e c m)
  unfolding Kept make_ready stop_chunk_of
  polling_error-Kept (some restart_chunk) c m = (refl, refl, refl)
  polling_error-Kept (some split_chunk) c m = ground (
    arith,
    handle_chunk_completion-Kept (record c { err = none }) (split_chunk_of c m),
    split_chunk_of-Kept c m,
  )
  polling_error-Kept (some stop_chunk) c m = (refl, refl, refl)
  polling_error-Kept (some (unexpected_query query_id text cause)) c m =
      kill_stream-Kept (add_failed c) (stop_chunk_of (add_failed c) m)
  polling_error-Kept _ c m = kill_stream-Kept (add_failed c) m

  handle_chunk-Kept :
      (now : Time) (c : Chunk) (m m' : Mgr) → handle_chunk now c m ≡ some m' → Kept m m'
  unfolding Kept handle_chunk handle_starting_error handle_polling_error handle_chunk_started
  handle_chunk-Kept now c m m' r =
      let m1 = record m { num_starting = m.num_starting - 1 } in
      let m2 = record m { num_polling = m.num_polling - 1 } in
      ground (
        arith,
        starting_error-Kept now c.err c m1,
        polling_error-Kept c.err c m2,
        handle_chunk_completion-Kept c m2,
      )

  handle_chunk-IsConsistent :
      (now : Time) (c : Chunk) (m m1 m' : Mgr)
      → IsConsistent k m
      → m1.pq ≡ m.pq
      → m1.streams ≡ m.streams
      → HasRoom k c m1
      → handle_chunk now c m1 ≡ some m'
      → IsConsistent k m'
  unfolding Kept
  handle_chunk-IsConsistent now c m m1 m' i p q room r =
      let (pq, next, n0) = handle_chunk-Kept now c m1 m' r in
      let next' = ap (λ (streams : ℕ → Stream). (streams k).next) q in
      let n0' = ap (λ (streams : ℕ → Stream). (streams k).n0) q in
      record {
        accounted = handle_chunk-IsAccounted k now c m1 m' room r;
        once = subst (λ ks. occurrences k ks ≤ 1) (sym (pq ∙ p)) i.once;
        unfinished = λ o. omega (
          arith,
          i.unfinished (subst (λ ks. 0 < occurrences k ks) (pq ∙ p) o),
          next,
          n0,
          next',
          n0',
        );
      }

  -- Whatever befalls a manager, the chunks of a stream that have completed and those that are left
  -- are together no more than the stream counts, and a stream in the queue is there once and has a
  -- chunk that is still to be made.
  pub Step-IsConsistent : {m m' : Mgr} → Step heap m m' → IsConsistent k m → IsConsistent k m'
  unfolding add_query left HasRoom handle_chunk
  Step-IsConsistent {m} (asks j fresh more e) i =
      subst (IsConsistent k) (sym e)
        (ground (arith, i, ==_iff k j, h.pushed m.streams k j m.pq, fresh, more))
  Step-IsConsistent {m} (sends fuel e) i =
      subst (IsConsistent k) (sym e) (dispatch-IsConsistent fuel m i)
  Step-IsConsistent {m} {m'} (starter_returns before after sent c now e same s r) i =
      handle_chunk-IsConsistent now c m (record m { start = before ++ after }) m' i refl refl
        (omega (arith, i.accounted, ap (count k) e, count-remove k before after sent c same)) r
  Step-IsConsistent {m} {m'} (poller_returns before after sent c now e same s r) i =
      handle_chunk-IsConsistent now c m (record m { poll = before ++ after }) m' i refl refl
        (omega (arith, i.accounted, ap (count k) e, count-remove k before after sent c same)) r
  Step-IsConsistent {m} {m'} (stopper_returns before after sent c now e same s r) i = elim s [
    | inl p ↦ ground (arith, p, r, i)
    | inr p ↦ ground (arith, p, r, i)
  ]

completion-left :
    (c : Chunk) (m : Mgr)
    → HasRoom c.stream c m
    → is_closed (m.streams c.stream).err ≡ false
    → c.err ≢ some eof
    → ((handle_chunk_completion c m).streams c.stream).err ≡ some eof
    → left c.stream (handle_chunk_completion c m) ≡ 0
unfolding handle_chunk_completion kill_stream put set_err left HasRoom own
completion-left c m room alive other h = ground (arith, room, alive, other, h)

-- When a chunk completes and its stream, which is not closed, gets io.EOF, then no chunk of the
-- stream is left: none is ready, none is with the starter or the poller, and none is still to be
-- made.
pub handle_chunk-eof :
    (now : Time) (before after : List Chunk) (sent c : Chunk) (m m' : Mgr)
    → IsConsistent c.stream m
    → m.poll ≡ before ++ sent ∷ after
    → c.stream ≡ sent.stream
    → c.state ≡ complete
    → c.err ≡ none
    → is_closed (m.streams c.stream).err ≡ false
    → handle_chunk now c (record m { poll = before ++ after }) ≡ some m'
    → (m'.streams c.stream).err ≡ some eof
    → left c.stream m' ≡ 0
unfolding handle_chunk left HasRoom
handle_chunk-eof now before after sent c m m' i e same p q alive r h =
    let m1 = record m { poll = before ++ after; num_polling = m.num_polling - 1 } in
    let removed = count-remove c.stream before after sent c same in
    let room : HasRoom c.stream c m1 = omega (arith, i.accounted, ap (count c.stream) e, removed) in
    let last = completion-left c m1 room alive (λ x. ground (arith, q, x)) in
    ground (arith, p, r, h, last)
