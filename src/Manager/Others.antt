-- ===== src/Manager/Others.antt =====
-- What the handlers and the inner loop of the manager leave of a stream (mgr.go).
use incite.Base.{
  ℕ, zero, suc, ◌-◌, ◌≤◌, ◌≡◌, refl, sym, ap, subst, ◌∙◌, inl, inr, ◌⊎◌, false, Bool-cases, Option,
  Option-cases, none, some, List, [], ◌∷◌, ◌++◌, arith, ◌==◌, ==_iff, length,
}
use incite.Clock.{Time}
use incite.Errors.{Error, reduce_parallel, restart_chunk, split_chunk, stop_chunk}
use incite.Stream.{Stream}
use incite.Chunk.{Chunk, mark_started, add_started, add_failed, stopping, stopped}
use incite.Manager.{
  Mgr, Heap, Streams, put, kill_stream, make_ready, stop_chunk_of, split_chunk_of, starting_error,
  polling_error, handle_starting_error, handle_polling_error, handle_chunk_started,
  handle_chunk_completion, handle_chunk, add_query, make_chunk, fill_ready, send_first, send_ready,
  dispatch,
}
use incite.Manager.Counts.{Step, asks, sends, starter_returns, poller_returns, stopper_returns}
use incite.Manager.Account.{count, left, own, count-remove}
use incite.Manager.Consistency.{IsConsistent}
use incite.Manager.Final.{split-away}

-- What the dispatch keeps of a stream.
pub record IsSteadyStream (s s' : Stream) : Type 0 where
  pub n0 : s'.n0 ≡ s.n0
  pub m : s'.m ≡ s.m
  pub n : s'.n ≡ s.n
  pub err : s'.err ≡ s.err

IsSteadyStream-refl : (s : Stream) → IsSteadyStream s s
IsSteadyStream-refl s = record { n0 = refl; m = refl; n = refl; err = refl }

stopped-streams :
    (now : Time) (c : Chunk) (m m' : Mgr)
    → (c.state ≡ stopping) ⊎ (c.state ≡ stopped)
    → handle_chunk now c m ≡ some m'
    → m'.streams ≡ m.streams
unfolding handle_chunk
stopped-streams now c m m' (inl e) r = ground (arith, e, r)
stopped-streams now c m m' (inr e) r = ground (arith, e, r)

module _ (k : ℕ) where
  completion-away :
      (c : Chunk) (m : Mgr)
      → (k == c.stream) ≡ false
      → (handle_chunk_completion c m).streams k ≡ m.streams k
  unfolding handle_chunk_completion kill_stream put
  completion-away c m h = ground (arith, h)

  starting_error-away :
      (now : Time) (e : Option Error) (c : Chunk) (m : Mgr)
      → (k == c.stream) ≡ false
      → (starting_error now e c m).streams k ≡ m.streams k
  unfolding make_ready kill_stream put mark_started add_started add_failed
  starting_error-away now (some reduce_parallel) c m h = refl
  starting_error-away now _ c m h = ground (arith, h)

  polling_error-away :
      (e : Option Error) (c : Chunk) (m : Mgr)
      → (k == c.stream) ≡ false
      → (polling_error e c m).streams k ≡ m.streams k
  unfolding make_ready stop_chunk_of kill_stream put add_failed
  polling_error-away (some restart_chunk) c m h = refl
  polling_error-away (some split_chunk) c m h =
      completion-away (record c { err = none }) (split_chunk_of c m) h ∙ split-away k c m h
  polling_error-away (some stop_chunk) c m h = refl
  polling_error-away _ c m h = ground (arith, h)

  handle_chunk-away :
      (now : Time) (c : Chunk) (m m' : Mgr)
      → (k == c.stream) ≡ false
      → handle_chunk now c m ≡ some m'
      → m'.streams k ≡ m.streams k
  unfolding handle_chunk handle_starting_error handle_polling_error handle_chunk_started
  handle_chunk-away now c m m' h r =
      let m1 = record m { num_starting = m.num_starting - 1 } in
      let m2 = record m { num_polling = m.num_polling - 1 } in
      ground (
        arith,
        r,
        starting_error-away now c.err c m1 h,
        polling_error-away c.err c m2 h,
        completion-away c m2 h,
      )

  -- A stream that has no chunk gets none.
  unfoldable pub Unmade : Mgr → Type 0
  Unmade m = ((m.streams k).n ≡ 0) × ((m.streams k).n0 ≡ 0)

  module _ (heap : Heap) where
    fill_ready-steady :
        (fuel : ℕ) (m : Mgr) → IsSteadyStream (m.streams k) ((fill_ready heap fuel m).streams k)
    unfolding fill_ready make_chunk make_ready put
    fill_ready-steady zero m = IsSteadyStream-refl (m.streams k)
    fill_ready-steady (suc fuel) m = elim (Option-cases (heap.pop m.streams m.pq)) [
      | inl p ↦ ground (arith, p)
      | inr ((j, rest), p) ↦
          ground (arith, p, ==_iff k j, fill_ready-steady fuel (record m { pq = rest }))
    ]

    send_first-steady :
        (cs : List Chunk) (m : Mgr)
        → IsSteadyStream (m.streams k) ((send_first heap cs m).streams k)
    send_first-steady [] m = IsSteadyStream-refl (m.streams k)
    send_first-steady (c ∷ cs) m = IsSteadyStream-refl (m.streams k)

    pub dispatch-steady :
        (fuel : ℕ) (m : Mgr) → IsSteadyStream (m.streams k) ((dispatch heap fuel m).streams k)
    unfolding dispatch send_ready
    dispatch-steady zero m = IsSteadyStream-refl (m.streams k)
    dispatch-steady (suc fuel) m =
        let m1 = fill_ready heap (length m.pq) m in
        let filled = fill_ready-steady (length m.pq) m in
        let sent = send_first-steady m1.ready m1 in
        let rest = dispatch-steady fuel (send_ready heap m) in ground (arith, filled, sent, rest)

    returned-Unmade :
        (now : Time) (before after : List Chunk) (sent c : Chunk) (m m1 m' : Mgr)
        (with_worker : List Chunk)
        → IsConsistent k m
        → Unmade m
        → count k with_worker ≤ left k m
        → with_worker ≡ before ++ sent ∷ after
        → c.stream ≡ sent.stream
        → m1.streams ≡ m.streams
        → handle_chunk now c m1 ≡ some m'
        → Unmade m'
    unfolding Unmade own
    returned-Unmade now before after sent c m m1 m' with_worker i u less e same s r =
        elim (Bool-cases (k == c.stream)) [
          | inl mine ↦ absurd (
              ground (
                arith,
                u,
                less,
                mine,
                i.accounted,
                ap (count k) e,
                count-remove k before after sent c same,
              ))
          | inr other ↦
              let kept = handle_chunk-away now c m1 m' other r ∙ ap (λ (f : Streams). f k) s in
              (ap (λ (t : Stream). t.n) kept ∙ u.0, ap (λ (t : Stream). t.n0) kept ∙ u.1)
        ]

    pub Step-Unmade : {m m' : Mgr} → Step heap m m' → IsConsistent k m → Unmade m → Unmade m'
    unfolding Unmade add_query left
    Step-Unmade {m} (asks j _ _ e) i u = subst Unmade (sym e) (unfold Unmade in u)
    Step-Unmade {m} (sends fuel e) i u =
        let kept = dispatch-steady fuel m in
        subst Unmade (sym e) (unfold Unmade in (kept.n ∙ u.0, kept.n0 ∙ u.1))
    Step-Unmade {m} {m'} (starter_returns before after sent c now e same _ r) i u =
        returned-Unmade now before after sent c m (record m { start = before ++ after }) m' m.start
          i u (unfold left in omega arith) e same refl r
    Step-Unmade {m} {m'} (poller_returns before after sent c now e same _ r) i u =
        returned-Unmade now before after sent c m (record m { poll = before ++ after }) m' m.poll i
          u (unfold left in omega arith) e same refl r
    Step-Unmade {m} {m'} (stopper_returns before after sent c now e same s r) i u =
        let kept = stopped-streams now c (record m { stop = before ++ after }) m' s r in
        subst (λ (f : Streams). ((f k).n ≡ 0) × ((f k).n0 ≡ 0)) (sym kept) u
