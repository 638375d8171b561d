-- ===== src/System/Sends.antt =====
-- What the manager sends to its workers (mgr.go).
use incite.Base.{
  ℕ, zero, suc, ◌+◌, ◌-◌, ◌≡◌, ◌≢◌, refl, sym, ap, subst, ◌∙◌, Bool, true, false, Option, none,
  some, codes, if◌then◌else◌, List, [], ◌∷◌, ◌++◌, append-nil, append_assoc, ltb,
}
use incite.Clock.{Time, Duration}
use incite.Errors.{Error, reduce_parallel, restart_chunk, split_chunk, stop_chunk, unexpected_query}
use incite.Chunk.{
  Chunk, ChunkState, split, split_from, split_children, split_frac, duration, created, starting,
  started, polling, complete, stopping, stopped, add_failed,
}
use incite.Worker.States.{Test, AllIn, AllIn-append}
use incite.Manager.{
  Mgr, make_ready, kill_stream, stop_chunk_of, starting_error, handle_starting_error,
  handle_chunk_started, split_chunk_of, handle_chunk_completion, polling_error,
  handle_polling_error, handle_chunk,
}
use incite.Manager.Final.{mark_started-err}
use incite.System.Served.{Extends}
use incite.System.Ends.{not_eof}
use incite.System.Kinds.{is_clear, is_starting, is_polling, is_stopping}

pub Extends-refl : (p : Test) (xs : List Chunk) → Extends p xs xs
Extends-refl p xs = ([], sym (append-nil xs), tt)

Extends-trans :
    (p : Test) (xs ys zs : List Chunk) → Extends p xs ys → Extends p ys zs → Extends p xs zs
Extends-trans p xs ys zs (new, e, h) (more, d, k) = (
  new ++ more,
  d ∙ ap (λ (us : List Chunk). us ++ more) e ∙ append_assoc xs new more,
  AllIn-append p new more h k,
)

-- The ready chunks do not have the error io.EOF.
abbrev pub IsClear : Mgr → Type 0
IsClear m = AllIn is_clear m.ready

-- The manager sends chunks that are starting to the starter, ones that are polling to the poller, and
-- ones that are stopping to the stopper, none with the error io.EOF.
abbrev pub Sends : Mgr → Mgr → Type 0
Sends m m' =
    Extends is_starting m.start m'.start
    × Extends is_polling m.poll m'.poll
    × Extends is_stopping m.stop m'.stop
    × IsClear m'

pub Sends-trans : (m m' m'' : Mgr) → Sends m m' → Sends m' m'' → Sends m m''
Sends-trans m m' m'' h k = (
  Extends-trans is_starting m.start m'.start m''.start h.0 k.0,
  Extends-trans is_polling m.poll m'.poll m''.poll h.1 k.1,
  Extends-trans is_stopping m.stop m'.stop m''.stop h.2 k.2,
  k.3,
)

pub nothing_sent :
    (m : Mgr) (ready : List Chunk) → AllIn is_clear ready → Sends m (record m { ready = ready })
nothing_sent m ready h = (
  Extends-refl is_starting m.start,
  Extends-refl is_polling m.poll,
  Extends-refl is_stopping m.stop,
  h,
)

ready_too : (c : Chunk) (m : Mgr) → not_eof c.err ≡ true → IsClear m → IsClear (make_ready c m)
unfolding make_ready
ready_too c m e h = AllIn-append is_clear m.ready (c ∷ []) h (e, tt)

split_from-clear :
    (fuel n : ℕ) (c : Chunk) (frac : Duration) (start : Time)
    → AllIn is_clear (split_from fuel c frac start n)
unfolding split_from split
split_from-clear zero n c frac start = tt
split_from-clear (suc fuel) n c frac start =
    let child = split c start frac n in
    (refl, cut (ltb child.end c.end) _ (split_from-clear fuel (n + 1) c frac child.end))
  where
    cut :
        (more : Bool) (rest : List Chunk)
        → AllIn is_clear rest
        → AllIn is_clear (if more then rest else [])
    cut true rest h = h
    cut false rest h = tt

split_ready : (c : Chunk) (m : Mgr) → IsClear m → IsClear (split_chunk_of c m)
unfolding split_chunk_of split_children
split_ready c m h =
    let u = (m.streams c.stream).spec.split_until in
    AllIn-append is_clear m.ready (split_children c u) h
      (split_from-clear (suc (c.end - c.start)) 0 c (split_frac (duration c) u) c.start)

stop_chunk_of-Sends :
    (c : Chunk) (m : Mgr) → not_eof c.err ≡ true → IsClear m → Sends m (stop_chunk_of c m)
unfolding stop_chunk_of
stop_chunk_of-Sends c m e h =
    (Extends-refl is_starting m.start, Extends-refl is_polling m.poll, (_, refl, (e, tt)), h)

-- The handlers, for a chunk that does not have the error io.EOF.
starting_error-Sends :
    (now : Time) (e : Option Error) (c : Chunk) (m : Mgr)
    → not_eof c.err ≡ true
    → IsClear m
    → Sends m (starting_error now e c m)
unfolding kill_stream
starting_error-Sends now (some reduce_parallel) c m k h =
    unfold make_ready in nothing_sent m (m.ready ++ c ∷ []) (unfold make_ready in ready_too c m k h)
starting_error-Sends now _ c m k h = nothing_sent m m.ready h

polling_error-Sends :
    (e : Option Error) (c : Chunk) (m : Mgr)
    → not_eof c.err ≡ true
    → IsClear m
    → Sends m (polling_error e c m)
unfolding make_ready split_chunk_of handle_chunk_completion kill_stream
polling_error-Sends (some restart_chunk) c m k h =
    nothing_sent m _
      (ready_too (record c { chunk_id = c.chunk_id ++ codes "R"; err = none }) m refl h)
polling_error-Sends (some split_chunk) c m k h = nothing_sent m _ (split_ready c m h)
polling_error-Sends (some stop_chunk) c m k h = stop_chunk_of-Sends c m k h
polling_error-Sends (some (unexpected_query query_id text cause)) c m k h =
    stop_chunk_of-Sends (add_failed c) m (unfold add_failed in k) h
polling_error-Sends _ c m k h = nothing_sent m m.ready h

started-Sends :
    (now : Time) (c : Chunk) (m : Mgr)
    → not_eof c.err ≡ true
    → IsClear m
    → Sends m (handle_chunk_started now c m)
unfolding handle_chunk_started
started-Sends now c m k h = (
  Extends-refl is_starting m.start,
  (_, refl, (ap not_eof (mark_started-err c) ∙ k, tt)),
  Extends-refl is_stopping m.stop,
  h,
)

abbrev pub SendsIf : Mgr → Option Mgr → Type 0
SendsIf m none = ⊥
SendsIf m (some m') = Sends m m'

sends_if : (m m' : Mgr) (r : Option Mgr) → r ≡ some m' → Sends m m' → SendsIf m r
sends_if m m' r e h = subst (SendsIf m) (sym e) h

-- The manager handles a chunk that was sent to a worker.
pub handle_chunk-SendsIf :
    (now : Time) (c : Chunk) (m : Mgr) (s : ChunkState)
    → c.state ≡ s
    → s ≢ created
    → not_eof c.err ≡ true
    → IsClear m
    → SendsIf m (handle_chunk now c m)
unfolding handle_chunk
handle_chunk-SendsIf now c m created e n k h = absurd (n refl)
handle_chunk-SendsIf now c m starting e n k h =
    let m1 = record m { num_starting = m.num_starting - 1 } in
    sends_if m (handle_starting_error now c m1) _ (rw e refl)
      (unfold handle_starting_error in starting_error-Sends now c.err c m1 k h)
handle_chunk-SendsIf now c m started e n k h =
    let m1 = record m { num_starting = m.num_starting - 1; num_polling = m.num_polling + 1 } in
    sends_if m (handle_chunk_started now c m1) _ (rw e refl) (started-Sends now c m1 k h)
handle_chunk-SendsIf now c m polling e n k h =
    let m1 = record m { num_polling = m.num_polling - 1 } in
    sends_if m (handle_polling_error c m1) _ (rw e refl)
      (unfold handle_polling_error in polling_error-Sends c.err c m1 k h)
handle_chunk-SendsIf now c m complete e n k h =
    let m1 = record m { num_polling = m.num_polling - 1 } in
    sends_if m (handle_chunk_completion c m1) _ (rw e refl)
      (unfold handle_chunk_completion kill_stream in nothing_sent m m.ready h)
handle_chunk-SendsIf now c m stopping e n k h =
    sends_if m (record m { num_stopping = m.num_stopping - 1 }) _ (rw e refl)
      (nothing_sent m m.ready h)
handle_chunk-SendsIf now c m stopped e n k h =
    sends_if m (record m { num_stopping = m.num_stopping - 1 }) _ (rw e refl)
      (nothing_sent m m.ready h)
