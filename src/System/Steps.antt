-- ===== src/System/Steps.antt =====
-- Every event keeps the manager sound and in agreement with its workers (mgr.go, worker.go).
use incite.Base.{
  ℕ, ◌+◌, ◌≡◌, refl, subst, inl, inr, false, Option, none, some, List, [], ◌∷◌, arith, Text, ltb,
  Bool-cases,
}
use incite.Clock.{Time}
use incite.Errors.{Result, ok, err}
use incite.Query.{query}
use incite.Stream.{Stream, read, close}
use incite.Adapter.{whole}
use incite.Chunk.{Chunk}
use incite.Manager.{Mgr, Heap, put, handle_chunk, add_query}
use incite.Manager.Sound.{IsSound}
use incite.Manager.Counts.{sends, Step-IsSound}
use incite.System.{
  System, Event, client_queries, client_reads, client_closes, mgr_receives, starter_works,
  poller_works, stopper_works, Next, mgr_panicked, starter_panicked, poller_panicked,
  stopper_panicked, next, take_back, deliver, dispatched, asked, ask, handled, receive_first,
  change_stream, step, run, and_then,
}
use incite.System.Sends.{Sends, SendsIf, handle_chunk-SendsIf, nothing_sent}
use incite.System.Rounds.{starter_work-WorkedIn, poller_work-WorkedIn, stopper_work-WorkedIn}
use incite.System.Panics.{starter_work-ne-failed, poller_work-ne-failed}
use incite.System.Coherence.{
  IsCoherent, dispatched-IsCoherent, Returned, state-Returned, state-Step,
}
use incite.System.Rests.{
  HoldsAt, Holds, streams-IsSound, streams-IsCoherent, starter_worked-Holds, poller_worked-Holds,
  stopper_worked-Holds,
}

module _ (limit : ℕ) (heap : Heap) where
  dispatched-HoldsAt :
      (m m' : Mgr) (s : System)
      → IsCoherent (record s { mgr = m })
      → Sends m m'
      → IsSound limit m'
      → HoldsAt limit (dispatched heap m m' s)
  dispatched-HoldsAt m m' s h k sound = (
    unfold dispatched deliver in Step-IsSound heap limit (sends (whole m'.parallel) refl) sound,
    dispatched-IsCoherent heap m m' s h k,
  )

  handled-Holds :
      (m : Mgr) (s : System) (r : Option Mgr)
      → IsCoherent (record s { mgr = m })
      → SendsIf m r
      → ((m' : Mgr) → r ≡ some m' → IsSound limit m')
      → Holds limit (handled heap m s r)
  handled-Holds m s none h k sound = k
  handled-Holds m s (some m') h k sound = dispatched-HoldsAt m m' s h k (sound m' refl)

  received-Holds :
      (now : Time) (update : List Chunk) (s : System)
      → s.update ≡ update
      → HoldsAt limit s
      → Holds limit (receive_first heap now update s)
  unfolding take_back Returned
  received-Holds now [] s e h = h
  received-Holds now (c ∷ cs) s e (sound, h) =
      let h' : IsCoherent (record s { update = c ∷ cs }) =
        subst (λ update. IsCoherent (record s { update = update })) e h in
      let (back, expected, fine) = state-Returned c cs s h' c.state refl in
      handled-Holds (take_back c s.mgr) (record s { update = cs })
        (handle_chunk now c (take_back c s.mgr)) back
        (handle_chunk-SendsIf now c (take_back c s.mgr) c.state refl expected fine back.clear)
        (λ m' r. Step-IsSound heap limit (state-Step c cs s h' heap now m' c.state refl r) sound)

  added-IsSound : (k : ℕ) (m : Mgr) → IsSound limit m → IsSound limit (add_query heap k m)
  unfolding add_query
  added-IsSound k m h = ground arith

  asked-HoldsAt :
      (r : Result Stream) (s : System) → HoldsAt limit s → HoldsAt limit (asked heap r s)
  asked-HoldsAt (err e) s h = h
  asked-HoldsAt (ok stream) s (sound, h) =
      let streams = put s.num_streams stream s.mgr.streams in
      let m : Mgr = record (s.mgr) { streams = streams } in
      dispatched-HoldsAt m (add_query heap s.num_streams m)
        (record s { num_streams = s.num_streams + 1 })
        (streams-IsCoherent limit streams (s.num_streams + 1) s h)
        (unfold add_query in nothing_sent m m.ready h.clear)
        (added-IsSound s.num_streams m (streams-IsSound limit streams s.mgr sound))

  changed-HoldsAt :
      (k : ℕ) (change : Stream → Stream) (s : System)
      → HoldsAt limit s
      → HoldsAt limit (change_stream k change s)
  changed-HoldsAt k change s (sound, h) = elim (Bool-cases (ltb k s.num_streams)) [
    | inl e ↦
        rw e (streams-IsSound limit _ s.mgr sound, streams-IsCoherent limit _ s.num_streams s h)
    | inr e ↦ rw e (sound, h)
  ]

  -- Whatever happens while the manager is open, it stays sound and agrees with its workers.
  pub step-Holds :
      (order : List Text → List Text) (failed_text : Text) (e : Event) (s : System)
      → HoldsAt limit s
      → Holds limit (step heap order failed_text e s)
  unfolding step
  step-Holds order failed_text (client_queries q) s h =
      unfold ask in asked-HoldsAt (query false q) s h
  step-Holds order failed_text (client_reads k room) s h =
      changed-HoldsAt k (λ stream. (read stream room).0) s h
  step-Holds order failed_text (client_closes k) s h =
      changed-HoldsAt k (λ stream. (close stream).0) s h
  step-Holds order failed_text (mgr_receives now) s h = received-Holds now s.update s refl h
  step-Holds order failed_text (starter_works at reply) s h =
      starter_worked-Holds limit s _ h
        (starter_work-WorkedIn at s.mgr.streams s.mgr.start s.starter s.start s.update reply
          h.1.starter)
        (starter_work-ne-failed at s.mgr.streams s.starter s.start reply)
  step-Holds order failed_text (poller_works at reply) s h =
      poller_worked-Holds limit s _ h
        (poller_work-WorkedIn at s.mgr.streams s.mgr.poll s.poller s.poll s.update order failed_text
          reply h.1.poller)
        (poller_work-ne-failed order failed_text at s.mgr.streams s.poller s.poll reply)
  step-Holds order failed_text (stopper_works at reply) s h = stopper_worked-Holds limit s _ h (
      stopper_work-WorkedIn at s.mgr.streams s.mgr.stop s.stopper s.stop s.update reply h.1.stopper)

  and_then-Holds :
      (rest : System → Next) (r : Next)
      → ((s : System) → HoldsAt limit s → Holds limit (rest s))
      → Holds limit r
      → Holds limit (and_then rest r)
  and_then-Holds rest mgr_panicked all h = h
  and_then-Holds rest starter_panicked all h = h
  and_then-Holds rest poller_panicked all h = h
  and_then-Holds rest stopper_panicked all h = h
  and_then-Holds rest (next s) all h = all s h

  pub run-Holds :
      (order : List Text → List Text) (failed_text : Text) (es : List Event) (s : System)
      → HoldsAt limit s
      → Holds limit (run heap order failed_text es s)
  unfolding run
  run-Holds order failed_text [] s h = h
  run-Holds order failed_text (e ∷ es) s h =
      and_then-Holds (run heap order failed_text es) (step heap order failed_text e s)
        (run-Holds order failed_text es) (step-Holds order failed_text e s h)
