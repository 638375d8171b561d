-- ===== src/System/Coherence.antt =====
-- The manager, its workers and their channels agree (mgr.go, worker.go).
use incite.Base.{
  Option, ◌∙◌, ◌≡◌, ◌≢◌, ap, subst, ◌⊎◌, inl, inr, true, false, some, List, ◌∷◌, arith,
}
use incite.Clock.{Time}
use incite.Adapter.{whole}
use incite.Errors.{Error}
use incite.Chunk.{
  Chunk, ChunkState, created, starting, started, polling, complete, stopping, stopped,
}
use incite.Worker.States.{Test, AllIn}
use incite.Manager.{Mgr, Heap, handle_chunk, dispatch}
use incite.Manager.Counts.{Step, starter_returns, poller_returns, stopper_returns}
use incite.System.{System, remove, take_from, deliver, dispatched}
use incite.System.Ends.{not_eof}
use incite.System.Served.{
  IsServed, sent-IsServed, received-found, received-IsServed, skipped-IsServed,
}
use incite.System.Kinds.{
  is_starting, is_polling, is_stopping, from_starter, from_poller, from_stopper,
}
use incite.System.Sends.{Sends, IsClear, Sends-trans}
use incite.System.Refills.{dispatch-Sends}

abbrev pub is_expected : Test
is_expected created e = false
is_expected _ e = not_eof e

-- Each worker has, or has sent back, the chunks that the manager says are with it, the chunks that
-- are on their way back have states that the manager expects, and neither they nor the ready ones
-- have the error io.EOF.
pub record IsCoherent (s : System) : Type 0 where
  pub starter : IsServed is_starting from_starter s.mgr.start s.starter s.start s.update
  pub poller : IsServed is_polling from_poller s.mgr.poll s.poller s.poll s.update
  pub stopper : IsServed is_stopping from_stopper s.mgr.stop s.stopper s.stop s.update
  pub expected : AllIn is_expected s.update
  pub clear : IsClear s.mgr

expected-not_eof : (s : ChunkState) (e : Option Error) → is_expected s e ≡ true → not_eof e ≡ true
expected-not_eof s e h = ground (arith, h)

deliver-IsCoherent :
    (m m' : Mgr) (s : System)
    → IsCoherent (record s { mgr = m })
    → Sends m m'
    → IsCoherent (deliver m m' s)
unfolding deliver
deliver-IsCoherent m m' s h (a, b, c, d) = record {
  starter =
      sent-IsServed is_starting from_starter s.starter s.start s.update m.start m'.start h.starter
        a;
  poller = sent-IsServed is_polling from_poller s.poller s.poll s.update m.poll m'.poll h.poller b;
  stopper =
      sent-IsServed is_stopping from_stopper s.stopper s.stop s.update m.stop m'.stop h.stopper c;
  expected = h.expected;
  clear = d;
}

module _ (heap : Heap) where
  pub dispatched-IsCoherent :
      (m m' : Mgr) (s : System)
      → IsCoherent (record s { mgr = m })
      → Sends m m'
      → IsCoherent (dispatched heap m m' s)
  unfolding dispatched
  dispatched-IsCoherent m m' s h k =
      let m'' = dispatch heap (whole m'.parallel) m' in
      deliver-IsCoherent m m'' s h
        (Sends-trans m m' m'' k (dispatch-Sends heap (whole m'.parallel) m' k.3))

-- The manager receives a chunk from one of its workers.
module _ (c : Chunk) (cs : List Chunk) (s : System)
    (h : IsCoherent (record s { update = c ∷ cs })) where
  back_from_starter :
      from_starter c.state c.err ≡ true
      → from_poller c.state c.err ≡ false
      → from_stopper c.state c.err ≡ false
      → IsCoherent
          (record s { mgr = record (s.mgr) { start = remove c.stream s.mgr.start }; update = cs })
  back_from_starter a b d = record {
    starter = received-IsServed _ _ s.starter s.mgr.start s.start c cs h.starter a;
    poller = skipped-IsServed _ _ s.poller s.mgr.poll s.poll c cs h.poller b;
    stopper = skipped-IsServed _ _ s.stopper s.mgr.stop s.stop c cs h.stopper d;
    expected = h.expected.1;
    clear = h.clear;
  }

  back_from_poller :
      from_starter c.state c.err ≡ false
      → from_poller c.state c.err ≡ true
      → from_stopper c.state c.err ≡ false
      → IsCoherent
          (record s { mgr = record (s.mgr) { poll = remove c.stream s.mgr.poll }; update = cs })
  back_from_poller a b d = record {
    starter = skipped-IsServed _ _ s.starter s.mgr.start s.start c cs h.starter a;
    poller = received-IsServed _ _ s.poller s.mgr.poll s.poll c cs h.poller b;
    stopper = skipped-IsServed _ _ s.stopper s.mgr.stop s.stop c cs h.stopper d;
    expected = h.expected.1;
    clear = h.clear;
  }

  back_from_stopper :
      from_starter c.state c.err ≡ false
      → from_poller c.state c.err ≡ false
      → from_stopper c.state c.err ≡ true
      → IsCoherent
          (record s { mgr = record (s.mgr) { stop = remove c.stream s.mgr.stop }; update = cs })
  back_from_stopper a b d = record {
    starter = skipped-IsServed _ _ s.starter s.mgr.start s.start c cs h.starter a;
    poller = skipped-IsServed _ _ s.poller s.mgr.poll s.poll c cs h.poller b;
    stopper = received-IsServed _ _ s.stopper s.mgr.stop s.stop c cs h.stopper d;
    expected = h.expected.1;
    clear = h.clear;
  }

  by_state : (t : Test) → {x : ChunkState} → c.state ≡ x → t c.state c.err ≡ t x c.err
  by_state t e = ap (λ x. t x c.err) e

  fine : not_eof c.err ≡ true
  fine = expected-not_eof c.state c.err h.expected.0

  -- What is known when the manager handles the chunk.
  unfoldable pub Returned : ChunkState → Type 0
  Returned x =
      IsCoherent (record s { mgr = take_from x c.stream s.mgr; update = cs })
      × (x ≢ created)
      × (not_eof c.err ≡ true)

  pub state-Returned : (x : ChunkState) → c.state ≡ x → Returned x
  unfolding Returned
  state-Returned created e = absurd (ground (arith, e, h.expected.0))
  state-Returned starting e = (
    back_from_starter (by_state from_starter e ∙ fine) (by_state from_poller e)
        (by_state from_stopper e),
    λ k. cc,
    fine,
  )
  state-Returned started e = (
    back_from_starter (by_state from_starter e ∙ fine) (by_state from_poller e)
        (by_state from_stopper e),
    λ k. cc,
    fine,
  )
  state-Returned polling e = (
    back_from_poller (by_state from_starter e) (by_state from_poller e ∙ fine)
        (by_state from_stopper e),
    λ k. cc,
    fine,
  )
  state-Returned complete e = (
    back_from_poller (by_state from_starter e) (by_state from_poller e ∙ fine)
        (by_state from_stopper e),
    λ k. cc,
    fine,
  )
  state-Returned stopping e = (
    back_from_stopper (by_state from_starter e) (by_state from_poller e)
        (by_state from_stopper e ∙ fine),
    λ k. cc,
    fine,
  )
  state-Returned stopped e = (
    back_from_stopper (by_state from_starter e) (by_state from_poller e)
        (by_state from_stopper e ∙ fine),
    λ k. cc,
    fine,
  )

  started-Step :
      (heap : Heap) (now : Time) (m' : Mgr)
      → (c.state ≡ starting) ⊎ (c.state ≡ started)
      → handle_chunk now c (record (s.mgr) { start = remove c.stream s.mgr.start }) ≡ some m'
      → Step heap s.mgr m'
  started-Step heap now m' e r =
      let mine : from_starter c.state c.err ≡ true = ground (arith, e) in
      let (before, found, after, was, is_now, same) =
        received-found _ _ s.starter s.mgr.start s.start c cs h.starter mine in
      starter_returns before after found c now was same e
        (subst (λ left. handle_chunk now c (record (s.mgr) { start = left }) ≡ some m') is_now r)

  polled-Step :
      (heap : Heap) (now : Time) (m' : Mgr)
      → (c.state ≡ polling) ⊎ (c.state ≡ complete)
      → handle_chunk now c (record (s.mgr) { poll = remove c.stream s.mgr.poll }) ≡ some m'
      → Step heap s.mgr m'
  polled-Step heap now m' e r =
      let mine : from_poller c.state c.err ≡ true = ground (arith, e) in
      let (before, found, after, was, is_now, same) =
        received-found _ _ s.poller s.mgr.poll s.poll c cs h.poller mine in
      poller_returns before after found c now was same e
        (subst (λ left. handle_chunk now c (record (s.mgr) { poll = left }) ≡ some m') is_now r)

  halted-Step :
      (heap : Heap) (now : Time) (m' : Mgr)
      → (c.state ≡ stopping) ⊎ (c.state ≡ stopped)
      → handle_chunk now c (record (s.mgr) { stop = remove c.stream s.mgr.stop }) ≡ some m'
      → Step heap s.mgr m'
  halted-Step heap now m' e r =
      let mine : from_stopper c.state c.err ≡ true = ground (arith, e) in
      let (before, found, after, was, is_now, same) =
        received-found _ _ s.stopper s.mgr.stop s.stop c cs h.stopper mine in
      stopper_returns before after found c now was same e
        (subst (λ left. handle_chunk now c (record (s.mgr) { stop = left }) ≡ some m') is_now r)

  -- The manager handles the chunk as one that it had sent to a worker.
  pub state-Step :
      (heap : Heap) (now : Time) (m' : Mgr) (x : ChunkState)
      → c.state ≡ x
      → handle_chunk now c (take_from x c.stream s.mgr) ≡ some m'
      → Step heap s.mgr m'
  state-Step heap now m' created e r = absurd (ground (arith, e, h.expected.0))
  state-Step heap now m' starting e r = started-Step heap now m' (inl e) r
  state-Step heap now m' started e r = started-Step heap now m' (inr e) r
  state-Step heap now m' polling e r = polled-Step heap now m' (inl e) r
  state-Step heap now m' complete e r = polled-Step heap now m' (inr e) r
  state-Step heap now m' stopping e r = halted-Step heap now m' (inl e) r
  state-Step heap now m' stopped e r = halted-Step heap now m' (inr e) r
