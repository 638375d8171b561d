-- ===== src/System/Accounts.antt =====
-- The streams of the running manager: io.EOF is the end (mgr.go, stream.go).
use incite.Base.{
  ℕ, ◌+◌, ◌≤◌, ◌<◌, ◌≡◌, refl, sym, ap, subst, ◌∙◌, inl, inr, true, false, Bool-cases, Option, none,
  some, List, [], ◌∷◌, arith, ◌==◌, ==_iff,
}
use incite.Clock.{Time}
use incite.Errors.{Result, ok, err}
use incite.Stream.{Stream, QuerySpec}
use incite.Query.{query}
use incite.Query.Checks.{query-IsNormal}
use incite.Query.Partition.{query-has_chunk}
use incite.Chunk.{
  Chunk, ChunkState, created, starting, started, polling, complete, stopping, stopped,
}
use incite.Adapter.{whole}
use incite.Manager.{Mgr, Heap, Streams, put, handle_chunk, add_query, dispatch}
use incite.Manager.Counts.{Step, asks, sends, occurrences}
use incite.Manager.Account.{left}
use incite.Manager.Consistency.{IsHeap, IsConsistent, Step-IsConsistent}
use incite.Manager.Final.{IsFinal, handle_chunk-IsFinal}
use incite.Manager.Others.{Unmade, Step-Unmade, dispatch-steady}
use incite.System.{
  System, Next, next, take_from, take_back, deliver, dispatched, asked, handled, receive_first,
  step,
}
use incite.System.Ends.{not_eof-ne}
use incite.System.Coherence.{IsCoherent, Returned, state-Returned, state-Step}
use incite.System.Tracked.{IsSimilar, IsTracked, IsSimilar-refl, similar-IsTracked}

-- All streams are tracked.
abbrev pub TracksAt : System → Type 0
TracksAt s = (k : ℕ) → IsTracked k s.num_streams s.mgr

abbrev pub Tracks : Next → Type 0
Tracks (next s) = TracksAt s
Tracks _ = Unit {0}

take_from-streams : (x : ChunkState) (k : ℕ) (m : Mgr) → (take_from x k m).streams ≡ m.streams
take_from-streams created k m = refl
take_from-streams starting k m = refl
take_from-streams started k m = refl
take_from-streams polling k m = refl
take_from-streams complete k m = refl
take_from-streams stopping k m = refl
take_from-streams stopped k m = refl

module _ (heap : Heap) (h : IsHeap heap) where
  -- A step of the manager, and then the inner loop.
  dispatched-IsTracked :
      (k num_streams : ℕ) (m m' : Mgr)
      → Step heap m m'
      → IsConsistent k m
      → (num_streams ≤ k → Unmade k m)
      → IsFinal (m'.streams k)
      → IsTracked k num_streams (dispatch heap (whole m'.parallel) m')
  dispatched-IsTracked k num_streams m m' step i u f =
      let m'' = dispatch heap (whole m'.parallel) m' in
      let later : Step heap m' m'' = sends (whole m'.parallel) refl in
      let i' = Step-IsConsistent heap h k step i in
      let kept = dispatch-steady k heap (whole m'.parallel) m' in
      record {
        consistent = Step-IsConsistent heap h k later i';
        final = λ e. kept.m ∙ f (sym kept.err ∙ e) ∙ sym kept.n;
        unmade = λ e. Step-Unmade k heap later i' (Step-Unmade k heap step i (u e));
      }

  handled-Tracks :
      (m : Mgr) (s : System) (r : Option Mgr)
      → TracksAt s
      → ((m' : Mgr) → r ≡ some m' → Step heap s.mgr m')
      → ((m' : Mgr) (k : ℕ) → r ≡ some m' → IsFinal (m'.streams k))
      → Tracks (handled heap m s r)
  handled-Tracks m s none t step final = tt
  handled-Tracks m s (some m') t step final =
      unfold dispatched deliver in
      λ k.
        dispatched-IsTracked k s.num_streams s.mgr m' (step m' refl) (t k).consistent (t k).unmade
          (final m' k refl)

  pub received-Tracks :
      (now : Time) (update : List Chunk) (s : System)
      → s.update ≡ update
      → IsCoherent s
      → TracksAt s
      → Tracks (receive_first heap now update s)
  unfolding take_back Returned
  received-Tracks now [] s e coherent t = t
  received-Tracks now (c ∷ cs) s e coherent t =
      let coherent' : IsCoherent (record s { update = c ∷ cs }) =
        subst (λ update. IsCoherent (record s { update = update })) e coherent in
      let (_, _, clear) = state-Returned c cs s coherent' c.state refl in
      handled-Tracks (take_back c s.mgr) (record s { update = cs })
        (handle_chunk now c (take_back c s.mgr)) t
        (λ m' r. state-Step c cs s coherent' heap now m' c.state refl r)
        (λ m' k r.
          handle_chunk-IsFinal k now c (take_back c s.mgr) m' (not_eof-ne c.err clear)
            (subst (λ (f : Streams). IsFinal (f k)) (sym (take_from-streams c.state c.stream s.mgr))
              (t k).final)
            r)

  -- A new stream, with all its chunks to be made.
  IsNew : Stream → Type 0
  IsNew s = (s.next ≡ 0) × (s.m ≡ 0) × (s.n ≡ s.n0) × (0 < s.n0) × (s.err ≡ none)

  accepted-IsNew : (q : QuerySpec) (s : Stream) → query false q ≡ ok s → IsNew s
  unfolding IsNew
  accepted-IsNew q s e =
      let normal = (query-IsNormal false q s e).1 in
      ground (arith, normal, query-has_chunk false q s e)

  unmade-occurrences :
      (k num_streams : ℕ) (m : Mgr)
      → IsTracked k num_streams m
      → num_streams ≤ k
      → (occurrences k m.pq ≡ 0) × (left k m ≡ 0)
  unfolding Unmade
  unmade-occurrences k num_streams m t e =
      let (n, n0) = t.unmade e in
      let account = t.consistent.accounted in
      let unfinished = t.consistent.unfinished in
      (ground (arith, n0, unfinished), omega (arith, account, n))

  made-IsTracked :
      (k : ℕ) (stream : Stream) (s : System)
      → IsNew stream
      → TracksAt s
      → let m : Mgr = record (s.mgr) { streams = put s.num_streams stream s.mgr.streams } in
        IsConsistent k m × (s.num_streams + 1 ≤ k → Unmade k m) × IsFinal (m.streams k)
  unfolding IsNew Unmade left put
  made-IsTracked k stream s (first, done, n, positive, e) t =
      elim (Bool-cases (k == s.num_streams)) [
        | inl mine ↦
            let same = (==_iff k s.num_streams).0 mine in
            let (none_queued, none_left) =
              unmade-occurrences k s.num_streams s.mgr (t k) (omega (arith, same)) in
            let at : put s.num_streams stream s.mgr.streams k ≡ stream = rw mine refl in
            let next' = ap (λ (x : Stream). x.next) at in
            let n0' = ap (λ (x : Stream). x.n0) at in
            let n' = ap (λ (x : Stream). x.n) at in
            let m' = ap (λ (x : Stream). x.m) at in
            (
              record {
                accounted = omega (arith, none_left, first, done, n, next', n0', n', m');
                once = omega (arith, none_queued);
                unfinished = λ o. omega (arith, first, positive, next', n0');
              },
              λ l. absurd (omega (arith, l, same)),
              subst IsFinal (sym at) (λ f. absurd (ground (arith, e, f))),
            )
        | inr other ↦
            let at : put s.num_streams stream s.mgr.streams k ≡ s.mgr.streams k = rw other refl in
            let same =
              similar-IsTracked k s.num_streams s.mgr (put s.num_streams stream s.mgr.streams)
                (subst (IsSimilar (s.mgr.streams k)) (sym at) (IsSimilar-refl (s.mgr.streams k)))
                (t k) in
            (same.consistent, λ l. same.unmade (omega (arith, l)), same.final)
      ]

  new-more :
      (stream : Stream) (s : System)
      → IsNew stream
      → let made = put s.num_streams stream s.mgr.streams s.num_streams in made.next < made.n0
  unfolding IsNew put
  new-more stream s (first, done, n, positive, e) =
      let same : (s.num_streams == s.num_streams) ≡ true =
        (==_iff s.num_streams s.num_streams).1 refl in
      rw same (omega (arith, first, positive))

  pub asked-Tracks :
      (q : QuerySpec) (r : Result Stream) (s : System)
      → query false q ≡ r
      → TracksAt s
      → TracksAt (asked heap r s)
  asked-Tracks q (err x) s e t k = t k
  asked-Tracks q (ok stream) s e t k =
      let new = accepted-IsNew q stream e in
      let m : Mgr = record (s.mgr) { streams = put s.num_streams stream s.mgr.streams } in
      let (i, u, f) = made-IsTracked k stream s new t in
      let unqueued =
        (unmade-occurrences s.num_streams s.num_streams s.mgr (t s.num_streams) (omega arith)).0 in
      unfold dispatched deliver in
      dispatched-IsTracked k (s.num_streams + 1) m (add_query heap s.num_streams m)
        (asks s.num_streams unqueued (new-more stream s new) refl) i u (unfold add_query in f)
