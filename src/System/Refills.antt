-- ===== src/System/Refills.antt =====
-- What the inner loop of the manager sends to the starter (mgr.go: loop, getReadyChunk).
use incite.Base.{
  ℕ, zero, suc, ◌+◌, ◌≡◌, refl, sym, subst, inl, inr, Option-cases, List, [], ◌∷◌, arith, length,
  ltb, Bool-cases,
}
use incite.Stream.{next_chunk_range}
use incite.Adapter.{whole}
use incite.Chunk.{Chunk, first_chunk}
use incite.Worker.States.{AllIn, AllIn-append}
use incite.Manager.{Mgr, Heap, make_ready, make_chunk, fill_ready, send_first, send_ready, dispatch}
use incite.System.Served.{Extends}
use incite.System.Kinds.{is_clear, is_starting, is_polling, is_stopping}
use incite.System.Sends.{Extends-refl, IsClear, Sends, Sends-trans, nothing_sent}

-- Nothing is sent.
Quiet : Mgr → Mgr → Type 0
Quiet m m' = (m'.start ≡ m.start) × (m'.poll ≡ m.poll) × (m'.stop ≡ m.stop) × IsClear m'

Quiet-Sends : (m m' : Mgr) → Quiet m m' → Sends m m'
unfolding Quiet
Quiet-Sends m m' (a, b, c, h) = (
  subst (Extends is_starting m.start) (sym a) (Extends-refl is_starting m.start),
  subst (Extends is_polling m.poll) (sym b) (Extends-refl is_polling m.poll),
  subst (Extends is_stopping m.stop) (sym c) (Extends-refl is_stopping m.stop),
  h,
)

module _ (heap : Heap) where
  make_chunk-Quiet :
      (k : ℕ) (rest : List ℕ) (m : Mgr) → IsClear m → Quiet m (make_chunk heap k rest m)
  unfolding Quiet make_chunk make_ready first_chunk
  make_chunk-Quiet k rest m h =
      let s = m.streams k in
      (
        refl,
        refl,
        refl,
        AllIn-append is_clear m.ready
            (first_chunk k s.next (next_chunk_range s) s.spec.preview ∷ []) h (refl, tt),
      )

  fill_ready-Quiet : (fuel : ℕ) (m : Mgr) → IsClear m → Quiet m (fill_ready heap fuel m)
  unfolding Quiet fill_ready
  fill_ready-Quiet zero m h = (refl, refl, refl, h)
  fill_ready-Quiet (suc fuel) m h = elim (Option-cases (heap.pop m.streams m.pq)) [
    | inl p ↦ ground (arith, p)
    | inr ((k, rest), p) ↦
        ground
          (arith, p, make_chunk-Quiet k rest m h, fill_ready-Quiet fuel (record m { pq = rest }) h)
  ]

  send_first-Sends :
      (cs : List Chunk) (m : Mgr) → cs ≡ m.ready → IsClear m → Sends m (send_first heap cs m)
  send_first-Sends [] m e h = nothing_sent m m.ready h
  send_first-Sends (c ∷ cs) m e h =
      let all : AllIn is_clear (c ∷ cs) = subst (AllIn is_clear) (sym e) h in
      (
        (_, refl, (all.0, tt)),
        Extends-refl is_polling m.poll,
        Extends-refl is_stopping m.stop,
        all.1,
      )

  send_ready-Sends : (m : Mgr) → IsClear m → Sends m (send_ready heap m)
  unfolding send_ready
  send_ready-Sends m h =
      let m1 = fill_ready heap (length m.pq) m in
      let filled = Quiet-Sends m m1 (fill_ready-Quiet (length m.pq) m h) in
      Sends-trans m m1 (send_first heap m1.ready m1) filled
        (send_first-Sends m1.ready m1 refl filled.3)

  pub dispatch-Sends : (fuel : ℕ) (m : Mgr) → IsClear m → Sends m (dispatch heap fuel m)
  unfolding dispatch
  dispatch-Sends zero m h = nothing_sent m m.ready h
  dispatch-Sends (suc fuel) m h =
      let sent = send_ready-Sends m h in
      elim (Bool-cases (ltb (m.num_starting + m.num_polling + m.num_stopping) (whole m.parallel))) [
        | inl more ↦
            rw (dispatch, more)
              (Sends-trans m (send_ready heap m) (dispatch heap fuel (send_ready heap m)) sent
                (dispatch-Sends fuel (send_ready heap m) sent.3))
        | inr full ↦ rw (dispatch, full) (nothing_sent m m.ready h)
      ]
