-- ===== src/Manager/Dispatching.antt =====
-- The inner loop of the manager ends when there is nothing more to send (mgr.go: loop,
-- getReadyChunk).
use incite.Base.{
  ℕ, zero, suc, ◌+◌, ◌≤◌, ◌<◌, ◌≡◌, ◌⊎◌, inl, inr, refl, sym, ap, ◌∙◌, subst, true, false,
  Bool-cases, Option-cases, none, some, List, [], ◌∷◌, arith, length, length-append, ltb, ltb-false,
  ltb→lt,
}
use incite.Adapter.{whole}
use incite.Stream.{Stream, alive, next_chunk_range}
use incite.Chunk.{Chunk, starting, first_chunk}
use incite.Manager.{Mgr, Heap, make_ready, make_chunk, fill_ready, send_first, send_ready, dispatch}
use incite.Manager.Sound.{IsSound, in_flight}
use incite.Manager.Counts.{Refilled, fill_ready-Refilled, send_ready-IsSound, whole_limit}

-- What is known of container/heap: a pop takes one stream out of a queue that is not empty.
pub record PopsOne (heap : Heap) : Type 0 where
  pub shorter :
      (streams : ℕ → Stream) (k : ℕ) (ks rest : List ℕ)
      → heap.pop streams ks ≡ some (k, rest)
      → length ks ≡ suc (length rest)
  pub emptied : (streams : ℕ → Stream) (ks : List ℕ) → heap.pop streams ks ≡ none → ks ≡ []

-- No chunk is ready and no stream has more chunks to make.
abbrev pub Drained : Mgr → Type 0
Drained m = (m.ready ≡ []) × (m.pq ≡ [])

-- The inner loop has nothing to do.
abbrev pub IsDone : Mgr → Type 0
IsDone m = (whole m.parallel ≤ in_flight m) ⊎ Drained m

empty_or {ℓ} : {A : Type ℓ} (xs : List A) → (xs ≡ []) ⊎ (0 < length xs)
empty_or [] = inl refl
empty_or (x ∷ xs) = inr (omega arith)

lt_or_ge : (a b : ℕ) → (a < b) ⊎ (b ≤ a)
lt_or_ge a b = elim (Bool-cases (ltb a b)) [
  | inl h ↦ inl (ltb→lt a b h)
  | inr h ↦ inr (ltb-false a b h)
]

pub empty {ℓ} : {A : Type ℓ} (xs : List A) → length xs ≤ 0 → xs ≡ []
empty [] h = refl
empty (x ∷ xs) h = absurd (omega (arith, h))

-- What getReadyChunk finds.
abbrev Found : Mgr → Type 0
Found m = (0 < length m.ready) ⊎ Drained m

module _ (heap : Heap) (pops : PopsOne heap) where
  fill_ready-ready : (fuel : ℕ) (m : Mgr) → 0 < m.num_ready → fill_ready heap (suc fuel) m ≡ m
  unfolding fill_ready
  fill_ready-ready fuel m h = ground (arith, h)

  pub fill_ready-no_stream :
      (fuel : ℕ) (m : Mgr) → heap.pop m.streams m.pq ≡ none → fill_ready heap (suc fuel) m ≡ m
  unfolding fill_ready
  fill_ready-no_stream fuel m h = ground (arith, h)

  pub fill_ready-dead :
      (fuel k : ℕ) (rest : List ℕ) (m : Mgr)
      → m.num_ready ≡ 0
      → heap.pop m.streams m.pq ≡ some (k, rest)
      → alive (m.streams k) ≡ false
      → fill_ready heap (suc fuel) m ≡ fill_ready heap fuel (record m { pq = rest })
  unfolding fill_ready
  fill_ready-dead fuel k rest m z p d = ground (arith, z, p, d)

  pub fill_ready-alive :
      (fuel k : ℕ) (rest : List ℕ) (m : Mgr)
      → m.num_ready ≡ 0
      → heap.pop m.streams m.pq ≡ some (k, rest)
      → alive (m.streams k) ≡ true
      → fill_ready heap (suc fuel) m ≡ make_chunk heap k rest m
  unfolding fill_ready
  fill_ready-alive fuel k rest m z p d = ground (arith, z, p, d)

  make_chunk-ready : (k : ℕ) (rest : List ℕ) (m : Mgr) → 0 < length (make_chunk heap k rest m).ready
  unfolding make_chunk make_ready
  make_chunk-ready k rest m =
      let s = m.streams k in
      let made = first_chunk k s.next (next_chunk_range s) s.spec.preview in
      omega (arith, length-append m.ready (made ∷ []))

  -- getReadyChunk finds a chunk, or the queue is empty afterwards.
  fill_ready-Found :
      (fuel : ℕ) (m : Mgr)
      → m.num_ready ≡ length m.ready
      → length m.pq ≤ fuel
      → Found (fill_ready heap fuel m)
  fill_ready-Found zero m c h = elim (empty_or m.ready) [
    | inl e ↦ unfold fill_ready in inr (e, empty m.pq h)
    | inr l ↦ unfold fill_ready in inl l
  ]
  fill_ready-Found (suc fuel) m c h = elim (empty_or m.ready) [
    | inr l ↦ subst Found (sym (fill_ready-ready fuel m (omega (arith, l, c)))) (inl l)
    | inl e ↦
        let z : m.num_ready ≡ 0 = c ∙ ap length e in
        elim (Option-cases (heap.pop m.streams m.pq)) [
          | inl p ↦
              subst Found (sym (fill_ready-no_stream fuel m p))
                (inr (e, pops.emptied m.streams m.pq p))
          | inr ((k, rest), p) ↦ elim (Bool-cases (alive (m.streams k))) [
            | inl a ↦
                subst Found (sym (fill_ready-alive fuel k rest m z p a))
                  (inl (make_chunk-ready k rest m))
            | inr d ↦ subst Found (sym (fill_ready-dead fuel k rest m z p d)) (
                fill_ready-Found fuel (record m { pq = rest }) c
                  (omega (arith, h, pops.shorter m.streams k m.pq rest p)))
          ]
        ]
  ]

  send_first-in_flight :
      (cs : List Chunk) (m : Mgr)
      → 0 < length cs
      → (in_flight (send_first heap cs m) ≡ suc (in_flight m))
        × ((send_first heap cs m).parallel ≡ m.parallel)
  send_first-in_flight [] m h = absurd (omega (arith, h))
  send_first-in_flight (c ∷ cs) m h =
      (omega (arith, length-append m.start (record c { state = starting } ∷ [])), refl)

  send_first-none : (cs : List Chunk) (m : Mgr) → cs ≡ [] → send_first heap cs m ≡ m
  send_first-none [] m e = refl
  send_first-none (c ∷ cs) m e = absurd (omega (arith, ap length e))

  -- One round of the inner loop sends a chunk, or finds that there is none.
  abbrev Advanced : Mgr → Mgr → Type 0
  Advanced m m' = (m'.parallel ≡ m.parallel) × ((in_flight m' ≡ suc (in_flight m)) ⊎ Drained m')

  send_ready-Advanced : (limit : ℕ) (m : Mgr) → IsSound limit m → Advanced m (send_ready heap m)
  unfolding send_ready Refilled
  send_ready-Advanced limit m h =
      let m1 = fill_ready heap (length m.pq) m in
      let (sound, same, parallel) = fill_ready-Refilled heap limit (length m.pq) m h in
      elim (fill_ready-Found (length m.pq) m h.ready (omega arith)) [
        | inl l ↦
            let (more, kept) = send_first-in_flight m1.ready m1 l in
            (kept ∙ parallel, inl (more ∙ ap suc same))
        | inr d ↦ subst (Advanced m) (sym (send_first-none m1.ready m1 d.0)) (parallel, inr d)
      ]

  send_ready-Drained : (m : Mgr) → Drained m → send_ready heap m ≡ m
  unfolding send_ready fill_ready
  send_ready-Drained m d = rw (d.1, d.0) refl

  dispatch-Drained : (fuel : ℕ) (m : Mgr) → Drained m → dispatch heap fuel m ≡ m
  unfolding dispatch
  dispatch-Drained zero m d = refl
  dispatch-Drained (suc fuel) m d =
      ground (arith, send_ready-Drained m d, dispatch-Drained fuel m d)

  counted :
      (limit : ℕ) (m : Mgr)
      → IsSound limit m
      → m.num_starting + m.num_polling + m.num_stopping ≡ in_flight m
  counted limit m h = omega (arith, h.starting, h.polling, h.stopping)

  dispatch-full :
      (fuel : ℕ) (m : Mgr)
      → whole m.parallel ≤ m.num_starting + m.num_polling + m.num_stopping
      → dispatch heap (suc fuel) m ≡ m
  unfolding dispatch
  dispatch-full fuel m h = ground (arith, h)

  dispatch-free :
      (fuel : ℕ) (m : Mgr)
      → m.num_starting + m.num_polling + m.num_stopping < whole m.parallel
      → dispatch heap (suc fuel) m ≡ dispatch heap fuel (send_ready heap m)
  unfolding dispatch
  dispatch-free fuel m h = ground (arith, h)

  -- The inner loop of a sound manager ends after at most as many rounds as the parallelism exceeds
  -- the chunks with the workers, if a pop takes one stream out of a queue that is not empty: then
  -- there are as many of these chunks as the parallelism allows, or no chunk is ready and no stream
  -- is in the queue.
  pub dispatch-IsDone :
      (limit fuel : ℕ) (m : Mgr)
      → IsSound limit m
      → whole m.parallel ≤ fuel + in_flight m
      → IsDone (dispatch heap fuel m)
  dispatch-IsDone limit zero m h enough = unfold dispatch in inl (omega (arith, enough))
  dispatch-IsDone limit (suc fuel) m h enough =
      let same = counted limit m h in
      let cap = whole_limit heap limit m.parallel h.parallel in
      elim (lt_or_ge (m.num_starting + m.num_polling + m.num_stopping) (whole m.parallel)) [
        | inr full ↦
            subst IsDone (sym (dispatch-full fuel m full)) (inl (omega (arith, full, same)))
        | inl free ↦
            let m' = send_ready heap m in
            let (kept, moved) = send_ready-Advanced limit m h in
            subst IsDone (sym (dispatch-free fuel m free)) (elim moved [
              | inl more ↦
                  dispatch-IsDone limit fuel m'
                    (send_ready-IsSound heap limit m h (omega (arith, free, same, cap)))
                    (omega (arith, more, enough, ap whole kept))
              | inr d ↦ subst IsDone (sym (dispatch-Drained fuel m' d)) (inr d)
            ])
      ]
