-- ===== src/Manager/Priority.antt =====
-- The order of the queue of streams (mgr.go: getReadyChunk, streamHeap.Less).
use incite.Base.{
  ℕ, zero, suc, ◌+◌, ◌≤◌, ◌<◌, ◌≡◌, refl, sym, ap, subst, ◌⊎◌, inl, inr, true, false, Bool-cases,
  Option-cases, some, List, [], ◌∷◌, ◌++◌, arith, length, ◌==◌, ==_iff, ltb,
}
use incite.Base.Int.{pos_part, neg_part}
use incite.Stream.{Stream, alive, next_chunk_range}
use incite.Chunk.{Chunk, first_chunk}
use incite.Manager.{Mgr, Heap, Streams, put, less, make_chunk, make_ready, fill_ready}
use incite.Manager.Counts.{occurrences}
use incite.Manager.Consistency.{IsHeap}
use incite.Manager.Dispatching.{
  PopsOne, empty, fill_ready-no_stream, fill_ready-dead, fill_ready-alive,
}

pub less-transitive : (s t u : Stream) → less s t ≡ true → less t u ≡ true → less s u ≡ true
unfolding less
less-transitive s t u h k = ground (arith, h, k)

-- What is known of the order of container/heap, by a predicate that says that a queue is in it:
-- an empty queue is, Push and Pop keep it, it depends on the streams in the queue alone, and Pop
-- gives a stream that none of the others is less than.
pub record Ordering (heap : Heap) : Type 1 where
  pub InOrder : Streams → List ℕ → Type 0
  pub emptied : (streams : Streams) → InOrder streams []
  pub pushed :
      (streams : Streams) (k : ℕ) (ks : List ℕ)
      → InOrder streams ks
      → InOrder streams (heap.push streams k ks)
  pub popped :
      (streams : Streams) (k : ℕ) (ks rest : List ℕ)
      → InOrder streams ks
      → heap.pop streams ks ≡ some (k, rest)
      → InOrder streams rest
        × ((j : ℕ) → 0 < occurrences j rest → less (streams j) (streams k) ≡ false)
  pub local :
      (streams streams' : Streams) (ks : List ℕ)
      → ((j : ℕ) → 0 < occurrences j ks → streams' j ≡ streams j)
      → InOrder streams ks
      → InOrder streams' ks

pub less-irreflexive : (s : Stream) → less s s ≡ false
unfolding less
less-irreflexive s = ground arith

abbrev pub first_of : ℕ → Mgr → Chunk
first_of k m = let s = m.streams k in first_chunk k s.next (next_chunk_range s) s.spec.preview

-- A stream that goes before another or is level with it: its priority is lower as a number, or it
-- is the same and no more chunks of it have been made.
abbrev pub Precedes : Stream → Stream → Type 0
Precedes s t =
    let a = s.spec.priority in
    let b = t.spec.priority in
    (pos_part a + neg_part b < pos_part b + neg_part a) ⊎ ((a ≡ b) × (s.next ≤ t.next))

less-Precedes : (s t : Stream) → less t s ≡ false → Precedes s t
unfolding less
less-Precedes s t h = ground arith

-- What getReadyChunk finds in the queue: the next chunk of a live stream that no live one in the
-- queue goes before, or nothing alive.
pub record IsFirst (m m' : Mgr) (k : ℕ) : Type 0 where
  pub made : m'.ready ≡ m.ready ++ first_of k m ∷ []
  pub living : alive (m.streams k) ≡ true
  pub queued : 0 < occurrences k m.pq
  pub least :
      (j : ℕ)
      → 0 < occurrences j m.pq
      → alive (m.streams j) ≡ true
      → Precedes (m.streams k) (m.streams j)

pub record IsNone (m m' : Mgr) : Type 0 where
  pub same : m'.ready ≡ m.ready
  pub queue : m'.pq ≡ []
  pub dead : (j : ℕ) → 0 < occurrences j m.pq → alive (m.streams j) ≡ false

module _ (heap : Heap) (h : IsHeap heap) (o : Ordering heap) where
  make_chunk-IsFirst :
      (k : ℕ) (rest : List ℕ) (m : Mgr)
      → o.InOrder m.streams m.pq
      → heap.pop m.streams m.pq ≡ some (k, rest)
      → alive (m.streams k) ≡ true
      → IsFirst m (make_chunk heap k rest m) k
  unfolding make_chunk make_ready
  make_chunk-IsFirst k rest m order p living = record {
    made = refl;
    living = living;
    queued = ground (arith, h.popped m.streams k k m.pq rest p, ==_iff k k);
    least = λ j q l. less-Precedes (m.streams k) (m.streams j) (elim (Bool-cases (j == k)) [
      | inl e ↦
          subst (λ (i : ℕ). less (m.streams i) (m.streams k) ≡ false) (sym ((==_iff j k).0 e))
            (less-irreflexive (m.streams k))
      | inr e ↦
          (o.popped m.streams k m.pq rest order p).1 j
            (ground (arith, e, q, h.popped m.streams j k m.pq rest p))
    ]);
  }

  make_chunk-InOrder :
      (k : ℕ) (rest : List ℕ) (m : Mgr)
      → o.InOrder m.streams m.pq
      → heap.pop m.streams m.pq ≡ some (k, rest)
      → occurrences k m.pq ≤ 1
      → let m' = make_chunk heap k rest m in o.InOrder m'.streams m'.pq
  unfolding make_chunk make_ready put
  make_chunk-InOrder k rest m order p once =
      let s = m.streams k in
      let s' = record s { next = s.next + 1 } in
      let streams' : Streams = put k s' m.streams in
      let gone : occurrences k rest ≡ 0 =
        ground (arith, h.popped m.streams k k m.pq rest p, ==_iff k k, once) in
      let kept : o.InOrder streams' rest =
        o.local m.streams streams' rest
          (λ j q. elim (Bool-cases (j == k)) [
            | inl e ↦
                absurd
                  (omega (arith, q, gone, ap (λ (i : ℕ). occurrences i rest) ((==_iff j k).0 e)))
            | inr e ↦ unfold put in rw e refl
          ])
          (o.popped m.streams k m.pq rest order p).0 in
      elim (Bool-cases (ltb s'.next s'.n0)) [
        | inl more ↦ rw more (o.pushed streams' k rest kept)
        | inr last ↦ rw last kept
      ]

  -- What getReadyChunk leaves.
  abbrev pub Serves : Mgr → Mgr → Type 0
  Serves m m' = (((k : ℕ) × IsFirst m m' k) ⊎ IsNone m m') × o.InOrder m'.streams m'.pq

  queued_before :
      (j k : ℕ) (rest : List ℕ) (m : Mgr)
      → heap.pop m.streams m.pq ≡ some (k, rest)
      → alive (m.streams k) ≡ false
      → 0 < occurrences j m.pq
      → alive (m.streams j) ≡ true
      → 0 < occurrences j rest
  queued_before j k rest m p dead q living = elim (Bool-cases (j == k)) [
    | inl e ↦
        absurd
          (ground (arith, dead, living, ap (λ (i : ℕ). alive (m.streams i)) ((==_iff j k).0 e)))
    | inr e ↦ ground (arith, e, q, h.popped m.streams j k m.pq rest p)
  ]

  dropped-Serves :
      (k : ℕ) (rest : List ℕ) (m m' : Mgr)
      → heap.pop m.streams m.pq ≡ some (k, rest)
      → alive (m.streams k) ≡ false
      → Serves (record m { pq = rest }) m'
      → Serves m m'
  dropped-Serves k rest m m' p dead (inl (j, f), order) =
      let before = h.popped m.streams j k m.pq rest p in
      (
        inl (
          j,
          record {
            made = f.made;
            living = f.living;
            queued = omega (arith, before, f.queued);
            least = λ i q l. f.least i (queued_before i k rest m p dead q l) l;
          },
        ),
        order,
      )
  dropped-Serves k rest m m' p dead (inr f, order) = (
    inr (record {
      same = f.same;
      queue = f.queue;
      dead = λ j q. elim (Bool-cases (alive (m.streams j))) [
        | inl l ↦ f.dead j (queued_before j k rest m p dead q l)
        | inr d ↦ d
      ];
    }),
    order,
  )

  none_queued : (j : ℕ) (ks : List ℕ) → ks ≡ [] → 0 < occurrences j ks → ⊥
  unfolding occurrences
  none_queued j [] e q = absurd (omega (arith, q))
  none_queued j (k ∷ ks) e q = absurd (omega (arith, ap length e))

  empty-Serves : (m : Mgr) → m.pq ≡ [] → o.InOrder m.streams m.pq → Serves m m
  empty-Serves m e order = (
    inr (record { same = refl; queue = e; dead = λ j q. absurd (none_queued j m.pq e q) }),
    order,
  )

  -- When no chunk is ready, getReadyChunk makes the next chunk of a live stream that every live
  -- stream in the queue comes after or is level with (its priority is a lower number, or the same and
  -- no more of its chunks have been made), or all streams in
  -- the queue are dead and it is empty then; and the queue stays in order. This is if Push and Pop
  -- of container/heap keep their order and Pop gives a least stream, and each stream is in the queue
  -- at most once.
  pub fill_ready-Serves :
      (fuel : ℕ) (m : Mgr)
      → PopsOne heap
      → m.num_ready ≡ 0
      → length m.pq ≤ fuel
      → o.InOrder m.streams m.pq
      → ((k : ℕ) → occurrences k m.pq ≤ 1)
      → Serves m (fill_ready heap fuel m)
  fill_ready-Serves zero m pops none_ready enough order once =
      unfold fill_ready in empty-Serves m (empty m.pq enough) order
  fill_ready-Serves (suc fuel) m pops none_ready enough order once =
      elim (Option-cases (heap.pop m.streams m.pq)) [
        | inl p ↦
            subst (Serves m) (sym (fill_ready-no_stream heap pops fuel m p))
              (empty-Serves m (pops.emptied m.streams m.pq p) order)
        | inr ((k, rest), p) ↦ elim (Bool-cases (alive (m.streams k))) [
          | inl a ↦
              subst (Serves m) (sym (fill_ready-alive heap pops fuel k rest m none_ready p a)) (
                inl (k, make_chunk-IsFirst k rest m order p a),
                make_chunk-InOrder k rest m order p (once k),
              )
          | inr d ↦
              subst (Serves m) (sym (fill_ready-dead heap pops fuel k rest m none_ready p d)) (
                dropped-Serves k rest m (fill_ready heap fuel (record m { pq = rest })) p d (
                  fill_ready-Serves fuel (record m { pq = rest }) pops none_ready
                    (omega (arith, enough, pops.shorter m.streams k m.pq rest p))
                    (o.popped m.streams k m.pq rest order p).0
                    (λ j. omega (arith, once j, h.popped m.streams j k m.pq rest p))))
        ]
      ]
