-- ===== src/Manager/Shutdown.antt =====
-- The shutdown of the manager (mgr.go, shutdown), and which streams it closes.
use incite.Base.{
  ℕ, ◌+◌, ◌-◌, ◌≡◌, refl, Bool, true, false, ◌||◌, Option, Option-cases, none, some, List, [], ◌∷◌,
  arith, ◌==◌, ==_iff, leb, length, if◌then◌else◌, inl, inr,
}
use incite.Stats.{zero_stats}
use incite.Errors.{closed}
use incite.Stream.{is_closed, set_err}
use incite.Chunk.{Chunk, created, starting, started, polling, complete, stopping, stopped}
use incite.Manager.{put, Mgr, stop_chunk_of}

-- s.setErr(ErrClosed, true, Stats{}) for the stream numbered k.
unfoldable pub close_stream : ℕ → Mgr → Mgr
unfolding put
close_stream k m = record m {
  streams = put k (set_err (m.streams k) (some closed) zero_stats).0 m.streams;
}

-- A round of the loop that drains the starter and the poller.
unfoldable pub drain_one : Chunk → Mgr → Mgr
unfolding stop_chunk_of close_stream
drain_one c m = elim c.state [
  | started ↦
      close_stream c.stream (record (stop_chunk_of c m) { num_starting = m.num_starting - 1 })
  | starting ↦ close_stream c.stream (record m { num_starting = m.num_starting - 1 })
  | polling ↦ close_stream c.stream (record (stop_chunk_of c m) { num_polling = m.num_polling - 1 })
  | complete ↦ close_stream c.stream (record m { num_polling = m.num_polling - 1 })
  | stopping ↦ record m { num_stopping = m.num_stopping - 1 }
  | stopped ↦ record m { num_stopping = m.num_stopping - 1 }
  | created ↦ m
]

-- The loop, over the chunks that come through `update`, and those left for the next loop. none
-- when it waits for more.
unfoldable pub drain : List Chunk → Mgr → Option (Mgr × List Chunk)
unfolding drain_one
drain [] m = if m.num_starting + m.num_polling == 0 then some (m, []) else none
drain (c ∷ cs) m =
    let rest = drain cs (drain_one c m) in
    if m.num_starting + m.num_polling == 0 then some (m, c ∷ cs) else rest

-- The streams in the queue.
unfoldable pub close_all : List ℕ → Mgr → Mgr
unfolding close_stream
close_all [] m = m
close_all (k ∷ ks) m = close_all ks (close_stream k m)

-- The loop that drains the stopper counts num_stopping down for each chunk that comes.
abbrev drain_stopper : Mgr × List Chunk → Option Mgr
drain_stopper (m, cs) =
    if leb m.num_stopping (length cs) then some (record m { num_stopping = 0 }) else none

abbrev and_close : Option (Mgr × List Chunk) → Option Mgr
and_close none = none
and_close (some (m, cs)) = drain_stopper (close_all m.pq m, cs)

-- shutdown, with the chunks that come through `update`. none when it still waits.
unfoldable pub shutdown : List Chunk → Mgr → Option Mgr
unfolding drain close_all
shutdown cs m = and_close (drain cs m)

-- Whether a number is in a list, and whether a chunk of the stream numbered k is.
abbrev pub queued : ℕ → List ℕ → Bool
queued k [] = false
queued k (j ∷ js) = k == j || queued k js

abbrev pub returned : ℕ → List Chunk → Bool
returned k [] = false
returned k (c ∷ cs) = k == c.stream || returned k cs

abbrev pub closed_now : ℕ → Mgr → Bool
closed_now k m = is_closed (m.streams k).err

close_stream-closed :
    (k j : ℕ) (m : Mgr) → closed_now k (close_stream j m) ≡ (k == j || closed_now k m)
unfolding close_stream put set_err is_closed
close_stream-closed k j m = ground (arith, ==_iff k j)

close_all-closed :
    (k : ℕ) (ks : List ℕ) (m : Mgr)
    → closed_now k (close_all ks m) ≡ (queued k ks || closed_now k m)
unfolding close_all
close_all-closed k [] m = refl
close_all-closed k (j ∷ js) m =
    ground (arith, close_all-closed k js (close_stream j m), close_stream-closed k j m)

drain_one-pq : (c : Chunk) (m : Mgr) → (drain_one c m).pq ≡ m.pq
unfolding drain_one close_stream stop_chunk_of
drain_one-pq c m = ground arith

drain_one-away :
    (k : ℕ) (c : Chunk) (m : Mgr)
    → (k == c.stream) ≡ false
    → (drain_one c m).streams k ≡ m.streams k
unfolding drain_one close_stream stop_chunk_of put
drain_one-away k c m h = ground arith

drain_lem :
    (k : ℕ) (cs rest : List Chunk) (m m' : Mgr)
    → drain cs m ≡ some (m', rest)
    → (m'.pq ≡ m.pq) × (returned k cs ≡ false → m'.streams k ≡ m.streams k)
unfolding drain
drain_lem k [] rest m m' h = ground arith
drain_lem k (c ∷ cs) rest m m' h =
    let ih = drain_lem k cs rest (drain_one c m) m' in
    ground (arith, ih, drain_one-pq c m, drain_one-away k c m)

close_all-away :
    (k : ℕ) (ks : List ℕ) (m : Mgr) → queued k ks ≡ false → (close_all ks m).streams k ≡ m.streams k
unfolding close_all close_stream put
close_all-away k [] m h = refl
close_all-away k (j ∷ js) m h = ground (arith, close_all-away k js (close_stream j m))

-- A shutdown that ends has its two parts.
shutdown-parts :
    (cs : List Chunk) (m m' : Mgr)
    → shutdown cs m ≡ some m'
    → (m1 : Mgr) × (rest : List Chunk) × (drain cs m ≡ some (m1, rest))
      × (m'.streams ≡ (close_all m1.pq m1).streams)
unfolding shutdown
shutdown-parts cs m m' h = elim (Option-cases (drain cs m)) [
  | inl p ↦ absurd (ground (arith, p))
  | inr ((m1, rest), p) ↦ (m1, rest, p, ground (arith, p))
]

-- A shutdown that ends has closed every stream that was in the queue.
pub shutdown-closes :
    (k : ℕ) (cs : List Chunk) (m m' : Mgr)
    → shutdown cs m ≡ some m'
    → queued k m.pq ≡ true
    → closed_now k m' ≡ true
shutdown-closes k cs m m' h q =
    let (m1, rest, p, e) = shutdown-parts cs m m' h in
    ground (arith, e, drain_lem k cs rest m m1 p, close_all-closed k m1.pq m1)

-- A shutdown that ends leaves a stream as it was that is not in the queue and of which no chunk
-- comes back from a worker, also when chunks of it are ready to be started.
pub shutdown-leaves :
    (k : ℕ) (cs : List Chunk) (m m' : Mgr)
    → shutdown cs m ≡ some m'
    → queued k m.pq ≡ false
    → returned k cs ≡ false
    → m'.streams k ≡ m.streams k
shutdown-leaves k cs m m' h q r =
    let (m1, rest, p, e) = shutdown-parts cs m m' h in
    let (pq, kept) = drain_lem k cs rest m m1 p in
    ground (arith, e, pq, kept r, close_all-away k m1.pq m1)
