-- ===== src/Manager/Account.antt =====
-- The chunks of a stream: a stream gets io.EOF only when it has no other chunk left (mgr.go).
use incite.Base.{
  ℕ, zero, suc, ◌+◌, ◌-◌, ◌≤◌, ◌≡◌, Option, none, some, codes, List, [], ◌∷◌, ◌++◌, arith, ◌==◌,
  ==_iff, length, if◌then◌else◌,
}
use incite.Clock.{Time, Duration}
use incite.Errors.{Error, reduce_parallel, restart_chunk, split_chunk, stop_chunk, unexpected_query}
use incite.Stream.{set_err}
use incite.Adapter.{decrease}
use incite.Chunk.{
  Chunk, polling, mark_started, add_started, add_failed, split, split_from, split_children,
  split_frac, duration,
}
use incite.Manager.{
  Mgr, put, make_ready, kill_stream, stop_chunk_of, starting_error, handle_starting_error,
  handle_chunk_started, split_chunk_of, handle_chunk_completion, polling_error,
  handle_polling_error, handle_chunk,
}

-- How many chunks of a list belong to the stream numbered k.
unfoldable pub count : ℕ → List Chunk → ℕ
count k [] = 0
count k (c ∷ cs) = (if k == c.stream then 1 else 0) + count k cs

pub count-append : (k : ℕ) (xs ys : List Chunk) → count k (xs ++ ys) ≡ count k xs + count k ys
unfolding count
count-append k [] ys = omega arith
count-append k (x ∷ xs) ys = omega (arith, count-append k xs ys)

-- The chunks of a stream that are ready, with the starter, with the poller, or still to be made.
unfoldable pub left : ℕ → Mgr → ℕ
left k m =
    count k m.ready + count k m.start + count k m.poll + ((m.streams k).n0 - (m.streams k).next)

-- The chunks that completed and those that are left are no more than those that the stream has.
abbrev pub IsAccounted : ℕ → Mgr → Type 0
IsAccounted k m = (m.streams k).m + left k m ≤ (m.streams k).n

count-split_from :
    (k fuel n : ℕ) (c : Chunk) (frac : Duration) (start : Time)
    → count k (split_from fuel c frac start n)
      ≡ (if k == c.stream then length (split_from fuel c frac start n) else 0)
unfolding count split_from split
count-split_from k zero n c frac start = ground arith
count-split_from k (suc fuel) n c frac start =
    ground (arith, count-split_from k fuel (n + 1) c frac (split c start frac n).end)

count-split_children :
    (k : ℕ) (c : Chunk) (u : Duration)
    → count k (split_children c u) ≡ (if k == c.stream then length (split_children c u) else 0)
unfolding split_children
count-split_children k c u =
    count-split_from k (suc (c.end - c.start)) 0 c (split_frac (duration c) u) c.start

module _ (k : ℕ) where
  -- One chunk more for a stream, or none.
  unfoldable pub own : Chunk → ℕ
  own c = if k == c.stream then 1 else 0

  -- The account with a chunk that has come back and is not in a list.
  unfoldable pub HasRoom : Chunk → Mgr → Type 0
  HasRoom c m = (m.streams k).m + left k m + own c ≤ (m.streams k).n

  kill_stream-IsAccounted :
      (c : Chunk) (m : Mgr) → IsAccounted k m → IsAccounted k (kill_stream c m)
  unfolding kill_stream put set_err left
  kill_stream-IsAccounted c m h = ground (arith, ==_iff k c.stream)

  make_ready-IsAccounted : (c : Chunk) (m : Mgr) → HasRoom c m → IsAccounted k (make_ready c m)
  unfolding make_ready left count HasRoom own
  make_ready-IsAccounted c m h = ground (arith, count-append k m.ready (c ∷ []))

  handle_chunk_completion-IsAccounted :
      (c : Chunk) (m : Mgr) → HasRoom c m → IsAccounted k (handle_chunk_completion c m)
  unfolding handle_chunk_completion kill_stream put set_err left HasRoom own
  handle_chunk_completion-IsAccounted c m h = ground (arith, ==_iff k c.stream)

  split_chunk_of-HasRoom : (c : Chunk) (m : Mgr) → HasRoom c m → HasRoom c (split_chunk_of c m)
  unfolding split_chunk_of put left HasRoom own
  split_chunk_of-HasRoom c m h =
      let u = (m.streams c.stream).spec.split_until in
      ground (
        arith,
        ==_iff k c.stream,
        count-append k m.ready (split_children c u),
        count-split_children k c u,
      )

  starting_error-IsAccounted :
      (now : Time) (e : Option Error) (c : Chunk) (m : Mgr)
      → HasRoom c m
      → IsAccounted k (starting_error now e c m)
  unfolding HasRoom left own
  starting_error-IsAccounted now (some reduce_parallel) c m h =
      make_ready-IsAccounted c (record m { parallel = (decrease now m.parallel).0 })
        (unfold HasRoom left own in h)
  starting_error-IsAccounted now _ c m h =
      kill_stream-IsAccounted (mark_started c) m (omega (arith, h))

  polling_error-IsAccounted :
      (e : Option Error) (c : Chunk) (m : Mgr) → HasRoom c m → IsAccounted k (polling_error e c m)
  unfolding HasRoom left own stop_chunk_of
  polling_error-IsAccounted (some restart_chunk) c m h =
      make_ready-IsAccounted (record c { chunk_id = c.chunk_id ++ codes "R"; err = none }) m h
  polling_error-IsAccounted (some split_chunk) c m h =
      handle_chunk_completion-IsAccounted (record c { err = none }) (split_chunk_of c m)
        (split_chunk_of-HasRoom c m h)
  polling_error-IsAccounted (some stop_chunk) c m h = omega (arith, h)
  polling_error-IsAccounted (some (unexpected_query query_id text cause)) c m h =
      kill_stream-IsAccounted (add_failed c) (stop_chunk_of (add_failed c) m) (omega (arith, h))
  polling_error-IsAccounted _ c m h = kill_stream-IsAccounted (add_failed c) m (omega (arith, h))

  chunk_started-IsAccounted :
      (now : Time) (c : Chunk) (m : Mgr)
      → HasRoom c m
      → IsAccounted k (handle_chunk_started now c m)
  unfolding handle_chunk_started HasRoom left own count mark_started add_started add_failed
  chunk_started-IsAccounted now c m h =
      ground (arith, h, count-append k m.poll (record (mark_started c) { state = polling } ∷ []))

  pub handle_chunk-IsAccounted :
      (now : Time) (c : Chunk) (m m' : Mgr)
      → HasRoom c m
      → handle_chunk now c m ≡ some m'
      → IsAccounted k m'
  unfolding handle_chunk handle_starting_error handle_polling_error HasRoom left own
  handle_chunk-IsAccounted now c m m' h r =
      let m1 = record m { num_starting = m.num_starting - 1 } in
      let m2 = record m { num_polling = m.num_polling - 1 } in
      let m3 = record m1 { num_polling = m.num_polling + 1 } in
      ground (
        arith,
        starting_error-IsAccounted now c.err c m1 h,
        polling_error-IsAccounted c.err c m2 h,
        chunk_started-IsAccounted now c m3 h,
        handle_chunk_completion-IsAccounted c m2 h,
      )

  pub count-remove :
      (before after : List Chunk) (sent c : Chunk)
      → c.stream ≡ sent.stream
      → count k (before ++ sent ∷ after) ≡ count k (before ++ after) + own c
  unfolding count own
  count-remove before after sent c e =
      rw e (omega (arith, count-append k before (sent ∷ after), count-append k before after))
