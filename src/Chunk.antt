-- ===== src/Chunk.antt =====
-- The chunk type and its methods (chunk.go), and the splitting of a chunk (mgr.go, splitChunk).
pub mod Splitting
use incite.Base.{
  ℕ, zero, suc, ◌+◌, ◌-◌, ◌*◌, ◌/◌, ◌%◌, Bool, true, false, Option, none, some, List, [], ◌∷◌, ◌++◌,
  ltb, ◌==◌, if◌then◌else◌, Text, codes, length,
}
use incite.Base.Int.{ℤ, pos, pos_part, ◌+ℤ◌, ltb_ℤ}
use incite.Clock.{
  Time, Duration, millisecond, int64, time_add, time_sub, quot, round, has_sub_millisecond_d,
}
use incite.Stats.{Stats, zero_stats, plus}
use incite.Errors.{Error}

pub data ChunkState : Type 0 where
  created starting started polling complete stopping stopped : ChunkState

-- `stream` is the number of the stream that owns the chunk. `ptr` lists the keys of the map, and
-- is none when the query has no preview. The context is not represented.
pub record Chunk : Type 0 where
  pub stats : Stats
  pub stream : ℕ
  pub gen : ℕ
  pub chunk_id : Text
  pub query_id : Text
  pub ptr : Option (List Text)
  pub start : Time
  pub end : Time
  pub state : ChunkState
  pub err : Option Error
  pub try : ℕ
  pub tmp : ℕ
  pub restart : ℕ

unfoldable pub duration : Chunk → Duration
duration c = time_sub c.end c.start

abbrev pub is_some {ℓ} : {A : Type ℓ} → Option A → Bool
is_some none = false
is_some (some a) = true

-- c.RangeFailed += c.duration().
unfoldable pub add_failed : Chunk → Chunk
add_failed c = record c {
  stats = record (c.stats) { range_failed = plus c.stats.range_failed (duration c) };
}

-- c.RangeStarted += c.duration().
unfoldable pub add_started : Chunk → Chunk
add_started c = record c {
  stats = record (c.stats) { range_started = plus c.stats.range_started (duration c) };
}

-- The method started. (The constructor of that name is a state.)
unfoldable pub mark_started : Chunk → Chunk
unfolding add_started add_failed
mark_started c =
    let c' = if c.gen == 0 then add_started c else c in if is_some c'.err then add_failed c' else c'

-- strconv.Itoa of a number that is not negative.
unfoldable pub itoa_from : ℕ → ℕ → Text → Text
itoa_from zero n digits = digits
itoa_from (suc fuel) n digits =
    let digits' = (48 + n % 10) ∷ digits in
    let more = itoa_from fuel (n / 10) digits' in if n / 10 == 0 then digits' else more

unfoldable pub itoa : ℕ → Text
unfolding itoa_from
itoa n = itoa_from (suc n) n []

abbrev new_chunk : ℕ → ℕ → Text → Time → Time → Option (List Text) → Chunk
new_chunk stream gen chunk_id start end ptr = record {
  stats = zero_stats;
  stream = stream;
  gen = gen;
  chunk_id = chunk_id;
  query_id = [];
  ptr = ptr;
  start = start;
  end = end;
  state = created;
  err = none;
  try = 0;
  tmp = 0;
  restart = 0;
}

-- The chunk that getReadyChunk makes of a stream's next range.
unfoldable pub first_chunk : ℕ → ℕ → Time × Time → Bool → Chunk
unfolding itoa
first_chunk stream next (start, end) preview =
    new_chunk stream 0 (itoa next) start end (if preview then some [] else none)

unfoldable pub split : Chunk → Time → Duration → ℕ → Chunk
unfolding itoa
split c start frac n =
    let end = time_add start frac in
    new_chunk c.stream (c.gen + 1) (c.chunk_id ++ codes "s" ++ itoa n) start
      (if ltb c.end end then c.end else end) none

abbrev pub split_bits : ℕ
split_bits = 4

-- The length of the children of a chunk of length d.
unfoldable pub split_frac : Duration → Duration → Duration
split_frac d split_until =
    let frac = quot d (pos split_bits) in
    if ltb_ℤ frac split_until
    then split_until
    else if has_sub_millisecond_d frac
    then round (int64 (frac +ℤ pos (millisecond / 2))) millisecond
    else frac

-- The loop that makes the children, from the one numbered n on, which starts at `start`.
unfoldable pub split_from : ℕ → Chunk → Duration → Time → ℕ → List Chunk
split_from zero c frac start n = []
split_from (suc fuel) c frac start n =
    let child = split c start frac n in
    let rest = split_from fuel c frac child.end (n + 1) in
    child ∷ (if ltb child.end c.end then rest else [])

-- The children, in order. A nanosecond at least passes with each, so the fuel is enough.
unfoldable pub split_children : Chunk → Duration → List Chunk
unfolding split_from
split_children c split_until =
    split_from (suc (c.end - c.start)) c (split_frac (duration c) split_until) c.start 0
