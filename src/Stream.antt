-- ===== src/Stream.antt =====
-- The stream type and its methods (stream.go), and the parts of a query that it keeps.
pub mod Reading
pub mod Queue
use incite.Base.{
  ℕ, zero, suc, ◌+◌, Bool, true, false, not, ◌&&◌, ◌||◌, Option, none, some, List, [], ◌∷◌, ◌++◌,
  ltb, ◌==◌, if◌then◌else◌, Text, drop, length,
}
use incite.Base.Int.{ℤ, pos, eq_ℤ, ◌*ℤ◌, ◌-ℤ◌}
use incite.Clock.{Time, Duration, int64, time_add, time_sub, truncate}
use incite.Stats.{Stats, add, zero_stats}
use incite.Errors.{Error, closed}

pub record QuerySpec : Type 0 where
  pub text : Text
  pub groups : List Text
  pub start : Time
  pub end : Time
  pub limit : ℤ
  pub chunk : Duration
  pub preview : Bool
  pub priority : ℤ
  pub split_until : Duration

pub record ResultField : Type 0 where
  pub field : Text
  pub value : Text

abbrev pub Row : Type 0
Row = List ResultField

-- `signals` counts the calls of more.Signal; the contexts and the locks are not represented.
pub record Stream : Type 0 where
  pub spec : QuerySpec
  pub n0 : ℕ
  pub next : ℕ
  pub m : ℕ
  pub n : ℕ
  pub stats : Stats
  pub blocks : List (List Row)
  pub i : ℕ
  pub j : ℕ
  pub err : Option Error
  pub signals : ℕ

-- s.err == ErrClosed.
unfoldable pub is_closed : Option Error → Bool
is_closed none = false
is_closed (some closed) = true
is_closed (some _) = false

unfoldable pub set_err : Stream → Option Error → Stats → Stream × Bool
unfolding is_closed
set_err s err stats =
    if is_closed s.err
    then (s, false)
    else (record s { err = err; stats = add s.stats stats; signals = s.signals + 1 }, true)

unfoldable pub alive : Stream → Bool
alive s = elim s.err [ none ↦ true | some e ↦ false ]

-- The error result is `some closed` when the stream was closed before.
unfoldable pub close : Stream → Stream × Option Error
unfolding set_err
close s =
    let (s', done) = set_err s (some closed) zero_stats in
    if done then (record s' { blocks = []; i = 0; j = 0 }, none) else (s', some closed)

-- The inner loop of read, over the rows from index j of a block. `full` is its early return.
pub record Copied : Type 0 where
  pub out : List Row
  pub room : ℕ
  pub j : ℕ
  pub full : Bool

unfoldable pub read_block : ℕ → ℕ → List Row → Copied
read_block room j [] = record { out = []; room = room; j = j; full = false }
read_block zero j (x ∷ xs) = record { out = []; room = 0; j = j; full = true }
read_block (suc room) j (x ∷ xs) =
    let rest = read_block room (j + 1) xs in record rest { out = x ∷ rest.out }

-- The outer loop, over the blocks from index i.
pub record Delivered : Type 0 where
  pub out : List Row
  pub i : ℕ
  pub j : ℕ
  pub full : Bool

unfoldable pub read_blocks : ℕ → ℕ → ℕ → List (List Row) → Delivered
unfolding read_block
read_blocks room i j [] = record { out = []; i = i; j = j; full = false }
read_blocks room i j (b ∷ bs) =
    let c = read_block room j (drop j b) in
    let rest = read_blocks c.room (i + 1) 0 bs in
    if c.full
    then record { out = c.out; i = i; j = c.j; full = true }
    else record rest { out = c.out ++ rest.out }

pub record ReadResult : Type 0 where
  pub rows : List Row
  pub err : Option Error

-- s.read into a buffer of `room` results.
unfoldable pub read : Stream → ℕ → Stream × ReadResult
unfolding read_blocks
read s room =
    let d = read_blocks room s.i s.j (drop s.i s.blocks) in
    (record s { i = d.i; j = d.j }, record { rows = d.out; err = if d.full then none else s.err })

-- The condition on which Read returns rather than waits for a signal.
unfoldable pub returns : ReadResult → ℕ → Bool
returns r room = ltb 0 (length r.rows) || elim r.err [ none ↦ false | some e ↦ true ] || room == 0

-- Read. While it waits, the change at the head of the list is made to the stream; none when it
-- still waits after the last change.
unfoldable pub blocking_read : List (Stream → Stream) → Stream → ℕ → Option (Stream × ReadResult)
unfolding read returns
blocking_read [] s room = let (s', r) = read s room in if returns r room then some (s', r) else none
blocking_read (change ∷ changes) s room =
    let (s', r) = read s room in
    let later = blocking_read changes (change s') room in
    if returns r room then some (s', r) else later

-- The ends of a chunk of a multi-chunk query before they are cut to the query's range.
unfoldable pub aligned_end : Time → ℕ → Duration → Time
aligned_end start next chunk = truncate (time_add start (int64 (pos (1 + next) *ℤ chunk))) chunk

unfoldable pub aligned_start : Time → Duration → Time
aligned_start end chunk = time_add end (int64 (pos 0 -ℤ chunk))

-- The range of the next chunk to start.
unfoldable pub next_chunk_range : Stream → Time × Time
next_chunk_range s =
    let q = s.spec in
    let end = aligned_end q.start s.next q.chunk in
    let start = aligned_start end q.chunk in
    if s.n0 == 1 && eq_ℤ q.chunk (time_sub q.end q.start)
    then (q.start, q.end)
    else (if ltb start q.start then q.start else start, if not (ltb end q.end) then q.end else end)
