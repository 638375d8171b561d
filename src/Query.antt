-- ===== src/Query.antt =====
-- mgr.Query (mgr.go): the checks on a query, its normal form, and the new stream.
pub mod Ranges
pub mod Checks
pub mod Refusals
pub mod Partition
use incite.Base.{
  ℕ, zero, suc, ◌+◌, Bool, true, false, not, ◌&&◌, none, some, List, [], ◌∷◌, ltb, ◌==◌,
  if◌then◌else◌, Text, length, trim_space,
}
use incite.Base.Int.{ℤ, pos, pos_part, ltb_ℤ, leb_ℤ, eq_ℤ, ◌-ℤ◌}
use incite.Clock.{
  Time, Duration, int64, time_add, time_sub, truncate, quot, has_sub_millisecond,
  has_sub_millisecond_d,
}
use incite.Stats.{zero_stats}
use incite.Errors.{
  Result, ok, err, ◌>>=◌, ◌>>◌, Error, closed, message, Message, text_blank, start_sub_millisecond,
  end_sub_millisecond, end_not_after_start, no_groups, exceeded_max_limit, chunk_sub_millisecond,
  split_until_sub_millisecond, split_until_with_preview, split_until_without_max_limit,
}
use incite.Stream.{QuerySpec, Stream}

abbrev pub default_limit : ℕ
default_limit = 1000

abbrev pub max_limit : ℕ
max_limit = 10000

-- `if bad { return nil, e }`.
abbrev pub refuse : Bool → Error → Result (Unit {0})
refuse true e = err e
refuse false e = ok tt

-- q.Chunk for a range of length d.
unfoldable pub check_chunk : Duration → Duration → Result Duration
check_chunk d chunk =
    if leb_ℤ chunk (pos 0)
    then ok d
    else if has_sub_millisecond_d chunk
    then err (message chunk_sub_millisecond)
    else if ltb_ℤ d chunk
    then ok d
    else ok chunk

-- The number of chunks that cover the range.
unfoldable pub chunk_count : Time → Time → Duration → Duration → ℕ
chunk_count start end d chunk =
    let x = truncate start chunk in
    let y = truncate (time_add end (int64 (chunk -ℤ pos 1))) chunk in
    if eq_ℤ chunk d then 1 else pos_part (quot (time_sub y x) chunk)

unfoldable pub check_limit : ℤ → Result ℤ
check_limit limit =
    if leb_ℤ limit (pos 0)
    then ok (pos default_limit)
    else if ltb_ℤ (pos max_limit) limit
    then err (message exceeded_max_limit)
    else ok limit

unfoldable pub check_split_until : Duration → Duration → Bool → ℤ → Result Duration
check_split_until split_until chunk preview limit =
    if leb_ℤ split_until (pos 0)
    then ok chunk
    else if has_sub_millisecond_d split_until
    then err (message split_until_sub_millisecond)
    else if preview
    then err (message split_until_with_preview)
    else if ltb_ℤ limit (pos max_limit)
    then err (message split_until_without_max_limit)
    else ok split_until

abbrev pub is_empty {ℓ} : {A : Type ℓ} → List A → Bool
is_empty [] = true
is_empty (x ∷ xs) = false

-- The assignments to the fields of the query.
abbrev pub normal : QuerySpec → Text → Duration → ℤ → Duration → QuerySpec
normal q text chunk limit split_until = record q {
  text = text;
  chunk = chunk;
  limit = limit;
  split_until = split_until;
}

-- The stream of a query in normal form.
unfoldable pub new_stream : QuerySpec → ℕ → Duration → Stream
new_stream q n d = record {
  spec = q;
  n0 = n;
  next = 0;
  m = 0;
  n = n;
  stats = record zero_stats { range_requested = d };
  blocks = [];
  i = 0;
  j = 0;
  err = none;
  signals = 0;
}

-- Query. A send on the closed channel of a closed manager panics, and is recovered as ErrClosed.
unfoldable pub query : Bool → QuerySpec → Result Stream
query is_closed q = do
  let text = trim_space q.text
  refuse (is_empty text) (message text_blank)
  refuse (has_sub_millisecond q.start) (message start_sub_millisecond)
  refuse (has_sub_millisecond q.end) (message end_sub_millisecond)
  refuse (not (ltb q.start q.end)) (message end_not_after_start)
  refuse (is_empty q.groups) (message no_groups)
  let d = time_sub q.end q.start
  chunk ← check_chunk d q.chunk
  let n = chunk_count q.start q.end d chunk
  limit ← check_limit q.limit
  split_until ← check_split_until q.split_until chunk q.preview limit
  refuse is_closed closed
  ok (new_stream (normal q text chunk limit split_until) n d)
