-- ===== src/Query/Checks.antt =====
-- The normal form of an accepted query.
use incite.Base.{
  ap, ◌∙◌, ℕ, ◌%◌, ◌≤◌, ◌<◌, ◌≡◌, ◌⊎◌, Bool, true, false, ltb→lt, none, [], arith, ltb, trim_space,
  min, ◌-◌,
}
use incite.Base.Int.{ℤ, negsuc, pos, pos_part}
use incite.Clock.{
  Time, Duration, millisecond, max_duration, time_sub, has_sub_millisecond, has_sub_millisecond_d,
  nanosecond,
}
use incite.Stream.{QuerySpec, Stream}
use incite.Query.{
  check_chunk, check_limit, check_split_until, chunk_count, new_stream, query, max_limit, is_empty,
  normal,
}
use incite.Errors.{ok}

sub_millisecond-aligned : (t : Time) → has_sub_millisecond t ≡ false → t % millisecond ≡ 0
unfolding has_sub_millisecond nanosecond
sub_millisecond-aligned t h = ground arith

-- What acceptance says of each check.
pub record IsAccepted (is_closed : Bool) (q : QuerySpec) (s : Stream) : Type 0 where
  pub is_open : is_closed ≡ false
  pub text_kept : s.spec.text ≡ trim_space q.text
  pub text_given : is_empty s.spec.text ≡ false
  pub start_checked : has_sub_millisecond q.start ≡ false
  pub end_checked : has_sub_millisecond q.end ≡ false
  pub ordered : ltb q.start q.end ≡ true
  pub groups_given : is_empty q.groups ≡ false
  pub chunk_checked : check_chunk (time_sub q.end q.start) q.chunk ≡ ok s.spec.chunk
  pub limit_checked : check_limit q.limit ≡ ok s.spec.limit
  pub split_checked :
      check_split_until q.split_until s.spec.chunk q.preview s.spec.limit ≡ ok s.spec.split_until
  pub made :
      s
      ≡ new_stream
          (normal q s.spec.text s.spec.chunk s.spec.limit s.spec.split_until)
          (chunk_count q.start q.end (time_sub q.end q.start) s.spec.chunk)
          (time_sub q.end q.start)

pub query-IsAccepted :
    (is_closed : Bool) (q : QuerySpec) (s : Stream)
    → query is_closed q ≡ ok s
    → IsAccepted is_closed q s
unfolding query new_stream
query-IsAccepted is_closed q s h = ground arith

-- The normal form that the other parts of the program rely on.
pub record IsNormal (s : Stream) : Type 0 where
  pub text_given : is_empty s.spec.text ≡ false
  pub groups_given : is_empty s.spec.groups ≡ false
  pub start_aligned : s.spec.start % millisecond ≡ 0
  pub end_aligned : s.spec.end % millisecond ≡ 0
  pub ordered : s.spec.start < s.spec.end
  pub chunk_pos : s.spec.chunk ≡ pos (pos_part s.spec.chunk)
  pub chunk_range :
      (0 < pos_part s.spec.chunk) × (pos_part s.spec.chunk ≤ s.spec.end - s.spec.start)
  pub chunk_aligned :
      (s.spec.chunk ≡ time_sub s.spec.end s.spec.start) ⊎ (pos_part s.spec.chunk % millisecond ≡ 0)
  pub limit_pos : s.spec.limit ≡ pos (pos_part s.spec.limit)
  pub limit_range : (0 < pos_part s.spec.limit) × (pos_part s.spec.limit ≤ max_limit)
  pub split_pos : s.spec.split_until ≡ pos (pos_part s.spec.split_until)
  pub split_range : 0 < pos_part s.spec.split_until
  pub split_allowed :
      (s.spec.split_until ≡ s.spec.chunk)
      ⊎ ((s.spec.preview ≡ false)
          × (s.spec.limit ≡ pos max_limit)
          × (pos_part s.spec.split_until % millisecond ≡ 0))
  pub fresh : (s.next ≡ 0) × (s.m ≡ 0) × (s.n ≡ s.n0) × (s.err ≡ none) × (s.blocks ≡ [])

pub check_chunk_lem :
    (d : ℕ) (chunk c : Duration)
    → 0 < d
    → check_chunk (pos d) chunk ≡ ok c
    → (c ≡ pos (pos_part c))
      × (0 < pos_part c)
      × (pos_part c ≤ d)
      × ((c ≡ pos d) ⊎ (pos_part c % millisecond ≡ 0))
unfolding check_chunk has_sub_millisecond_d
check_chunk_lem d chunk c p h = ground arith

pub check_limit_lem :
    (limit l : ℤ)
    → check_limit limit ≡ ok l
    → (l ≡ pos (pos_part l)) × (0 < pos_part l) × (pos_part l ≤ max_limit)
unfolding check_limit
check_limit_lem limit l h = ground arith

check_split_until_lem :
    (split c r : Duration) (preview : Bool) (limit : ℤ)
    → c ≡ pos (pos_part c)
    → 0 < pos_part c
    → limit ≡ pos (pos_part limit)
    → pos_part limit ≤ max_limit
    → check_split_until split c preview limit ≡ ok r
    → (r ≡ pos (pos_part r))
      × (0 < pos_part r)
      × ((r ≡ c) ⊎ ((preview ≡ false) × (limit ≡ pos max_limit) × (pos_part r % millisecond ≡ 0)))
unfolding check_split_until has_sub_millisecond_d
check_split_until_lem split c r preview limit p q l m h = ground arith

pub time_sub-forward : (s e : Time) → s < e → (time_sub e s ≡ pos (min (e - s) max_duration))
unfolding time_sub
time_sub-forward s e h = ground arith

accepted-IsNormal :
    (is_closed : Bool) (q : QuerySpec) (s : Stream) → query is_closed q ≡ ok s → IsNormal s
unfolding new_stream
accepted-IsNormal is_closed q s h =
    let a = query-IsAccepted is_closed q s h in
    let d = min (q.end - q.start) max_duration in
    let e = time_sub-forward q.start q.end (ltb→lt _ _ a.ordered) in
    let p : 0 < d = omega (arith, ltb→lt _ _ a.ordered) in
    let c = check_chunk_lem d q.chunk s.spec.chunk p (rw (← e) a.chunk_checked) in
    let l = check_limit_lem q.limit s.spec.limit a.limit_checked in
    let r =
      check_split_until_lem q.split_until s.spec.chunk s.spec.split_until q.preview s.spec.limit c.0
        c.1 l.0 l.2 a.split_checked in
    ground (
      arith,
      a,
      e,
      c,
      l,
      r,
      sub_millisecond-aligned q.start a.start_checked,
      sub_millisecond-aligned q.end a.end_checked,
    )

-- How the stream of a query follows from it: its text without the spaces around it, the settings
-- that are given (a chunk size beyond the range is cut to it), and else the whole range as one chunk,
-- 1000 results, and no splitting.
pub record IsSettled (q : QuerySpec) (s : Stream) : Type 0 where
  pub others : s.spec ≡ record q {
    text = trim_space q.text;
    chunk = s.spec.chunk;
    limit = s.spec.limit;
    split_until = s.spec.split_until;
  }
  pub chunk_given :
      0 < pos_part q.chunk
      → s.spec.chunk ≡ pos (min (pos_part q.chunk) (min (q.end - q.start) max_duration))
  pub chunk_missing : pos_part q.chunk ≡ 0 → s.spec.chunk ≡ pos (min (q.end - q.start) max_duration)
  pub limit_given : 0 < pos_part q.limit → s.spec.limit ≡ q.limit
  pub limit_missing : pos_part q.limit ≡ 0 → s.spec.limit ≡ pos 1000
  pub split_given : 0 < pos_part q.split_until → s.spec.split_until ≡ q.split_until
  pub split_missing : pos_part q.split_until ≡ 0 → s.spec.split_until ≡ s.spec.chunk

check_chunk-settled :
    (d : ℕ) (chunk c : Duration)
    → check_chunk (pos d) chunk ≡ ok c
    → (0 < pos_part chunk → c ≡ pos (min (pos_part chunk) d)) × (pos_part chunk ≡ 0 → c ≡ pos d)
unfolding check_chunk
check_chunk-settled d (pos n) c h = (λ p. ground arith, λ p. ground arith)
check_chunk-settled d (negsuc n) c h = (λ p. ground arith, λ p. ground arith)

check_limit-settled :
    (limit l : ℤ)
    → check_limit limit ≡ ok l
    → (0 < pos_part limit → l ≡ limit) × (pos_part limit ≡ 0 → l ≡ pos 1000)
unfolding check_limit
check_limit-settled (pos n) l h = (λ p. ground arith, λ p. ground arith)
check_limit-settled (negsuc n) l h = (λ p. ground arith, λ p. ground arith)

check_split_until-settled :
    (split c r : Duration) (preview : Bool) (limit : ℤ)
    → check_split_until split c preview limit ≡ ok r
    → (0 < pos_part split → r ≡ split) × (pos_part split ≡ 0 → r ≡ c)
unfolding check_split_until
check_split_until-settled (pos n) c r preview limit h = (λ p. ground arith, λ p. ground arith)
check_split_until-settled (negsuc n) c r preview limit h = (λ p. ground arith, λ p. ground arith)

accepted-IsSettled :
    (is_closed : Bool) (q : QuerySpec) (s : Stream) → query is_closed q ≡ ok s → IsSettled q s
unfolding new_stream
accepted-IsSettled is_closed q s h =
    let a = query-IsAccepted is_closed q s h in
    let e = time_sub-forward q.start q.end (ltb→lt _ _ a.ordered) in
    let chunk = check_chunk-settled _ q.chunk s.spec.chunk (rw (← e) a.chunk_checked) in
    let limit = check_limit-settled q.limit s.spec.limit a.limit_checked in
    let split = check_split_until-settled q.split_until _ _ q.preview _ a.split_checked in
    record {
      others =
          ap (λ (t : Stream). t.spec) a.made
          ∙ ap (λ t. normal q t s.spec.chunk s.spec.limit s.spec.split_until) a.text_kept;
      chunk_given = chunk.0;
      chunk_missing = chunk.1;
      limit_given = limit.0;
      limit_missing = limit.1;
      split_given = split.0;
      split_missing = split.1;
    }

-- A query that is accepted gives a stream in normal form: the text is that of the query without
-- the spaces around it, and not empty; the settings are those that the query gives, or else the
-- whole range as one chunk, 1000 results, and no splitting; the range is of whole milliseconds, the
-- chunk size between one nanosecond and the range, the limit one that the service takes, and the
-- split bound used only where splitting is allowed.
pub query-IsNormal :
    (is_closed : Bool) (q : QuerySpec) (s : Stream)
    → query is_closed q ≡ ok s
    → IsSettled q s × IsNormal s
query-IsNormal is_closed q s h =
    (accepted-IsSettled is_closed q s h, accepted-IsNormal is_closed q s h)
