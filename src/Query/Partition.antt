-- ===== src/Query/Partition.antt =====
-- The chunks of a query cover its range exactly once.
use incite.Base.{
  ℕ, ◌+◌, ◌-◌, ◌*◌, ◌≤◌, ◌<◌, ◌≡◌, refl, ap, sym, subst, inl, inr, Bool, Bool-cases, arith, ◌==◌,
  ==_iff, ◌&&◌, ◌∙◌, min, ltb→lt,
}
use incite.Base.Int.{pos, pos_part}
use incite.Clock.{max_duration, time_sub}
use incite.Stream.{QuerySpec, Stream}
use incite.Query.{query, chunk_count, new_stream}
use incite.Errors.{ok}
use incite.Query.Checks.{query-IsAccepted, query-IsNormal, check_chunk_lem, time_sub-forward}
use incite.Query.Ranges.{
  IsPartition, range, is_single, next_chunk_range-single, next_chunk_range-multi, chunk_count_lem,
  chunk_count-positive, numbers-IsPartition, ceil_bounds, floor_bounds, scale, floor, ceil,
}

-- The chunk size, as a number of nanoseconds.
abbrev pub size_of : Stream → ℕ
size_of s = pos_part s.spec.chunk

-- The range and two chunks fit a duration. (A duration spans some 292 years.)
abbrev pub Fits : Stream → Type 0
Fits s = s.spec.end - s.spec.start + size_of s + size_of s ≤ max_duration

IsPartition-ext :
    (r r' : ℕ → ℕ × ℕ) (n start end c : ℕ)
    → ((k : ℕ) → k < n → r k ≡ r' k)
    → IsPartition r' n start end c
    → IsPartition r n start end c
IsPartition-ext r r' n start end c same p =
    let some = p.some_chunk in
    record {
      some_chunk = some;
      begins = rw (same 0 some) p.begins;
      finishes = rw (same (n - 1) (omega arith)) p.finishes;
      contiguous = λ k lt. rw (same k (omega arith), same (k + 1) lt) (p.contiguous k lt);
      aligned = λ k lt. rw (same k (omega arith)) (p.aligned k lt);
      not_empty = λ k lt. rw (same k lt) (p.not_empty k lt);
    }

single-IsPartition : (start end c : ℕ) → start < end → IsPartition (λ k. (start, end)) 1 start end c
single-IsPartition start end c h = record {
  some_chunk = omega arith;
  begins = refl;
  finishes = refl;
  contiguous = λ k lt. absurd (omega arith);
  aligned = λ k lt. absurd (omega arith);
  not_empty = λ k lt. h;
}

-- What the two theorems of the file know of a stream.
record IsChunked (s : Stream) (c : ℕ) : Type 0 where
  positive : 0 < c
  chunk_eq : s.spec.chunk ≡ pos c
  ordered : s.spec.start < s.spec.end
  fits : s.spec.end - s.spec.start + c + c ≤ max_duration
  count_eq : s.n0 ≡ chunk_count s.spec.start s.spec.end (pos (s.spec.end - s.spec.start)) (pos c)

length_eq : (s e : ℕ) → s < e → e - s ≤ max_duration → time_sub e s ≡ pos (e - s)
unfolding time_sub
length_eq s e h k = ground arith

accepted-IsChunked :
    (is_closed : Bool) (q : QuerySpec) (s : Stream)
    → query is_closed q ≡ ok s
    → Fits s
    → IsChunked s (size_of s)
unfolding new_stream
accepted-IsChunked is_closed q s h fits =
    let a = query-IsAccepted is_closed q s h in
    let v = (query-IsNormal is_closed q s h).1 in
    let starts = ap (λ (t : Stream). t.spec.start) a.made in
    let ends = ap (λ (t : Stream). t.spec.end) a.made in
    let e = length_eq s.spec.start s.spec.end v.ordered (omega arith) in
    record {
      positive = v.chunk_range.0;
      chunk_eq = v.chunk_pos;
      ordered = v.ordered;
      fits = fits;
      count_eq = rw (← e, ← v.chunk_pos, starts, ends) (ap (λ (t : Stream). t.n0) a.made);
    }

is_single_lem :
    (s : Stream) (c d : ℕ)
    → s.spec.chunk ≡ pos c
    → time_sub s.spec.end s.spec.start ≡ pos d
    → is_single s ≡ (s.n0 == 1 && c == d)
unfolding is_single
is_single_lem s c d e h = rw (e, h) (ground arith)

chunk_count-single : (start end d : ℕ) → chunk_count start end (pos d) (pos d) ≡ 1
unfolding chunk_count
chunk_count-single start end d = ground arith

chunked-IsPartition :
    (s : Stream) (c : ℕ) → IsChunked s c → IsPartition (range s) s.n0 s.spec.start s.spec.end c
chunked-IsPartition s c h =
    let d = s.spec.end - s.spec.start in
    let e = length_eq s.spec.start s.spec.end h.ordered (omega arith) in
    let single = λ (k : ℕ). is_single_lem (record s { next = k }) c d h.chunk_eq e in
    elim (Bool-cases (c == d)) [
      | inl whole ↦
          let one : s.n0 ≡ 1 =
            h.count_eq ∙ rw ((==_iff c d).0 whole) (chunk_count-single s.spec.start s.spec.end d) in
          subst (λ (n : ℕ). IsPartition (range s) n s.spec.start s.spec.end c) (sym one)
            (IsPartition-ext (range s) (λ k. (s.spec.start, s.spec.end)) 1 s.spec.start s.spec.end c
              (λ k lt. next_chunk_range-single (record s { next = k }) (single k ∙ ground arith))
              (single-IsPartition s.spec.start s.spec.end c h.ordered))
      | inr parts ↦
          let spans : floor s.spec.start c + s.n0 * c ≡ ceil s.spec.end c = rw h.count_eq (
            chunk_count_lem s.spec.start s.spec.end d c h.positive (ground arith) h.ordered
              h.fits) in
          IsPartition-ext (range s) _ s.n0 s.spec.start s.spec.end c
            (λ k lt.
              next_chunk_range-multi (record s { next = k }) c h.chunk_eq h.positive
                (omega (
                  arith,
                  spans,
                  scale (1 + k) s.n0 c (omega arith),
                  ceil_bounds s.spec.end c h.positive,
                  floor_bounds s.spec.start c h.positive,
                ))
                (single k ∙ ground arith))
            (numbers-IsPartition s.spec.start s.spec.end c s.n0 h.positive h.ordered spans)
    ]

-- The chunks of an accepted query, in the order in which they are created, are contiguous and
-- not empty, begin and end where the query does, and meet at multiples of the chunk size, unless
-- the range is so long that it does not fit a duration together with two chunks.
pub query-IsPartition :
    (is_closed : Bool) (q : QuerySpec) (s : Stream)
    → query is_closed q ≡ ok s
    → Fits s
    → IsPartition (range s) s.n0 s.spec.start s.spec.end (size_of s)
query-IsPartition is_closed q s h fits =
    chunked-IsPartition s (size_of s) (accepted-IsChunked is_closed q s h fits)

-- A stream has a chunk to make at first.
pub query-has_chunk :
    (is_closed : Bool) (q : QuerySpec) (s : Stream) → query is_closed q ≡ ok s → 0 < s.n0
query-has_chunk is_closed q s h =
    let a = query-IsAccepted is_closed q s h in
    let ordered = ltb→lt q.start q.end a.ordered in
    let forward = time_sub-forward q.start q.end ordered in
    let d = min (q.end - q.start) max_duration in
    let (same, positive, small, _) =
      check_chunk_lem d q.chunk s.spec.chunk (omega (arith, ordered))
        (rw (← forward) a.chunk_checked) in
    subst (λ (t : Stream). 0 < t.n0) (sym a.made)
      (unfold new_stream in
        rw (forward, same)
          (chunk_count-positive q.start q.end d (size_of s) positive (omega (arith, small))
            ordered))
