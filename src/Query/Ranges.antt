-- ===== src/Query/Ranges.antt =====
-- The ranges of the generation 0 chunks of a query (stream.go, nextChunkRange, with the number
-- of chunks from mgr.go, Query).
use native.Mathlib.Nat.{
  add-mul-mod_self_right, mul-mod_left, mod-lt, mod-le, mul-div_cancel, div-lt_iff_lt-mul,
  lt-div-mul-add, mod-add-div,
}
use native.Mathlib.Decide.{dec_lt}
use incite.Base.{
  ℕ, ◌+◌, ◌-◌, ◌*◌, ◌/◌, ◌%◌, ◌≤◌, ◌<◌, min, max, ◌≡◌, ◌≢◌, refl, ap, Bool, true, false, ◌&&◌,
  arith, ◌==◌, Bool-cases, inl, inr,
}
use incite.Base.Int.{pos, negsuc, ◌*ℤ◌, ◌-ℤ◌, eq_ℤ}
use incite.Clock.{Time, max_duration, int64, time_add, time_sub, truncate, quot}
use incite.Stream.{Stream, next_chunk_range, aligned_end, aligned_start}
use incite.Query.{chunk_count}

-- The multiple of the chunk size at or below a time.
abbrev pub floor : ℕ → ℕ → ℕ
floor t c = t - t % c

abbrev pub ceil : ℕ → ℕ → ℕ
ceil t c = floor (t + (c - 1)) c

int64-small : (n : ℕ) → n ≤ max_duration → int64 (pos n) ≡ pos n
unfolding int64
int64-small n h = ground arith

int64_negated : (c : ℕ) → 0 < c → c ≤ max_duration → int64 (pos 0 -ℤ pos c) ≡ negsuc (c - 1)
unfolding int64 ◌-ℤ◌
int64_negated c p h = ground arith

truncate-pos : (t c : ℕ) → 0 < c → truncate t (pos c) ≡ floor t c
unfolding truncate
truncate-pos t c p = ground arith

time_add-pos : (t d : ℕ) → time_add t (pos d) ≡ t + d
unfolding time_add
time_add-pos t d = refl

times-pos : (a b : ℕ) → pos a *ℤ pos b ≡ pos (a * b)
unfolding ◌*ℤ◌
times-pos a b = ground arith

time_add-negsuc : (t c : ℕ) → 0 < c → time_add t (negsuc (c - 1)) ≡ t - c
unfolding time_add
time_add-negsuc t c h = omega arith

aligned_end_lem :
    (start k c : ℕ)
    → 0 < c
    → (1 + k) * c ≤ max_duration
    → aligned_end start k (pos c) ≡ floor start c + (1 + k) * c
unfolding aligned_end
aligned_end_lem start k c p h =
    rw (times-pos (1 + k) c, int64-small ((1 + k) * c) h, time_add-pos, truncate-pos _ c p)
      (omega (arith, add-mul-mod_self_right start (1 + k) c, mod-le start c))

aligned_start_lem : (end c : ℕ) → 0 < c → c ≤ max_duration → aligned_start end (pos c) ≡ end - c
unfolding aligned_start
aligned_start_lem end c p h = rw (int64_negated c p h, time_add-negsuc end c p)

-- The range of chunk k of a multi-chunk query, over natural numbers.
abbrev pub start_of : ℕ → ℕ → ℕ → ℕ
start_of start c k = max start (floor start c + k * c)

abbrev pub end_of : ℕ → ℕ → ℕ → ℕ → ℕ
end_of start end c k = min end (floor start c + (1 + k) * c)

unfoldable pub is_single : Stream → Bool
is_single s = s.n0 == 1 && eq_ℤ s.spec.chunk (time_sub s.spec.end s.spec.start)

pub next_chunk_range-single :
    (s : Stream) → is_single s ≡ true → next_chunk_range s ≡ (s.spec.start, s.spec.end)
unfolding next_chunk_range is_single
next_chunk_range-single s h = rw h

pub next_chunk_range-multi :
    (s : Stream) (c : ℕ)
    → s.spec.chunk ≡ pos c
    → 0 < c
    → (1 + s.next) * c ≤ max_duration
    → is_single s ≡ false
    → next_chunk_range s ≡ (start_of s.spec.start c s.next, end_of s.spec.start s.spec.end c s.next)
unfolding next_chunk_range is_single
next_chunk_range-multi s c e p h multi =
    let small : c ≤ max_duration = grind arith in
    rw (multi, e, aligned_end_lem s.spec.start s.next c p h, aligned_start_lem _ c p small)
      (ground arith)

floor-mul : (t c : ℕ) → floor t c ≡ t / c * c
floor-mul t c = omega (arith, mod-add-div t c)

minus_one : (c : ℕ) → 0 < c → c ≤ max_duration → int64 (pos c -ℤ pos 1) ≡ pos (c - 1)
unfolding int64 ◌-ℤ◌
minus_one c p h = ground arith

time_sub-backward : (t u : ℕ) → u ≤ t → t - u ≤ max_duration → time_sub t u ≡ pos (t - u)
unfolding time_sub
time_sub-backward t u h k = ground arith

pub ceil_bounds : (t c : ℕ) → 0 < c → (t ≤ ceil t c) × (ceil t c < t + c)
ceil_bounds t c p = omega (arith, mod-lt (t + (c - 1)) p)

pub floor_bounds : (t c : ℕ) → 0 < c → (floor t c ≤ t) × (t < floor t c + c)
floor_bounds t c p = omega (arith, mod-lt t p)

multiple-div : (q r c : ℕ) → 0 < c → r ≤ q → r * c + (q * c - r * c) / c * c ≡ q * c
multiple-div q r c p h =
    let parts : q ≡ q - r + r = omega arith in
    let scaled = ap (λ (t : ℕ). t * c) parts in
    let e : q * c - r * c ≡ (q - r) * c = omega (arith, scaled) in
    rw (e, mul-div_cancel (q - r) p) (omega (arith, scaled))

div_mono : (a b c : ℕ) → 0 < c → a ≤ b → a / c ≤ b / c
div_mono a b c p h =
    let above : a < (b / c + 1) * c = omega (arith, lt-div-mul-add {a = b} p) in
    omega (arith, (div-lt_iff_lt-mul p).1 above)

-- The number of chunks of a multi-chunk query spans the range from floor to ceiling.
pub chunk_count_lem :
    (start end d c : ℕ)
    → 0 < c
    → c ≢ d
    → start < end
    → end - start + c + c ≤ max_duration
    → floor start c + chunk_count start end (pos d) (pos c) * c ≡ ceil end c
unfolding chunk_count quot
chunk_count_lem start end d c p ne h fits =
    let x = floor start c in
    let y = ceil end c in
    let low = floor_bounds start c p in
    let high = ceil_bounds end c p in
    let differs : (c + 0 == d + 0) ≡ false = ground arith in
    rw
      (
        differs,
        minus_one c p (omega arith),
        time_add-pos,
        truncate-pos start c p,
        truncate-pos (end + (c - 1)) c p,
        time_sub-backward y x (omega arith) (omega arith),
      )
      (rw (floor-mul start c, floor-mul (end + (c - 1)) c)
        (multiple-div ((end + (c - 1)) / c) (start / c) c p
          (div_mono start (end + (c - 1)) c p (omega arith))))

pub scale : (a b c : ℕ) → a ≤ b → a * c ≤ b * c
scale a b c h = grind arith

next_multiple : (a b c : ℕ) → b * c < a * c → b * c + c ≤ a * c
next_multiple a b c h = elim (dec_lt b a) [
  | yes lt ↦ omega (arith, scale (b + 1) a c (omega (arith, lt)))
  | no ge ↦ absurd (omega (arith, h, scale a b c (omega (arith, ge))))
]

quot-positive : (c y : ℕ) → 0 < c → c ≤ y → 0 < y / c
quot-positive c y p h = elim (dec_lt 0 (y / c)) [
  | yes some ↦ some
  | no none ↦ absurd (omega (arith, h, lt-div-mul-add {a = y} p, scale (y / c) 0 c (omega arith)))
]

time_sub-at_least :
    (t u c : ℕ) → u + c ≤ t → c ≤ max_duration → (n : ℕ) × (time_sub t u ≡ pos n) × (c ≤ n)
unfolding time_sub
time_sub-at_least t u c h k = (min (t - u) max_duration, ground arith, omega (arith, h, k))

-- A query has at least one chunk, also when its range does not fit a duration.
pub chunk_count-positive :
    (start end d c : ℕ)
    → 0 < c
    → c ≤ max_duration
    → start < end
    → 0 < chunk_count start end (pos d) (pos c)
unfolding chunk_count quot
chunk_count-positive start end d c p fits h = elim (Bool-cases (c + 0 == d + 0)) [
  | inl e ↦ rw e (omega arith)
  | inr e ↦
      let low = floor_bounds start c p in
      let high = ceil_bounds end c p in
      let apart : floor start c + c ≤ ceil end c =
        rw (floor-mul start c, floor-mul (end + (c - 1)) c)
          (next_multiple ((end + (c - 1)) / c) (start / c) c
            (omega (arith, low, high, h, floor-mul start c, floor-mul (end + (c - 1)) c))) in
      let (n, made, more) = time_sub-at_least (ceil end c) (floor start c) c apart fits in
      rw
        (
          e,
          minus_one c p fits,
          time_add-pos,
          truncate-pos start c p,
          truncate-pos (end + (c - 1)) c p,
          made,
        )
        (quot-positive c n p more)
]

-- The ranges of n chunks are contiguous, not empty, and cover the range from start to end; the
-- boundaries between them are multiples of the chunk size.
pub record IsPartition (range : ℕ → ℕ × ℕ) (n start end c : ℕ) : Type 0 where
  pub some_chunk : 0 < n
  pub begins : (range 0).0 ≡ start
  pub finishes : (range (n - 1)).1 ≡ end
  pub contiguous : (k : ℕ) → k + 1 < n → (range k).1 ≡ (range (k + 1)).0
  pub aligned : (k : ℕ) → k + 1 < n → (range k).1 % c ≡ 0
  pub not_empty : (k : ℕ) → k < n → (range k).0 < (range k).1

module _ (start end c n : ℕ) (p : 0 < c) (h : start < end)
    (spans : floor start c + n * c ≡ ceil end c) where
  some_chunk_lem : 0 < n
  some_chunk_lem = elim (dec_lt 0 n) [
    | yes some ↦ some
    | no none ↦
        absurd
          (omega (arith, scale n 0 c (omega arith), floor_bounds start c p, ceil_bounds end c p))
  ]

  below_end : (k : ℕ) → k + 1 < n → floor start c + (1 + k) * c < end
  below_end k lt = omega (arith, scale (k + 2) n c (omega arith), ceil_bounds end c p)

  above_start : (k : ℕ) → start < floor start c + (1 + k) * c
  above_start k = omega (arith, floor_bounds start c p)

  boundary : (k : ℕ) → k + 1 < n → end_of start end c k ≡ (start / c + (1 + k)) * c
  boundary k lt = omega (arith, below_end k lt, floor-mul start c)

  pub numbers-IsPartition :
      IsPartition (λ k. (start_of start c k, end_of start end c k)) n start end c
  numbers-IsPartition = record {
    some_chunk = some_chunk_lem;
    begins = omega (arith, floor_bounds start c p);
    finishes =
        let whole : 1 + (n - 1) ≡ n = omega (arith, some_chunk_lem) in
        rw whole (omega (arith, ceil_bounds end c p));
    contiguous = λ k lt. omega (arith, below_end k lt, above_start k);
    aligned = λ k lt. rw (boundary k lt) (mul-mod_left (start / c + (1 + k)) c);
    not_empty =
        λ k lt. omega (arith, scale (k + 1) n c (omega arith), above_start k, ceil_bounds end c p);
  }

-- The range of chunk k of a stream.
abbrev pub range : Stream → ℕ → Time × Time
range s k = next_chunk_range (record s { next = k })
