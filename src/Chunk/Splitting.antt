-- ===== src/Chunk/Splitting.antt =====
-- The children of a chunk cover its range exactly once, and are at most four.
use incite.Base.{
  ℕ, zero, suc, ◌+◌, ◌-◌, ◌*◌, ◌/◌, ◌%◌, ◌≤◌, ◌<◌, min, ◌≡◌, List, [], ◌∷◌, arith, ltb,
  if◌then◌else◌, length,
}
use incite.Base.Int.{pos, ◌+ℤ◌}
use incite.Clock.{
  Time, millisecond, max_duration, int64, time_add, time_sub, quot, round, has_sub_millisecond_d,
}
use incite.Chunk.{Chunk, duration, split, split_frac, split_from, split_children}

-- The chunks follow one another from a to b, and none is empty.
abbrev pub Covers : Time → Time → List Chunk → Type 0
Covers a b [] = a ≡ b
Covers a b (x ∷ xs) = (x.start ≡ a) × (x.start < x.end) × Covers x.end b xs

abbrev pub Children : Chunk → List Chunk → Type 0
Children c [] = Unit {0}
Children c (x ∷ xs) =
    (x.gen ≡ c.gen + 1)
    × (x.stream ≡ c.stream)
    × (x.start % millisecond ≡ 0)
    × (x.end % millisecond ≡ 0)
    × Children c xs

-- Every chunk but the last has the length f.
abbrev pub Even : ℕ → List Chunk → Type 0
Even f [] = Unit {0}
Even f (x ∷ []) = x.end - x.start ≤ f
Even f (x ∷ y ∷ xs) = (x.end - x.start ≡ f) × Even f (y ∷ xs)

module _ (c : Chunk) (f : ℕ) (p : 0 < f) where
  split_from-Covers :
      (fuel n start : ℕ)
      → start < c.end
      → c.end - start ≤ fuel
      → Covers start c.end (split_from fuel c (pos f) start n)
  unfolding split_from split time_add
  split_from-Covers zero n start h enough = absurd (omega arith)
  split_from-Covers (suc fuel) n start h enough =
      ground (arith, split_from-Covers fuel (n + 1) (start + f))

  split_from-length :
      (fuel n start k : ℕ)
      → start < c.end
      → c.end - start ≤ k * f
      → length (split_from fuel c (pos f) start n) ≤ k
  unfolding split_from split time_add
  split_from-length zero n start k h enough = omega arith
  split_from-length (suc fuel) n start zero h enough = absurd (omega arith)
  split_from-length (suc fuel) n start (suc k) h enough =
      ground (arith, split_from-length fuel (n + 1) (start + f) k)

  split_from-Children :
      (fuel n start : ℕ)
      → start % millisecond ≡ 0
      → c.end % millisecond ≡ 0
      → f % millisecond ≡ 0
      → Children c (split_from fuel c (pos f) start n)
  unfolding split_from split time_add
  split_from-Children zero n start h e g = tt
  split_from-Children (suc fuel) n start h e g =
      ground (arith, split_from-Children fuel (n + 1) (start + f))

  split_from-Even :
      (fuel n start : ℕ)
      → start < c.end
      → c.end - start ≤ fuel
      → Even f (split_from fuel c (pos f) start n)
  unfolding split_from split time_add
  split_from-Even zero n start h enough = tt
  split_from-Even (suc zero) n start h enough = ground arith
  split_from-Even (suc (suc fuel)) n start h enough =
      ground (arith, split_from-Even (suc fuel) (n + 1) (start + f))

  split_from-two :
      (fuel n start : ℕ)
      → 2 ≤ fuel
      → start + f < c.end
      → 2 ≤ length (split_from fuel c (pos f) start n)
  unfolding split_from split time_add
  split_from-two zero n start e h = absurd (omega arith)
  split_from-two (suc zero) n start e h = absurd (omega arith)
  split_from-two (suc (suc fuel)) n start e h = ground arith

  split_from-pair :
      (fuel n start : ℕ)
      → 2 ≤ fuel
      → start + f < c.end
      → c.end ≤ start + f + f
      → split_from fuel c (pos f) start n
        ≡ split c start (pos f) n ∷ split c (start + f) (pos f) (n + 1) ∷ []
  unfolding split_from split time_add
  split_from-pair zero n start e h k = absurd (omega arith)
  split_from-pair (suc zero) n start e h k = absurd (omega arith)
  split_from-pair (suc (suc fuel)) n start e h k = ground arith

  split-length :
      (start n : ℕ)
      → start < c.end
      → (split c start (pos f) n).end - (split c start (pos f) n).start ≡ min f (c.end - start)
  unfolding split time_add
  split-length start n h = ground arith

-- The length that splitChunk chooses for the children.
frac_of : ℕ → ℕ → ℕ
frac_of d u =
    if ltb (d / 4) u
    then u
    else if ltb 0 (d / 4 % millisecond)
    then d / 4 - d / 4 % millisecond + millisecond
    else d / 4

split_frac_lem :
    (d u : ℕ) → d + millisecond ≤ max_duration → split_frac (pos d) (pos u) ≡ pos (frac_of d u)
unfolding split_frac frac_of quot round has_sub_millisecond_d int64 ◌+ℤ◌
split_frac_lem d u h = ground arith

frac_of_bounds :
    (d u : ℕ)
    → 0 < d
    → d % millisecond ≡ 0
    → 0 < u
    → u % millisecond ≡ 0
    → (0 < frac_of d u)
      × (u ≤ frac_of d u)
      × (d ≤ 4 * frac_of d u)
      × (frac_of d u % millisecond ≡ 0)
      × (u < d → frac_of d u < d)
unfolding frac_of
frac_of_bounds d u p a q b = ground arith

frac_of-bound : (d u : ℕ) → d < 2 * u → frac_of d u ≡ u
unfolding frac_of
frac_of-bound d u h = ground arith

-- The chunks that a query with splitting can have: not empty, of whole milliseconds, and short
-- enough for a duration.
pub record IsSplittable (c : Chunk) : Type 0 where
  pub not_empty : c.start < c.end
  pub start_aligned : c.start % millisecond ≡ 0
  pub end_aligned : c.end % millisecond ≡ 0
  pub short : c.end - c.start + millisecond ≤ max_duration

pub duration_lem :
    (c : Chunk)
    → c.start < c.end
    → c.end - c.start ≤ max_duration
    → duration c ≡ pos (c.end - c.start)
unfolding duration time_sub
duration_lem c h k = ground arith

-- The children of a chunk that is longer than its stream's split bound follow one another over
-- exactly the chunk's range, are at least two and at most four, are of whole milliseconds and of
-- the next generation of the same stream, and all but the last have one length, which is at
-- least the bound.
pub split_children_lem :
    (c : Chunk) (u : ℕ)
    → IsSplittable c
    → 0 < u
    → u % millisecond ≡ 0
    → u < c.end - c.start
    → let children = split_children c (pos u) in
      Covers c.start c.end children
      × (2 ≤ length children)
      × (length children ≤ 4)
      × Children c children
      × ((f : ℕ) × (u ≤ f) × Even f children)
unfolding split_children
split_children_lem c u v p a lt =
    let d = c.end - c.start in
    let f = frac_of d u in
    let (f_pos, f_min, f_four, f_aligned, f_lt) =
      frac_of_bounds d u (omega arith) (omega arith) p a in
    rw (duration_lem c v.not_empty (omega (arith, v.short)), split_frac_lem d u v.short)
      (
        split_from-Covers c f f_pos (suc d) 0 c.start v.not_empty (omega arith),
        split_from-two c f f_pos (suc d) 0 c.start (omega arith) (omega arith),
        split_from-length c f f_pos (suc d) 0 c.start 4 v.not_empty f_four,
        split_from-Children c f f_pos (suc d) 0 c.start v.start_aligned v.end_aligned f_aligned,
        (f, f_min, split_from-Even c f f_pos (suc d) 0 c.start v.not_empty (omega arith)),
      )

-- The documentation of SplitUntil says that no child is shorter than the bound. A chunk longer
-- than the bound but not twice as long has a second child that is.
split_children-short :
    (c : Chunk) (u : ℕ)
    → IsSplittable c
    → u < c.end - c.start
    → c.end - c.start < 2 * u
    → (x y : Chunk) × (split_children c (pos u) ≡ x ∷ y ∷ [])
      × (x.end - x.start ≡ u)
      × (y.end - y.start < u)
unfolding split_children
split_children-short c u v lt twice =
    let d = c.end - c.start in
    let p : 0 < u = omega arith in
    rw
      (
        duration_lem c v.not_empty (omega (arith, v.short)),
        split_frac_lem d u v.short,
        frac_of-bound d u (omega arith),
      )
      (
        split c c.start (pos u) 0,
        split c (c.start + u) (pos u) 1,
        split_from-pair c u p (suc d) 0 c.start (omega arith) (omega arith) (omega arith),
        omega (arith, split-length c u p c.start 0 v.not_empty),
        omega (arith, split-length c u p (c.start + u) 1 (omega arith)),
      )
