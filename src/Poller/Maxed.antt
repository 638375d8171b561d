-- ===== src/Poller/Maxed.antt =====
-- When a chunk is split, or counts as one that has all the results it may have (poller.go,
-- splittable).
use incite.Base.{ℕ, ◌+◌, ◌≤◌, ◌≡◌, ◌↔◌, true, false, none, arith}
use incite.Base.Int.{pos, ◌+ℤ◌, ◌-ℤ◌, ltb_ℤ}
use incite.Clock.{max_duration, int64}
use incite.Stats.{plus, minus}
use incite.Stream.{Stream}
use incite.Query.{max_limit}
use incite.Chunk.{Chunk, duration}
use incite.Poller.{splittable, add_maxed, sub_maxed}

plus-minus : (a d : ℕ) → a + d ≤ max_duration → minus (plus (pos a) (pos d)) (pos d) ≡ pos a
unfolding plus minus int64 ◌+ℤ◌ ◌-ℤ◌
plus-minus a d h = ground arith

sub_maxed-add_maxed :
    (c : Chunk) (maxed d : ℕ)
    → c.stats.range_maxed ≡ pos maxed
    → duration c ≡ pos d
    → maxed + d ≤ max_duration
    → sub_maxed (add_maxed c) ≡ c
unfolding duration
sub_maxed-add_maxed c maxed d e f h =
    let same : minus (plus c.stats.range_maxed (duration c)) (duration c) ≡ c.stats.range_maxed =
      rw (e, f) (plus-minus maxed d h) in
    λ i. record c { stats = record (c.stats) { range_maxed = same i } }

-- A chunk is split exactly when it has as many results as its query asks for, as many as the
-- service returns at most, no preview, and a longer range than the split bound. A chunk that is
-- split does not count as maxed, one that has all the results it asks for but is not split does,
-- and one that has fewer stays as it is.
pub splittable_lem :
    (c : Chunk) (s : Stream) (n maxed d : ℕ)
    → c.stats.range_maxed ≡ pos maxed
    → duration c ≡ pos d
    → maxed + d ≤ max_duration
    → (((splittable c s n).1 ≡ true) ↔ (
        (ltb_ℤ (pos n) s.spec.limit ≡ false)
        × (max_limit ≤ n)
        × (c.ptr ≡ none)
        × (ltb_ℤ s.spec.split_until (duration c) ≡ true)))
      × ((splittable c s n).1 ≡ true → (splittable c s n).0 ≡ c)
      × ((splittable c s n).1 ≡ false
          → ltb_ℤ (pos n) s.spec.limit ≡ false
          → (splittable c s n).0.stats.range_maxed ≡ plus (pos maxed) (pos d))
      × (ltb_ℤ (pos n) s.spec.limit ≡ true → (splittable c s n).0 ≡ c)
unfolding splittable
splittable_lem c s n maxed d e f h = (
  (λ p. ground arith, λ p. ground arith),
  (λ p. ground (arith, sub_maxed-add_maxed c maxed d e f h)),
  (λ p q. ground arith),
  (λ p. ground arith),
)
