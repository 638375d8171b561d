-- ===== src/Starter/Windows.antt =====
-- The time windows of the queries that are started (starter.go), and what the starter and the
-- stopper report.
use incite.Base.{
  ℕ, ◌+◌, ◌-◌, ◌/◌, ◌%◌, ◌≤◌, ◌<◌, ◌≡◌, ◌≢◌, ◌↔◌, ◌⊎◌, true, false, none, some, arith, Text,
}
use incite.Base.Int.{ℤ, pos, negsuc, pos_part, neg_part, sub_ℕ, ◌+ℤ◌, ◌*ℤ◌}
use incite.Clock.{
  Time, millisecond, max_duration, int64, time_add, unix, nanosecond, epoch_millisecond,
}
use incite.Stream.{Stream, alive}
use incite.Chunk.{Chunk, started}
use incite.Service.{Reply, output, failure, StartQueryOutput}
use incite.Worker.{nothing, finished}
use incite.Starter.{start_input, starter_manipulate}

-- Milliseconds from Go's zero time to 1970.
abbrev epoch : ℕ
epoch = 62135596800000

unix_parts :
    (t : Time)
    → unix t *ℤ pos 1000 +ℤ pos (nanosecond t / millisecond) ≡ sub_ℕ (t / millisecond) epoch
unfolding unix nanosecond ◌+ℤ◌ ◌*ℤ◌
unix_parts t = ground arith

int64-sub_ℕ : (a b : ℕ) → a ≤ max_duration → b ≤ max_duration → int64 (sub_ℕ a b) ≡ sub_ℕ a b
unfolding int64
int64-sub_ℕ a b h k = ground arith

epoch_millisecond_lem :
    (t : Time)
    → t / millisecond ≤ max_duration
    → epoch_millisecond t ≡ sub_ℕ (t / millisecond) epoch
unfolding epoch_millisecond
epoch_millisecond_lem t h = rw (unix_parts t) (int64-sub_ℕ (t / millisecond) epoch h (omega arith))

infix 50 ◌≤ℤ◌
abbrev pub ◌≤ℤ◌ : ℤ → ℤ → Type 0
a ≤ℤ b = pos_part a + neg_part b ≤ pos_part b + neg_part a

sub_ℕ-mono : (a b c : ℕ) → (sub_ℕ a c ≤ℤ sub_ℕ b c) ↔ (a ≤ b)
sub_ℕ-mono a b c = (λ h. ground arith, λ h. ground arith)

time_add-millisecond : (t : Time) → time_add t (negsuc 999999) ≡ t - millisecond
unfolding time_add
time_add-millisecond t = omega arith

-- The window of the query that is started for a chunk of whole milliseconds, which the service
-- reads as inclusive, holds exactly the whole milliseconds of the chunk's half-open range.
pub start_input-window :
    (s : Stream) (c : Chunk) (t : Time)
    → c.start < c.end
    → c.start % millisecond ≡ 0
    → c.end % millisecond ≡ 0
    → t % millisecond ≡ 0
    → c.end / millisecond ≤ max_duration
    → t / millisecond ≤ max_duration
    → (((start_input s c).start_time ≤ℤ epoch_millisecond t)
        × (epoch_millisecond t ≤ℤ (start_input s c).end_time))
      ↔ ((c.start ≤ t) × (t < c.end))
unfolding start_input
start_input-window s c t h a b e k l =
    let at = epoch_millisecond_lem t l in
    let first = epoch_millisecond_lem c.start (omega arith) in
    let last = epoch_millisecond_lem (c.end - millisecond) (omega arith) in
    let low = sub_ℕ-mono (c.start / millisecond) (t / millisecond) epoch in
    let high = sub_ℕ-mono (t / millisecond) ((c.end - millisecond) / millisecond) epoch in
    rw (time_add-millisecond c.end, first, last, at)
      (
        (λ p. (omega (arith, low.0 p.0), omega (arith, high.0 p.1))),
        (λ p. (low.1 (omega arith), high.1 (omega arith))),
      )

-- The starter marks a chunk as started exactly when the stream is alive and the service gave it a
-- query ID, which it then has, with no error, and it is finished with it. Otherwise it leaves the
-- state and the query ID; a chunk of a stream that is not alive it leaves as it is, without a
-- request, and else the request that it made left an error.
pub starter_manipulate_lem :
    (s : Stream) (reply : Reply StartQueryOutput) (c : Chunk)
    → c.state ≢ started
    → let r = starter_manipulate s reply c in
      ((r.chunk.state ≡ started)
        × (r.chunk.err ≡ none)
        × (r.outcome ≡ finished)
        × (alive s ≡ true)
        × (reply ≡ output (some r.chunk.query_id))
        × (r.requested ≡ true))
      ⊎ ((r.chunk.state ≡ c.state)
          × (r.chunk.query_id ≡ c.query_id)
          × (((alive s ≡ false) × (r.chunk ≡ c) × (r.outcome ≡ nothing) × (r.requested ≡ false))
              ⊎ ((alive s ≡ true)
                  × ((q : Text) → reply ≢ output (some q))
                  × (r.chunk.err ≢ none)
                  × (r.requested ≡ true))))
unfolding starter_manipulate
starter_manipulate_lem s (output none) c h = ground arith
starter_manipulate_lem s (output (some q)) c h = ground arith
starter_manipulate_lem s (failure e) c h = ground arith
