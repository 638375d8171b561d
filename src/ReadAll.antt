-- ===== src/ReadAll.antt =====
-- ReadAll (readall.go) over a stream.
pub mod Complete
use incite.Base.{
  ℕ, ◌+◌, ◌-◌, Bool, true, false, Option, none, some, List, [], ◌∷◌, ◌++◌, ◌==◌, if◌then◌else◌,
  length,
}
use incite.Errors.{Error, eof}
use incite.Stream.{Row, Stream, ReadResult, blocking_read}

-- err == io.EOF is no error.
unfoldable pub report : Error → Option Error
report eof = none
report e = some e

-- Capacity is added when the slice is full.
unfoldable pub next_cap : (ℕ → ℕ) → ℕ → ℕ → ℕ
next_cap grow len cap = if len == cap then grow cap else cap

-- The loop. `grow` is the capacity that append picks for a full slice, and each round has the
-- changes that others make to the stream while Read waits. none when the rounds are used up.
unfoldable pub read_all_from :
    (ℕ → ℕ)
    → List (List (Stream → Stream))
    → Stream
    → List Row
    → ℕ
    → Option (List Row × Option Error)
unfolding report next_cap
read_all_from grow [] s x cap = none
read_all_from grow (changes ∷ rounds) s x cap =
    let cap' = next_cap grow (length x) cap in
    let rest = λ (s' : Stream) (x' : List Row). read_all_from grow rounds s' x' cap' in
    elim (blocking_read changes s (cap' - length x)) [
      | none ↦ none
      | some (s', r) ↦ elim r.err [
        | none ↦ rest s' (x ++ r.rows)
        | some e ↦ some (x ++ r.rows, report e)
      ]
    ]

unfoldable pub read_all :
    (ℕ → ℕ) → List (List (Stream → Stream)) → Stream → Option (List Row × Option Error)
unfolding read_all_from
read_all grow rounds s = read_all_from grow rounds s [] 512
