-- ===== src/Examples/Streams.antt =====
-- The theorems on reading and on the poller, at the data.
use incite.Base.{
  false, true, none, some, [], ◌∷◌, codes, arith, ◌≡◌, refl, ◌≤◌, ◌↔◌, length, List, Text, take,
  drop, if◌then◌else◌, ltb, Option, map,
}
use incite.Base.Int.{pos, ltb_ℤ}
use incite.Errors.{ok, eof}
use incite.Stats.{plus, zero_stats}
use incite.Stream.{Row, read}
use incite.Stream.Reading.{pending, read_lem}
use incite.Stream.Queue.{
  Queue, Call, appends, reads, fails, closes, call_stream, call_queue, answers, Represents,
  answers_refine,
}
use incite.Query.{max_limit, new_stream}
use incite.Clock.{time_sub}
use incite.Chunk.{duration}
use incite.Service.{ServiceField, output}
use incite.Poller.{poller_manipulate, splittable}
use incite.Poller.Translate.{translate_no_preview, translate_result}
use incite.Poller.Preview.{elem, translate_preview}
use incite.Poller.Keys.{Distinct, IsOrder}
use incite.Poller.Rows.{sent_row, translate_no_preview_lem}
use incite.Poller.Block.{deletion, IsBlock, translate_preview_lem}
use incite.Poller.Maxed.{splittable_lem}
use incite.Poller.Outcomes.{IsPolled, poller_manipulate-IsPolled}
use incite.Examples.Data.{nine_seconds, stream, ended, chunk, result, answer}

-- The order of a list of keys itself.
abbrev in_order : List Text → List Text
in_order ps = ps

in_order-IsOrder : IsOrder in_order
in_order-IsOrder = record { same = λ p ps. refl; distinct = λ ps d. d }

-- Two blocks are appended and read in part, the stream is closed, and a block comes late.
abbrev calls : List Call
calls =
    appends ((record { field = codes "a"; value = [] } ∷ []) ∷ [])
    ∷ appends ([] ∷ [])
    ∷ reads 1
    ∷ fails (some eof) zero_stats
    ∷ reads 9
    ∷ closes
    ∷ appends ([] ∷ [])
    ∷ closes
    ∷ reads 1
    ∷ []

abbrev no_rows : Queue
no_rows = record { waiting = []; err = none }

stream-Represents : Represents stream no_rows
unfolding pending new_stream
stream-Represents = record { within = omega arith; placed = refl; rows = refl; same = refl }

answers_refine_example : answers call_stream calls stream ≡ answers call_queue calls no_rows
answers_refine_example = answers_refine calls stream no_rows stream-Represents

read_lem_example :
    ((read ended 1).1.rows ≡ take 1 (pending ended))
    × (pending (read ended 1).0 ≡ drop 1 (pending ended))
    × ((read ended 1).1.err ≡ (if ltb 1 (length (pending ended)) then none else some eof))
    × ((read ended 1).0.blocks ≡ ended.blocks)
    × ((read ended 1).0.err ≡ some eof)
read_lem_example = read_lem ended 1

abbrev batch : List (List (Option ServiceField))
batch = result (codes "p") (codes "a") ∷ result (codes "q") (codes "b") ∷ []

abbrev block : List Row
block =
    (record { field = codes "@ptr"; value = codes "q" }
      ∷ record { field = codes "@message"; value = codes "b" }
      ∷ [])
    ∷ deletion (codes "r")
    ∷ []

abbrev before : List Text
before = codes "r" ∷ codes "p" ∷ []

abbrev after : List Text
after = codes "q" ∷ codes "p" ∷ []

translated : translate_preview in_order (codes "i") (codes "t") before batch ≡ ok (block, after)
unfolding translate_preview translate_result
translated = refl

-- p is delivered before and still there, q is new, and r is gone.
translate_preview_lem_example : IsBlock in_order before batch block after
translate_preview_lem_example =
    translate_preview_lem in_order (codes "i") (codes "t") before batch block after in_order-IsOrder
      distinct translated
  where
    distinct : Distinct before
    distinct = (unfold elem in refl, (unfold elem in refl, tt))

translate_no_preview_lem_example :
    (translate_no_preview (codes "i") (codes "t") (map sent_row block) ≡ ok block)
    ↔ (map sent_row block ≡ map sent_row block)
translate_no_preview_lem_example =
    translate_no_preview_lem (codes "i") (codes "t") (map sent_row block) block

poller_manipulate-IsPolled_example :
    IsPolled stream chunk
      (poller_manipulate in_order (codes "Failed") stream (output (answer nine_seconds)) chunk)
poller_manipulate-IsPolled_example =
    poller_manipulate-IsPolled in_order (codes "Failed") stream (output (answer nine_seconds)) chunk

splittable_lem_example :
    (((splittable chunk stream 10000).1 ≡ true) ↔ (
      (ltb_ℤ (pos 10000) (pos 10000) ≡ false)
      × (max_limit ≤ 10000)
      × (chunk.ptr ≡ none)
      × (ltb_ℤ (pos 1000000000) (duration chunk) ≡ true)))
    × ((splittable chunk stream 10000).1 ≡ true → (splittable chunk stream 10000).0 ≡ chunk)
    × ((splittable chunk stream 10000).1 ≡ false
        → ltb_ℤ (pos 10000) (pos 10000) ≡ false
        → (splittable chunk stream 10000).0.stats.range_maxed ≡ plus (pos 0) (pos 5000000000))
    × (ltb_ℤ (pos 10000) (pos 10000) ≡ true → (splittable chunk stream 10000).0 ≡ chunk)
unfolding duration time_sub new_stream
splittable_lem_example = splittable_lem chunk stream 10000 0 5000000000 refl refl (omega arith)
