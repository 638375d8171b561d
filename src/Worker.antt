-- ===== src/Worker.antt =====
-- The loop of a worker (worker.go). The goroutine's channel operations are steps.
pub mod Ring
pub mod States
use incite.Base.{
  ℕ, suc, ◌+◌, ◌-◌, Bool, true, false, not, Option, none, some, List, [], ◌∷◌, ◌++◌, ltb, ◌==◌,
  if◌then◌else◌,
}
use incite.Clock.{Time}
use incite.Errors.{Error, closed, start_query, unexpected_query}
use incite.Chunk.{Chunk}
use incite.Regulator.{
  Regulator, WaitResult, go_on, is_closing, context_error, throttled, not_throttled,
}

pub data Outcome : Type 0 where
  nothing finished inconclusive throttling_error temporary_error : Outcome

-- The ring `chunks` is a list, its next element first.
pub record Worker : Type 0 where
  pub regulator : Regulator
  pub chunks : List Chunk
  pub num_chunks : ℕ
  pub max_temporary_error : ℕ

-- The channel `in`: what is in its buffer, and whether it was closed.
pub record Input : Type 0 where
  pub queue : List Chunk
  pub is_closed : Bool

unfoldable pub push : Worker → Chunk → Worker
push w c = record w { chunks = w.chunks ++ c ∷ []; num_chunks = w.num_chunks + 1 }

-- What a receive from `in` gives. A closed empty channel gives nil.
pub data Received : Type 0 where
  blocked nil : Received
  chunk : Chunk → Input → Received
  empty : Received

abbrev receive_from : List Chunk → Bool → Received → Received
receive_from (c ∷ cs) shut otherwise = chunk c (record { queue = cs; is_closed = shut })
receive_from [] true otherwise = nil
receive_from [] false otherwise = otherwise

unfoldable pub block_pop : Input → Received
block_pop i = receive_from i.queue i.is_closed blocked

unfoldable pub no_block_pop : Input → Received
no_block_pop i = receive_from i.queue i.is_closed empty

-- pop returns a chunk, or nil when the channel is closed, or waits.
pub data Popped : Type 0 where
  waits closing : Popped
  popped : Chunk → Worker → Input → Popped

-- The element after the head of the ring is taken out, and its try is counted.
abbrev take_first : List Chunk → Worker → Input → Popped
take_first [] w i = waits
take_first (c ∷ cs) w i =
    popped (record c { try = c.try + 1 }) (record w { chunks = cs; num_chunks = w.num_chunks - 1 })
      i

unfoldable pub after_receive : Received → Worker → Input → Popped
unfolding push
after_receive blocked w i = waits
after_receive nil w i = closing
after_receive (chunk c i') w i =
    let w' = push w (record c { try = 0; tmp = 0 }) in take_first w'.chunks w' i'
after_receive empty w i = take_first w.chunks w i

unfoldable pub pop : Worker → Input → Popped
unfolding after_receive block_pop no_block_pop
pop w i = after_receive (if w.num_chunks == 0 then block_pop i else no_block_pop i) w i

-- The regulator's reaction to an outcome.
abbrev adapt : Time → Outcome → Regulator → Regulator
adapt now throttling_error r = (throttled now r).0
adapt now nothing r = r
adapt now _ r = (not_throttled now r).0

-- The switch on the outcome: the worker, and the chunk that it sends to `out`.
unfoldable pub settle : Worker → Chunk → Outcome → Worker × Option Chunk
unfolding push
settle w c nothing = (w, some c)
settle w c finished = (w, some c)
settle w c inconclusive = (push w c, none)
settle w c _ =
    let c' = record c { tmp = c.tmp + 1 } in
    if ltb c'.tmp w.max_temporary_error then (push w c', none) else (w, some c')

-- Whether errors.Unwrap gives an error (StartQueryError.Unwrap and UnexpectedQueryError.Unwrap in
-- errors.go; the other errors have no such method).
unfoldable pub unwraps : Option Error → Bool
unwraps (some (start_query text start end cause)) = true
unwraps (some (unexpected_query query_id text cause)) = true
unwraps _ = false

-- The log entry on a temporary error calls a method of what errors.Unwrap gives, which panics
-- when that is nil.
unfoldable pub panics : Outcome → Chunk → Bool
unfolding unwraps
panics temporary_error c = not (unwraps c.err)
panics _ c = false

-- What one round of the loop does.
pub data Round : Type 0 where
  waiting returned panicked : Round
  goes_on : Worker → Input → Option Chunk → Round
  stops : Worker → Input → Round

-- What follows a pop: wait, manipulate, settle. `wait_for` and `manipulate` are the regulator's
-- wait and the manipulator's method with what the service answers. The error of a context is
-- ignored.
unfoldable pub after_pop :
    (Chunk → Regulator → Regulator × WaitResult) → (Chunk → Chunk × Outcome) → Time → Popped → Round
unfolding settle panics
after_pop wait_for manipulate now waits = waiting
after_pop wait_for manipulate now closing = returned
after_pop wait_for manipulate now (popped c w i) =
    let (r, result) = wait_for c w.regulator in
    let (c', o) = manipulate c in
    let (w', out) = settle (record w { regulator = adapt now o r }) c' o in
    let done = if panics o c' then panicked else goes_on w' i out in
    elim result [
      | is_closing ↦ stops (push (record w { regulator = r }) c) i
      | go_on ↦ done
      | context_error ↦ done
    ]

-- A round of the loop.
unfoldable pub round_of :
    (Chunk → Regulator → Regulator × WaitResult)
    → (Chunk → Chunk × Outcome)
    → Time
    → Worker
    → Input
    → Round
unfolding pop after_pop
round_of wait_for manipulate now w i = after_pop wait_for manipulate now (pop w i)

-- shutdown: the chunks of the ring, then those left in the channel, are released with ErrClosed
-- and sent to `out`. `release` is the manipulator's method.
unfoldable pub release_all : (Chunk → Chunk) → List Chunk → List Chunk
release_all release [] = []
release_all release (c ∷ cs) = release (record c { err = some closed }) ∷ release_all release cs

unfoldable pub shutdown : (Chunk → Chunk) → Worker → Input → List Chunk
unfolding release_all
shutdown release w i = release_all release w.chunks ++ release_all release i.queue
