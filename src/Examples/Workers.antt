-- ===== src/Examples/Workers.antt =====
-- The theorems on the workers, their regulators and adapters, at the data.
use incite.Base.{
  false, true, none, some, [], ◌∷◌, codes, arith, ◌≡◌, refl, ◌≤◌, ◌+◌, ◌*◌, ◌≢◌, ◌⊎◌, List, Text,
}
use incite.Errors.{
  GoError, aws, nil_error, service_unavailable_exception, stop_chunk, classify_error,
}
use incite.Starter.Panics.{stopper_manipulate-panics}
use incite.Base.Int.{pos, ◌-ℤ◌}
use incite.Clock.{int64, time_sub}
use incite.Stream.{alive}
use incite.Chunk.{Chunk, started}
use incite.Service.{output, failure}
use incite.Adapter.{StandardAdapter, standard, value, one}
use incite.Adapter.Bounds.{Event, up, down, react_all, react_all-bounds}
use incite.Regulator.{
  Regulator, WaitResult, go_on, timer_fires, running, wait, wait_timer, set_timer_rps, throttled,
  make_regulator,
}
use incite.Regulator.Waiting.{
  IsSteady, slows, make_regulator-IsSteady, Step-IsSteady, wait-ne-none, set_timer_rps-spaced,
}
use incite.Worker.{
  Worker, Input, Outcome, nothing, finished, inconclusive, round_of, panicked, popped, after_pop,
}
use incite.Worker.Ring.{named, held, Keeps, round_of-Keeps}
use incite.Starter.{starter_manipulate, stopper_manipulate}
use incite.Starter.Windows.{starter_manipulate_lem}
use incite.Examples.Data.{chunk, stream, regulator}

-- A rate of two that may rise to five.
abbrev adapter : StandardAdapter
adapter = record {
  val = 4000000000;
  max = 10000000000;
  up_per_s = 1000000000;
  min = 2000000000;
  down_step = 2000000000;
  last = 0;
}

abbrev events : List Event
events = down 1 ∷ up 3000000000 ∷ down 3000000001 ∷ []

react_all-bounds_example :
    (2000000000 ≤ value (react_all (standard adapter) events))
    × (value (react_all (standard adapter) events) ≤ 10000000000)
react_all-bounds_example =
    react_all-bounds 2000000000 10000000000 (standard adapter) events
      (refl, refl, omega arith, omega arith)

steady : IsSteady (5 * one) regulator
steady = make_regulator-IsSteady 1000000000 (pos 5) 2 true (omega arith)

Step-IsSteady_example : IsSteady (5 * one) (throttled 2000000000 regulator).0
Step-IsSteady_example = Step-IsSteady (5 * one) (slows 2000000000 refl) steady

wait-ne-none_example :
    (wait 2000000000 timer_fires regulator ≢ none) × (wait_timer 2000000000 regulator ≢ none)
wait-ne-none_example = wait-ne-none (5 * one) regulator 2000000000 timer_fires steady

-- A request at one second, and the next wait a tenth of a second later.
abbrev just_requested : Regulator
just_requested = record regulator { last_req = 1000000000 }

abbrev armed_regulator : Regulator
armed_regulator = record just_requested { timer = running 1200000000 }

arms : set_timer_rps 1100000000 just_requested ≡ some (armed_regulator, true)
unfolding set_timer_rps int64 ◌-ℤ◌ make_regulator time_sub
arms = refl

set_timer_rps-spaced_example :
    (true ≡ true → running 1200000000 ≡ running (1000000000 + 200000000))
    × (true ≡ false → 1000000000 + 200000000 ≤ 1100000000)
unfolding make_regulator
set_timer_rps-spaced_example =
    set_timer_rps-spaced (5 * one) just_requested armed_regulator 1100000000 200000000 true
      (record { timer_ok = steady.timer_ok; rate = steady.rate; delay = steady.delay }) refl
      (omega arith) (omega arith) arms

abbrev worker : Worker
worker = record { regulator = regulator; chunks = []; num_chunks = 0; max_temporary_error = 10 }

abbrev input : Input
input = record { queue = chunk ∷ []; is_closed = false }

-- A wait that ends at once, and a manipulator that asks for another try.
abbrev no_wait : Chunk → Regulator → Regulator × WaitResult
no_wait c r = (r, go_on)

abbrev try_again : Chunk → Chunk × Outcome
try_again c = (c, inconclusive)

round_of-Keeps_example :
    Keeps
      (named (codes "1"))
      (held (named (codes "1")) worker input)
      (round_of no_wait try_again 2000000000 worker input)
round_of-Keeps_example =
    round_of-Keeps no_wait try_again 2000000000 worker input (codes "1") (λ c. refl) refl

starter_manipulate_lem_example :
    let r = starter_manipulate stream (output (some (codes "q"))) chunk in
    ((r.chunk.state ≡ started)
      × (r.chunk.err ≡ none)
      × (r.outcome ≡ finished)
      × (alive stream ≡ true)
      × (output (some (codes "q")) ≡ output (some r.chunk.query_id))
      × (r.requested ≡ true))
    ⊎ ((r.chunk.state ≡ chunk.state)
        × (r.chunk.query_id ≡ chunk.query_id)
        × (((alive stream ≡ false)
              × (r.chunk ≡ chunk)
              × (r.outcome ≡ nothing)
              × (r.requested ≡ false))
            ⊎ ((alive stream ≡ true)
                × ((q : Text) → output (some (codes "q")) ≢ output (some q))
                × (r.chunk.err ≢ none)
                × (r.requested ≡ true))))
starter_manipulate_lem_example =
    starter_manipulate_lem stream (output (some (codes "q"))) chunk (λ h. ground arith)

-- A temporary error of the service: an unavailable one.
abbrev unavailable : GoError
unavailable = aws none service_unavailable_exception [] nil_error

stopper_manipulate-panics_example :
    after_pop no_wait
      (λ c. (c, stopper_manipulate (failure unavailable) c))
      2000000000
      (popped (record chunk { err = some stop_chunk }) worker input)
    ≡ panicked
unfolding classify_error
stopper_manipulate-panics_example =
    stopper_manipulate-panics no_wait unavailable 2000000000
      (record chunk { err = some stop_chunk }) worker input refl refl refl
