-- ===== src/Setup.antt =====
-- The configuration and the start of a manager: Config (incite.go), NewQueryManager and Close
-- (mgr.go), the tables of cloudwatchlogs_actions.go, the constructors of the workers, and the
-- function Query (query.go).
pub mod Fresh
pub mod Ready
use incite.Base.{
  ℕ, ◌-◌, ◌*◌, ◌/◌, leb, Bool, true, false, not, Option, none, some, List, [], ◌∷◌, Text,
  if◌then◌else◌,
}
use incite.Base.Int.{ℤ, pos, negsuc, pos_part, leb_ℤ, ◌*ℤ◌}
use incite.Clock.{Time, int64}
use incite.Stats.{zero_stats}
use incite.Errors.{Error, closed, Result, ok, err}
use incite.Stream.{Stream, Row, QuerySpec}
use incite.ReadAll.{read_all}
use incite.Query.{query}
use incite.Adapter.{one, standard}
use incite.Regulator.{make_regulator}
use incite.Worker.{Worker}
use incite.Manager.{Mgr, Streams}

-- CloudWatchLogsAction.
pub data Action : Type 0 where
  start_query stop_query get_query_results : Action

-- RPSQuotaLimits and RPSDefaults.
unfoldable pub rps_quota_limits : Action → ℕ
rps_quota_limits start_query = 5
rps_quota_limits stop_query = 5
rps_quota_limits get_query_results = 5

unfoldable pub rps_defaults : Action → ℕ
unfolding rps_quota_limits
rps_defaults start_query = rps_quota_limits start_query - 2
rps_defaults stop_query = rps_quota_limits stop_query - 2
rps_defaults get_query_results = rps_quota_limits get_query_results - 2

abbrev pub query_concurrency_quota_limit : ℕ
query_concurrency_quota_limit = 20

abbrev pub default_parallel : ℕ
default_parallel = query_concurrency_quota_limit - 2

-- A Go int, which has 64 bits: arithmetic on it is followed by int64.
abbrev pub GoInt : Type 0
GoInt = ℤ

-- Config. The rate of an action that is missing in its map is zero, and whether there are actions is
-- a Boolean; the logger is not represented.
pub record Config : Type 0 where
  pub has_actions : Bool
  pub parallel : GoInt
  pub rps : Action → GoInt
  pub name : Text
  pub disable_adaptation : Bool

-- The manager that NewQueryManager returns: its configuration, its state, its workers, and the
-- capacities of its channels.
pub record Launched : Type 0 where
  pub config : Config
  pub mgr : Mgr
  pub starter : Worker
  pub poller : Worker
  pub stopper : Worker
  pub worker_capacity : ℕ
  pub update_capacity : ℕ

abbrev pub new_worker : Time → Config → Action → ℕ → Worker
new_worker now cfg action tries = record {
  regulator =
      make_regulator now (cfg.rps action) (rps_defaults action) (not cfg.disable_adaptation);
  chunks = [];
  num_chunks = 0;
  max_temporary_error = tries;
}

abbrev pub max_temp_starting_errs : ℕ
max_temp_starting_errs = 10

abbrev pub max_temp_polling_errs : ℕ
max_temp_polling_errs = 10

unfoldable pub new_starter : Time → Config → Worker
new_starter now cfg = new_worker now cfg start_query max_temp_starting_errs

unfoldable pub new_poller : Time → Config → Worker
new_poller now cfg = new_worker now cfg get_query_results max_temp_polling_errs

unfoldable pub new_stopper : Time → Config → Worker
new_stopper now cfg = new_worker now cfg stop_query 3

abbrev pub or_address : Text → Text → Text
or_address address [] = address
or_address address (c ∷ cs) = c ∷ cs

unfoldable pub filled_in : Text → Config → Config
filled_in address cfg = record cfg {
  parallel = if leb_ℤ cfg.parallel (pos 0) then pos default_parallel else cfg.parallel;
  name = or_address address cfg.name;
}

-- The constants parallelUpPerS, parallelMin and parallelDownStep.
abbrev pub parallel_up_per_s : ℕ
parallel_up_per_s = one / 2

abbrev pub parallel_min : ℕ
parallel_min = one

abbrev pub parallel_down_step : ℕ
parallel_down_step = one

unfoldable pub new_mgr : Time → Streams → ℕ → Mgr
new_mgr now streams parallel = record {
  pq = [];
  ready = [];
  parallel = standard (record {
    val = parallel * one;
    max = parallel * one;
    up_per_s = parallel_up_per_s;
    min = parallel_min;
    down_step = parallel_down_step;
    last = now;
  });
  num_ready = 0;
  num_starting = 0;
  num_polling = 0;
  num_stopping = 0;
  start = [];
  poll = [];
  stop = [];
  stats = zero_stats;
  streams = streams;
}

-- The most pointers that make gives a channel room for, where the address space has 48 bits.
abbrev pub max_room : ℕ
max_room = 35184372088820

-- make of a channel of pointers. none when it panics on the size.
unfoldable pub make_chan : GoInt → Option ℕ
make_chan (pos n) = if leb n max_room then some n else none
make_chan (negsuc n) = none

-- What is made, with the capacities of the channels to the workers and of the one back.
abbrev pub with_channels : Time → Streams → Config → Option ℕ → Option ℕ → Option Launched
with_channels now streams cfg (some parallel) (some update) = some (record {
  config = cfg;
  mgr = new_mgr now streams (pos_part cfg.parallel);
  starter = new_starter now cfg;
  poller = new_poller now cfg;
  stopper = new_stopper now cfg;
  worker_capacity = parallel;
  update_capacity = update;
})
with_channels now streams cfg parallel update = none

-- NewQueryManager, at an address as its text and at a time, with the streams that are to come. none
-- when it panics, for lack of actions or on the size of a channel.
unfoldable pub new_query_manager : Text → Time → Streams → Config → Option Launched
unfolding filled_in new_mgr new_starter new_poller new_stopper make_chan int64 ◌*ℤ◌
new_query_manager address now streams cfg =
    let cfg' = filled_in address cfg in
    if cfg.has_actions
    then with_channels now streams cfg' (make_chan cfg'.parallel)
        (make_chan (int64 (pos 3 *ℤ cfg'.parallel)))
    else none

-- Close of a manager that is closed or not. The second close of a channel panics, and is recovered.
unfoldable pub close_manager : Bool → Bool × Option Error
close_manager false = (true, none)
close_manager true = (true, some closed)

-- The goroutine of the function Query, on a new manager: the rows and the error of ReadAll, or the
-- error of Query. The arguments are those of read_all.
unfoldable pub run_query :
    (ℕ → ℕ) → List (List (Stream → Stream)) → QuerySpec → Option (List Row × Option Error)
unfolding query
run_query grow rounds q = elim (query false q) [
  | err e ↦ some ([], some e)
  | ok s ↦ read_all grow rounds s
]

-- What the function Query does: it panics, or the context ends first, or the goroutine answers.
pub data Once : Type 0 where
  panics context_ended : Once
  answered : List Row → Option Error → Once

abbrev pub once_config : Bool → Config
once_config has_actions = record {
  has_actions = has_actions;
  parallel = pos 1;
  rps = λ action. pos 0;
  name = [];
  disable_adaptation = false;
}

abbrev pub answer_once : Option (List Row × Option Error) → Option Once
answer_once none = none
answer_once (some (rows, e)) = some (answered rows e)

-- The function Query, with a context and actions or not, and whether the context ends before the
-- goroutine sends. none while it still waits.
unfoldable pub query_once :
    Bool
    → Bool
    → Bool
    → Text
    → Time
    → Streams
    → (ℕ → ℕ)
    → List (List (Stream → Stream))
    → QuerySpec
    → Option Once
unfolding new_query_manager run_query
query_once has_context has_actions ends address now streams grow rounds q =
    if has_context
    then elim (new_query_manager address now streams (once_config has_actions)) [
      | none ↦ some panics
      | some m ↦ if ends then some context_ended else answer_once (run_query grow rounds q)
    ]
    else some panics
