-- ===== src/Examples/Managers.antt =====
-- The theorems on the manager, at a state with one stream.
use incite.Base.{
  ◌⊎◌, ◌≤◌, ◌<◌, ℕ, ◌≡◌, refl, true, false, suc, length, Option, none, some, List, [], ◌∷◌, arith,
  codes,
}
use incite.Clock.{Time}
use incite.Stats.{zero_stats}
use incite.Errors.{Error, closed, terminal_status}
use incite.Stream.{Stream, is_closed}
use incite.Query.{new_stream}
use incite.Chunk.{starting, Chunk, complete}
use incite.Adapter.{standard, whole, value}
use incite.Manager.{Mgr, Heap, handle_chunk, dispatch}
use incite.Starter.{starter_manipulate}
use incite.Service.{output}
use incite.Manager.Sound.{IsSound}
use incite.Manager.Counts.{sends, Step-IsSound}
use incite.Setup.{Config, Launched, new_query_manager, max_room}
use incite.Setup.Ready.{IsReady, new_query_manager-IsReady}
use incite.Base.Int.{pos}
use incite.Manager.Dispatching.{PopsOne, IsDone, dispatch-IsDone}
use incite.Manager.Streams.{
  IsClosed, Step-IsClosed, handle_chunk-revives, starter_manipulate-revives,
}
use incite.Manager.Shutdown.{shutdown, closed_now, shutdown-closes, shutdown-leaves}
use incite.Examples.Data.{chunk, stream}

-- A queue that is served from its front.
abbrev pub first : List ℕ → Option (ℕ × List ℕ)
first [] = none
first (k ∷ ks) = some (k, ks)

abbrev pub queue : Heap
queue = record { push = λ streams k ks. k ∷ ks; pop = λ streams ks. first ks }

-- A chunk is ready, none is with a worker, and up to two may be.
abbrev pub idle : Stream → Mgr
idle s = record {
  pq = [];
  ready = chunk ∷ [];
  parallel = standard (record {
    val = 4000000000;
    max = 4000000000;
    up_per_s = 1000000000;
    min = 2000000000;
    down_step = 2000000000;
    last = 0;
  });
  num_ready = 1;
  num_starting = 0;
  num_polling = 0;
  num_stopping = 0;
  start = [];
  poll = [];
  stop = [];
  stats = zero_stats;
  streams = λ k. s;
}

idle-IsSound : IsSound 2 (idle stream)
idle-IsSound = record {
  ready = refl;
  starting = refl;
  polling = refl;
  stopping = refl;
  bounded = omega arith;
  parallel = (refl, refl, omega arith, omega arith);
}

Step-IsSound_example : IsSound 2 (dispatch queue 2 (idle stream))
Step-IsSound_example = Step-IsSound queue 2 (sends 2 refl) idle-IsSound

first-shorter :
    (k : ℕ) (ks rest : List ℕ) → first ks ≡ some (k, rest) → length ks ≡ suc (length rest)
first-shorter k [] rest h = absurd (ground (arith, h))
first-shorter k (x ∷ xs) rest h = ground (arith, h)

first-emptied : (ks : List ℕ) → first ks ≡ none → ks ≡ []
first-emptied [] h = refl
first-emptied (x ∷ xs) h = absurd (ground (arith, h))

queue-PopsOne : PopsOne queue
queue-PopsOne = record {
  shorter = λ streams k ks rest h. first-shorter k ks rest h;
  emptied = λ streams ks h. first-emptied ks h;
}

dispatch-IsDone_example : IsDone (dispatch queue 2 (idle stream))
unfolding whole value
dispatch-IsDone_example =
    dispatch-IsDone queue queue-PopsOne 2 2 (idle stream) idle-IsSound (omega arith)

-- A configuration with defaults.
abbrev pub config : Config
config = record {
  has_actions = true;
  parallel = pos 0;
  rps = λ action. pos 0;
  name = [];
  disable_adaptation = false;
}

new_query_manager-IsReady_example :
    ((54 ≤ max_room)
      × ((l : Launched) × (new_query_manager (codes "0x1") 5 (λ k. stream) config ≡ some l)
          × IsReady (codes "0x1") config l))
    ⊎ ((max_room < 54) × (new_query_manager (codes "0x1") 5 (λ k. stream) config ≡ none))
new_query_manager-IsReady_example =
    new_query_manager-IsReady (codes "0x1") 5 (λ k. stream) config refl

abbrev closed_stream : Stream
closed_stream = record stream { err = some closed }

Step-IsClosed_example : IsClosed 0 (dispatch queue 2 (idle closed_stream))
unfolding is_closed
Step-IsClosed_example = Step-IsClosed queue 0 (sends 2 refl) refl

-- Another chunk of the stream has failed, and this one completes.
abbrev failure : Error
failure = terminal_status (codes "q") (codes "Timeout") (codes "fields @message")

abbrev failed_stream : Stream
failed_stream = record stream { err = some failure }

abbrev pub completed : Chunk
completed = record chunk { state = complete }

abbrev now : Time
now = 2000000000

handle_chunk-revives_example :
    (m' : Mgr) × (handle_chunk now completed (idle failed_stream) ≡ some m')
    × ((m'.streams 0).err ≡ none)
unfolding new_stream
handle_chunk-revives_example =
    handle_chunk-revives now completed (idle failed_stream) failure refl refl refl
      (λ e. ground arith) (λ e. ground arith)

abbrev pub waiting : Mgr
waiting = record (idle stream) { pq = 0 ∷ []; ready = []; num_ready = 0 }

closed_down : (m' : Mgr) × (shutdown [] waiting ≡ some m')
unfolding shutdown
closed_down = (_, refl)

shutdown-closes_example : closed_now 0 closed_down.0 ≡ true
shutdown-closes_example = shutdown-closes 0 [] waiting closed_down.0 closed_down.1 refl

left_down : shutdown [] (idle stream) ≡ some (idle stream)
unfolding shutdown
left_down = refl

-- The chunk of the stream is ready, and the stream stays open.
shutdown-leaves_example : (idle stream).streams 0 ≡ stream
shutdown-leaves_example = shutdown-leaves 0 [] (idle stream) (idle stream) left_down refl refl

abbrev untried : Chunk
untried = record chunk { state = starting }

starter_manipulate-revives_example :
    let c' = (starter_manipulate failed_stream (output none) untried).chunk in
    (m' : Mgr) × (handle_chunk now c' (idle failed_stream) ≡ some m') × ((m'.streams 0).err ≡ none)
starter_manipulate-revives_example =
    starter_manipulate-revives now (output none) untried (idle failed_stream) failure refl refl refl
      (λ e. ground arith)
