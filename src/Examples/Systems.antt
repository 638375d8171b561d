-- ===== src/Examples/Systems.antt =====
-- The theorems on the manager with its workers, at the life of a query.
use incite.Base.{ℕ, ◌+◌, ◌==◌, if◌then◌else◌, arith, ◌≡◌, refl, true, some, List, [], ◌∷◌, codes}
use incite.Base.Int.{pos}
use incite.Errors.{eof}
use incite.Stream.{QuerySpec}
use incite.Service.{output}
use incite.Setup.{Config, Launched, new_query_manager}
use incite.System.{
  System, no_stream, Next, next, Event, client_queries, mgr_receives, starter_works, poller_works,
  launch, run,
}
use incite.Working.{Moment}
use incite.Manager.Account.{left}
use incite.System.Eof.{run-eof}
use incite.System.Room.{KeepsRoom, run-KeepsRoom}
use incite.Examples.Data.{nine_seconds, stream, answer}
use incite.Examples.Accounts.{queue-IsHeap}
use incite.Examples.Managers.{queue, config}

abbrev whole_query : QuerySpec
whole_query = record nine_seconds { chunk = pos 0; split_until = pos 0 }

abbrev moment : Moment
moment = record { begun = 100000000000; fires = true; answered = 100100000000 }

-- A query of one chunk is asked, started, polled once and completed.
abbrev life : List Event
life =
    client_queries whole_query
    ∷ starter_works moment (output (some (codes "q")))
    ∷ mgr_receives 100200000000
    ∷ poller_works moment (output (answer whole_query))
    ∷ mgr_receives 100300000000
    ∷ []

launched : (l : Launched) × (new_query_manager (codes "0x1") 5 (λ k. stream) config ≡ some l)
unfolding new_query_manager
launched = (_, refl)

run-KeepsRoom_example :
    KeepsRoom 18 (run queue (λ keys. keys) (codes "Failed") life (launch launched.0))
unfolding launched
run-KeepsRoom_example =
    run-KeepsRoom (codes "0x1") 5 (λ k. stream) config launched.0 launched.1 queue (λ keys. keys)
      (codes "Failed") life

abbrev one_at_once : Config
one_at_once = record config { parallel = pos 1 }

alone : (l : Launched) × (new_query_manager (codes "0x1") 5 (λ k. no_stream) one_at_once ≡ some l)
unfolding new_query_manager
alone = (_, refl)

abbrev run_life : Next
run_life = run queue (λ keys. keys) (codes "Failed") life (launch alone.0)

lived : (s : System) × (run_life ≡ next s) × ((s.mgr.streams 0).err ≡ some eof)
unfolding alone incite.Base.Int.◌-ℤ◌ incite.Base.trim_space incite.Clock.int64 incite.Clock.time_sub
    incite.Clock.has_sub_millisecond incite.Stream.alive incite.Stream.set_err incite.Query.query
    incite.Query.check_chunk incite.Query.chunk_count incite.Query.check_limit
    incite.Query.check_split_until incite.Query.new_stream incite.Chunk.mark_started
    incite.Chunk.first_chunk incite.Adapter.increase_standard incite.Adapter.increase
    incite.Regulator.make_regulator incite.Regulator.wait incite.Worker.round_of
    incite.Starter.starter_manipulate incite.Poller.poller_manipulate
    incite.Poller.Translate.translate_no_preview incite.Manager.handle_chunk
    incite.Manager.add_query incite.Manager.dispatch incite.Setup.rps_defaults
    incite.Setup.new_query_manager incite.System.launch incite.System.run
lived = (_, refl, refl)

run-eof_example : ((lived.0.mgr.streams 0).m ≡ (lived.0.mgr.streams 0).n) × (left 0 lived.0.mgr ≡ 0)
run-eof_example =
    run-eof queue (λ keys. keys) (codes "Failed") (codes "0x1") 5 one_at_once alone.0 life lived.0 0
      queue-IsHeap alone.1 lived.1 lived.2
