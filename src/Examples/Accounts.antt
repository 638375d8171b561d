-- ===== src/Examples/Accounts.antt =====
-- The theorems on the chunks of a stream, at a state with one stream.
use incite.Base.{ℕ, ◌≡◌, refl, some, List, [], ◌∷◌, arith, ◌==◌, if◌then◌else◌, ◌+◌}
use incite.Clock.{Time}
use incite.Errors.{eof}
use incite.Stream.{Stream, is_closed, set_err}
use incite.Query.{new_stream}
use incite.Manager.{Mgr, dispatch, handle_chunk, handle_chunk_completion, kill_stream, put}
use incite.Manager.Counts.{sends, occurrences}
use incite.Manager.Account.{left, count}
use incite.Manager.Consistency.{IsHeap, IsConsistent, Step-IsConsistent, handle_chunk-eof}
use incite.Examples.Data.{chunk, stream}
use incite.Examples.Managers.{queue, first, idle, waiting, completed}

queue-popped :
    (j k : ℕ) (ks rest : List ℕ)
    → first ks ≡ some (k, rest)
    → occurrences j ks ≡ (if j == k then 1 else 0) + occurrences j rest
unfolding occurrences
queue-popped j k [] rest h = absurd (ground arith)
queue-popped j k (x ∷ xs) rest h = ground (arith, h)

pub queue-IsHeap : IsHeap queue
queue-IsHeap = record {
  pushed = λ streams j k ks. unfold occurrences in refl;
  popped = λ streams j k ks rest h. queue-popped j k ks rest h;
}

waiting-IsConsistent : IsConsistent 0 waiting
unfolding left count occurrences new_stream
waiting-IsConsistent = record {
  accounted = omega arith;
  once = omega arith;
  unfinished = λ h. omega arith;
}

Step-IsConsistent_example : IsConsistent 0 (dispatch queue 2 waiting)
Step-IsConsistent_example =
    Step-IsConsistent queue queue-IsHeap 0 (sends 2 refl) waiting-IsConsistent

-- Two of three chunks have completed, and the third comes back.
abbrev last_stream : Stream
last_stream = record stream { next = 3; m = 2 }

abbrev last_mgr : Mgr
last_mgr = record (idle last_stream) {
  ready = [];
  num_ready = 0;
  poll = chunk ∷ [];
  num_polling = 1;
}

last-IsConsistent : IsConsistent 0 last_mgr
unfolding left count occurrences new_stream
last-IsConsistent = record {
  accounted = omega arith;
  once = omega arith;
  unfinished = λ h. omega arith;
}

abbrev later : Time
later = 3000000000

abbrev done : Mgr
done = handle_chunk_completion completed (record last_mgr { poll = []; num_polling = 0 })

completes : handle_chunk later completed (record last_mgr { poll = [] }) ≡ some done
unfolding handle_chunk
completes = refl

ends : (done.streams 0).err ≡ some eof
unfolding handle_chunk_completion kill_stream put set_err new_stream is_closed
ends = refl

handle_chunk-eof_example : left 0 done ≡ 0
unfolding is_closed new_stream
handle_chunk-eof_example =
    handle_chunk-eof later [] [] chunk completed last_mgr done last-IsConsistent refl refl refl refl
      refl completes ends
