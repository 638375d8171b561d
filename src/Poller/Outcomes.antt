-- ===== src/Poller/Outcomes.antt =====
-- What the poller makes of an answer of the service (poller.go, manipulate).
use incite.Base.{
  ℕ, ◌+◌, ◌≤◌, ◌≡◌, ◌≢◌, refl, ◌⊎◌, inl, inr, true, false, Bool-cases, Option, none, some, List, [],
  arith, Text, length,
}
use incite.Errors.{
  stop_chunk, restart_chunk, Result, ok, err, ErrorClass, permanent_class, throttling_class,
  limit_exceeded_class, temporary_class, classify_error,
}
use incite.Stream.{Stream, Row, alive}
use incite.Chunk.{Chunk, complete, is_some}
use incite.Service.{
  Reply, output, failure, QueryStatus, running, failed, ServiceField, GetQueryResultsOutput,
}
use incite.Worker.{nothing, finished, inconclusive}
use incite.Poller.{
  Sent, send_chunk_block, translate, append_block, splittable, Polled, send_result, poll_failed,
  poll_reply, poll_running, poll_complete, poll_status_failed, poll_status, poller_manipulate,
  max_restart, with_stats, translate_stats, add_done, with_err,
}

-- What a call leaves alone.
pub record IsSameChunk (c c' : Chunk) : Type 0 where
  pub stream : c'.stream ≡ c.stream
  pub gen : c'.gen ≡ c.gen
  pub chunk_id : c'.chunk_id ≡ c.chunk_id
  pub query_id : c'.query_id ≡ c.query_id
  pub start : c'.start ≡ c.start
  pub end : c'.end ≡ c.end

-- The effects of a call of manipulate on a chunk that is being polled.
pub record IsPolled (s : Stream) (c : Chunk) (r : Polled) : Type 0 where
  pub same : IsSameChunk c r.chunk
  pub state : (r.chunk.state ≡ c.state) ⊎ (r.chunk.state ≡ complete)
  pub completed :
      c.state ≢ complete
      → r.chunk.state ≡ complete
      → (r.outcome ≡ finished) × (r.chunk.err ≡ none) × (alive s ≡ true)
  pub failed : r.chunk.state ≢ complete → r.outcome ≡ finished → r.chunk.err ≢ none
  pub polled_again : r.outcome ≡ inconclusive → (r.chunk.err ≡ none) × (alive s ≡ true)
  pub restarts : c.restart ≤ max_restart → r.chunk.restart ≤ max_restart
  pub restarted :
      (r.chunk.restart ≡ c.restart)
      ⊎ ((c.ptr ≡ none)
          × (r.chunk.restart ≡ c.restart + 1)
          × (r.chunk.err ≡ some restart_chunk)
          × (r.outcome ≡ finished)
          × (r.stream ≡ s))
  pub dead :
      alive s ≡ false
      → (r.stream ≡ s)
        × (r.outcome ≡ nothing)
        × (r.requested ≡ false)
        × (r.chunk.err ≡ some stop_chunk)
  pub delivered : (rows : List Row) × (r.stream ≡ append_block rows s)

-- What sendChunkBlock leaves alone, and what it delivers.
record IsSent (s : Stream) (c : Chunk) (r : Sent) : Type 0 where
  same : IsSameChunk c r.chunk
  state : r.chunk.state ≡ c.state
  restart : r.chunk.restart ≡ c.restart
  sent : r.done ≡ true → r.chunk.err ≡ c.err
  unsent : r.done ≡ false → r.chunk.err ≢ none
  rows : (rows : List Row) × (r.stream ≡ append_block rows s)

same_chunk : (c : Chunk) → IsSameChunk c c
same_chunk c = ground arith

send_result-IsSent :
    (m : Result (List Row × Option (List Text))) (c : Chunk) (s : Stream)
    → IsSent s c (send_result m c s)
send_result-IsSent (err e) c s = record {
  same = ground arith;
  state = refl;
  restart = refl;
  sent = λ p. cc;
  unsent = λ p. ground arith;
  rows = ([], refl);
}
send_result-IsSent (ok (block, ptr)) c s = record {
  same = ground arith;
  state = refl;
  restart = refl;
  sent = λ p. refl;
  unsent = λ p. cc;
  rows = (block, refl);
}

poll_failed-ne-inconclusive : (k : ErrorClass) → poll_failed k ≢ inconclusive
poll_failed-ne-inconclusive permanent_class h = cc
poll_failed-ne-inconclusive throttling_class h = cc
poll_failed-ne-inconclusive limit_exceeded_class h = cc
poll_failed-ne-inconclusive temporary_class h = cc

splittable-same :
    (c : Chunk) (s : Stream) (n : ℕ)
    → let c' = (splittable c s n).0 in
      IsSameChunk c c' × (c'.state ≡ c.state) × (c'.restart ≡ c.restart)
unfolding splittable
splittable-same c s n = ground arith

module _ (order : List Text → List Text) (failed_text : Text) where
  send_chunk_block-IsSent :
      (c : Chunk) (s : Stream) (results : List (List (Option ServiceField)))
      → IsSent s c (send_chunk_block order c s results)
  unfolding send_chunk_block
  send_chunk_block-IsSent c s results = send_result-IsSent (translate order c s results c.ptr) c s

  poll_running-IsPolled :
      (c : Chunk) (s : Stream) (out : GetQueryResultsOutput)
      → alive s ≡ true
      → IsPolled s c (poll_running order failed_text c s out)
  unfolding poll_running
  poll_running-IsPolled c s out h =
      let k = send_chunk_block-IsSent (with_err c none) s out.results in
      record {
        same = ground (arith, k.same);
        state = ground (arith, k.state);
        completed = ground (arith, k.state);
        failed = ground (arith, k.unsent);
        polled_again = ground (arith, k.sent);
        restarts = ground (arith, k.restart);
        restarted = ground (arith, k.restart);
        dead = ground arith;
        delivered = elim (Bool-cases (is_some c.ptr)) [
          | inl preview ↦ (k.rows.0, ground (arith, k.rows.1))
          | inr plain ↦ ([], ground arith)
        ];
      }

  poll_complete-IsPolled :
      (c : Chunk) (s : Stream) (out : GetQueryResultsOutput)
      → alive s ≡ true
      → IsPolled s c (poll_complete order failed_text c s out)
  unfolding poll_complete
  poll_complete-IsPolled c s out h =
      let c' = with_stats (translate_stats out.statistics) c in
      let (c'', splits) = splittable c' s (length out.results) in
      let p = splittable-same c' s (length out.results) in
      let k = send_chunk_block-IsSent (add_done (with_err c'' none)) s out.results in
      record {
        same = ground (arith, p, k.same);
        state = ground (arith, p, k.state);
        completed = ground (arith, p, k.sent, k.state);
        failed = ground (arith, p, k.unsent);
        polled_again = ground (arith);
        restarts = ground (arith, p, k.restart);
        restarted = ground (arith, p, k.restart);
        dead = ground arith;
        delivered = elim (Bool-cases splits) [
          | inl parts ↦ ([], ground arith)
          | inr whole ↦ (k.rows.0, ground (arith, k.rows.1))
        ];
      }

  poll_status_failed-IsPolled :
      (c : Chunk) (s : Stream) (out : GetQueryResultsOutput)
      → alive s ≡ true
      → IsPolled s c (poll_status_failed order failed_text c s out)
  unfolding poll_status_failed
  poll_status_failed-IsPolled c s out h = record {
    same = ground arith;
    state = ground arith;
    completed = ground arith;
    failed = ground arith;
    polled_again = ground arith;
    restarts = ground arith;
    restarted = ground arith;
    dead = ground arith;
    delivered = ([], ground arith);
  }

  plain-IsPolled :
      (status : Option QueryStatus) (c : Chunk) (s : Stream) (out : GetQueryResultsOutput)
      → alive s ≡ true
      → IsPolled s c (poll_status order failed_text status c s out)
  unfolding poll_status
  plain-IsPolled (some running) c s out h = poll_running-IsPolled c s out h
  plain-IsPolled (some QueryStatus.complete) c s out h = poll_complete-IsPolled c s out h
  plain-IsPolled (some failed) c s out h = poll_status_failed-IsPolled c s out h
  plain-IsPolled _ c s out h = record {
    same = ground arith;
    state = ground arith;
    completed = ground arith;
    failed = ground arith;
    polled_again = ground arith;
    restarts = ground arith;
    restarted = ground arith;
    dead = ground arith;
    delivered = ([], ground arith);
  }

  reply-IsPolled :
      (reply : Reply GetQueryResultsOutput) (c : Chunk) (s : Stream)
      → alive s ≡ true
      → IsPolled s c (poll_reply order failed_text reply c s)
  reply-IsPolled (output out) c s h = plain-IsPolled out.status c s out h
  reply-IsPolled (failure e) c s h = record {
    same = ground arith;
    state = ground arith;
    completed = ground arith;
    failed = ground arith;
    polled_again = λ p. absurd (poll_failed-ne-inconclusive (classify_error e) p);
    restarts = ground arith;
    restarted = ground arith;
    dead = ground arith;
    delivered = ([], ground arith);
  }

  -- One call of manipulate, whatever the service answers: the chunk keeps its identity, its range
  -- and its state, or becomes complete; it is complete only without an error and of a live
  -- stream, and when it is finished otherwise it has an error; it is polled again only without an
  -- error; it is restarted only without preview, and at most twice; a dead stream's chunk goes
  -- back with no request; and the stream gets at most one block of rows and no other change.
  pub poller_manipulate-IsPolled :
      (s : Stream) (reply : Reply GetQueryResultsOutput) (c : Chunk)
      → IsPolled s c (poller_manipulate order failed_text s reply c)
  unfolding poller_manipulate
  poller_manipulate-IsPolled s reply c = elim (Bool-cases (alive s)) [
    | inl live ↦ rw live (reply-IsPolled reply c s live)
    | inr dead ↦ rw dead (record {
      same = ground arith;
      state = ground arith;
      completed = ground arith;
      failed = ground arith;
      polled_again = ground arith;
      restarts = ground arith;
      restarted = ground arith;
      dead = ground arith;
      delivered = ([], refl);
    })
  ]
