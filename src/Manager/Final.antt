-- ===== src/Manager/Final.antt =====
-- A stream has io.EOF only while all its chunks have completed (mgr.go: killStream,
-- handleChunkCompletion).
use incite.Base.{
  ℕ, ◌-◌, ◌≡◌, ◌≢◌, refl, sym, subst, ◌∙◌, inl, inr, ◌⊎◌, true, false, Bool-cases, Option, none,
  some, arith, ◌==◌, ==_iff,
}
use incite.Clock.{Time}
use incite.Errors.{
  Error, eof, reduce_parallel, restart_chunk, split_chunk, stop_chunk, unexpected_query,
}
use incite.Stream.{Stream, set_err, is_closed}
use incite.Chunk.{Chunk, mark_started, add_started, add_failed}
use incite.Manager.{
  Mgr, put, kill_stream, make_ready, stop_chunk_of, split_chunk_of, starting_error, polling_error,
  handle_starting_error, handle_polling_error, handle_chunk_started, handle_chunk_completion,
  handle_chunk,
}
use incite.Manager.Account.{own}

abbrev pub IsFinal : Stream → Type 0
IsFinal s = s.err ≡ some eof → s.m ≡ s.n

closed-ne-eof : (e : Option Error) → is_closed e ≡ true → e ≢ some eof
unfolding is_closed
closed-ne-eof e h k = ground (arith, h, k)

pub mark_started-err : (c : Chunk) → (mark_started c).err ≡ c.err
unfolding mark_started add_started add_failed
mark_started-err c = ground arith

module _ (k : ℕ) where
  kill_stream-IsFinal :
      (c : Chunk) (m : Mgr)
      → c.err ≢ some eof
      → IsFinal (m.streams k)
      → IsFinal ((kill_stream c m).streams k)
  unfolding kill_stream put set_err
  kill_stream-IsFinal c m n h e = ground (arith, n, h, e, ==_iff k c.stream)

  completion-IsFinal :
      (c : Chunk) (m : Mgr)
      → c.err ≢ some eof
      → ((k == c.stream) ≡ true) ⊎ IsFinal (m.streams k)
      → IsFinal ((handle_chunk_completion c m).streams k)
  unfolding handle_chunk_completion kill_stream put set_err
  completion-IsFinal c m n h e =
      ground (arith, n, h, e, ==_iff k c.stream, closed-ne-eof (m.streams c.stream).err)

  pub split-away :
      (c : Chunk) (m : Mgr) → (k == c.stream) ≡ false → (split_chunk_of c m).streams k ≡ m.streams k
  unfolding split_chunk_of put
  split-away c m h = rw h refl

  starting_error-IsFinal :
      (now : Time) (e : Option Error) (c : Chunk) (m : Mgr)
      → c.err ≢ some eof
      → IsFinal (m.streams k)
      → IsFinal ((starting_error now e c m).streams k)
  unfolding make_ready
  starting_error-IsFinal now (some reduce_parallel) c m n h = h
  starting_error-IsFinal now _ c m n h =
      kill_stream-IsFinal (mark_started c) m (λ e. n (sym (mark_started-err c) ∙ e)) h

  polling_error-IsFinal :
      (e : Option Error) (c : Chunk) (m : Mgr)
      → c.err ≢ some eof
      → IsFinal (m.streams k)
      → IsFinal ((polling_error e c m).streams k)
  unfolding make_ready stop_chunk_of add_failed
  polling_error-IsFinal (some restart_chunk) c m n h = h
  polling_error-IsFinal (some split_chunk) c m n h =
      completion-IsFinal (record c { err = none }) (split_chunk_of c m) (λ e. cc)
        (elim (Bool-cases (k == c.stream)) [
          | inl own ↦ inl own
          | inr other ↦ inr (subst IsFinal (sym (split-away c m other)) h)
        ])
  polling_error-IsFinal (some stop_chunk) c m n h = h
  polling_error-IsFinal (some (unexpected_query query_id text cause)) c m n h =
      kill_stream-IsFinal (add_failed c) (stop_chunk_of (add_failed c) m) n h
  polling_error-IsFinal _ c m n h = kill_stream-IsFinal (add_failed c) m n h

  pub handle_chunk-IsFinal :
      (now : Time) (c : Chunk) (m m' : Mgr)
      → c.err ≢ some eof
      → IsFinal (m.streams k)
      → handle_chunk now c m ≡ some m'
      → IsFinal (m'.streams k)
  unfolding handle_chunk handle_starting_error handle_polling_error handle_chunk_started
  handle_chunk-IsFinal now c m m' n h r =
      let m1 = record m { num_starting = m.num_starting - 1 } in
      let m2 = record m { num_polling = m.num_polling - 1 } in
      let a = starting_error-IsFinal now c.err c m1 n h in
      let b = polling_error-IsFinal c.err c m2 n h in
      let d = completion-IsFinal c m2 n (inr h) in ground (arith, r, a, b, d, h)
