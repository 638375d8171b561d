-- ===== src/System/Ends.antt =====
-- The workers give no chunk the error io.EOF (starter.go, poller.go).
use incite.Base.{
  ℕ, ◌+◌, ◌≡◌, ◌≢◌, refl, Bool, true, false, Option, none, some, List, [], ◌∷◌, ◌++◌, arith, Text,
  length, if◌then◌else◌,
}
use incite.Errors.{Error, Result, ok, err, eof, ◌>>=◌}
use incite.Stream.{Stream, Row}
use incite.Chunk.{Chunk}
use incite.Service.{
  Reply, output, failure, QueryStatus, running, failed, ServiceField, StartQueryOutput,
  GetQueryResultsOutput,
}
use incite.Starter.{starter_manipulate, start_chunk}
use incite.Poller.Translate.{
  translate_field, translate_fields, translate_result, translate_no_preview,
}
use incite.Poller.Preview.{collect, translate_preview, note_ptr, ptr_of, is_known}
use incite.Poller.{
  send_chunk_block, translate, splittable, poll_running, poll_complete, poll_status_failed,
  poll_status, poller_manipulate, with_err, with_stats, translate_stats, add_done,
}

abbrev pub not_eof : Option Error → Bool
not_eof (some eof) = false
not_eof _ = true

pub starter_manipulate-not_eof :
    (s : Stream) (reply : Reply StartQueryOutput) (c : Chunk)
    → not_eof c.err ≡ true
    → not_eof (starter_manipulate s reply c).chunk.err ≡ true
unfolding starter_manipulate start_chunk
starter_manipulate-not_eof s (output none) c h = ground (arith, h)
starter_manipulate-not_eof s (output (some q)) c h = ground (arith, h)
starter_manipulate-not_eof s (failure e) c h = ground (arith, h)

-- A result that is no error, or another error than io.EOF.
abbrev Fine {ℓ} : {A : Type ℓ} → Result A → Type 0
Fine (ok a) = Unit {0}
Fine (err e) = not_eof (some e) ≡ true

translate_field-Fine :
    (query_id text : Text) (i : ℕ) (f : Option ServiceField)
    → Fine (translate_field query_id text i f)
unfolding translate_field
translate_field-Fine query_id text i none = refl
translate_field-Fine query_id text i (some f) = ground arith

translate_fields-Fine :
    (query_id text : Text) (i : ℕ) (fs : List (Option ServiceField))
    → Fine (translate_fields query_id text i fs)
unfolding translate_fields
translate_fields-Fine query_id text i [] = tt
translate_fields-Fine query_id text i (f ∷ fs) =
    ground (
      arith,
      translate_field-Fine query_id text i f,
      translate_fields-Fine query_id text (i + 1) fs,
    )

translate_no_preview-Fine :
    (query_id text : Text) (rs : List (List (Option ServiceField)))
    → Fine (translate_no_preview query_id text rs)
unfolding translate_no_preview translate_result
translate_no_preview-Fine query_id text [] = tt
translate_no_preview-Fine query_id text (r ∷ rs) =
    ground
      (arith, translate_fields-Fine query_id text 0 r, translate_no_preview-Fine query_id text rs)

then-Fine {ℓ κ} :
    {A : Type ℓ} {B : Type κ} (r : Result A) (f : A → Result B)
    → Fine r
    → ((a : A) → Fine (f a))
    → Fine (r >>= f)
then-Fine (ok a) f h k = k a
then-Fine (err e) f h k = h

either-Fine {ℓ} :
    {A : Type ℓ} (b : Bool) (x y : Result A) → Fine x → Fine y → Fine (if b then x else y)
either-Fine true x y h k = h
either-Fine false x y h k = k

collect-Fine :
    (query_id text : Text) (seen : List Text) (rs : List (List (Option ServiceField)))
    (block : List Row) (new_ptr : List Text)
    → Fine (collect query_id text seen rs block new_ptr)
unfolding collect translate_result
collect-Fine query_id text seen [] block new_ptr = tt
collect-Fine query_id text seen (r ∷ rs) block new_ptr =
    let new_ptr' = note_ptr (ptr_of r) new_ptr in
    either-Fine (is_known (ptr_of r) seen) _ _ (collect-Fine query_id text seen rs block new_ptr') (
      then-Fine (translate_fields query_id text 0 r) _ (translate_fields-Fine query_id text 0 r)
        (λ row. collect-Fine query_id text seen rs (block ++ row ∷ []) new_ptr'))

translate-Fine :
    (order : List Text → List Text) (c : Chunk) (s : Stream)
    (results : List (List (Option ServiceField))) (ptr : Option (List Text))
    → Fine (translate order c s results ptr)
unfolding translate translate_preview
translate-Fine order c s results none =
    ground (arith, translate_no_preview-Fine c.query_id s.spec.text results)
translate-Fine order c s results (some ptr) =
    ground (arith, collect-Fine c.query_id s.spec.text ptr results [] [])

module _ (order : List Text → List Text) (failed_text : Text) where
  sent-not_eof :
      (c : Chunk) (s : Stream) (results : List (List (Option ServiceField)))
      → not_eof c.err ≡ true
      → not_eof (send_chunk_block order c s results).chunk.err ≡ true
  unfolding send_chunk_block
  sent-not_eof c s results h = ground (arith, h, translate-Fine order c s results c.ptr)

  status-not_eof :
      (status : Option QueryStatus) (c : Chunk) (s : Stream) (out : GetQueryResultsOutput)
      → not_eof (poll_status order failed_text status c s out).chunk.err ≡ true
  unfolding poll_status poll_running poll_complete poll_status_failed splittable
  status-not_eof (some running) c s out =
      ground (arith, sent-not_eof (with_err c none) s out.results refl)
  status-not_eof (some QueryStatus.complete) c s out =
      let c' = with_stats (translate_stats out.statistics) c in
      let (c'', splits) = splittable c' s (length out.results) in
      ground (arith, sent-not_eof (add_done (with_err c'' none)) s out.results refl)
  status-not_eof (some failed) c s out = ground arith
  status-not_eof _ c s out = ground arith

  pub poller_manipulate-not_eof :
      (s : Stream) (reply : Reply GetQueryResultsOutput) (c : Chunk)
      → not_eof (poller_manipulate order failed_text s reply c).chunk.err ≡ true
  unfolding poller_manipulate
  poller_manipulate-not_eof s (output out) c = ground (arith, status-not_eof out.status c s out)
  poller_manipulate-not_eof s (failure e) c = ground arith

pub not_eof-ne : (e : Option Error) → not_eof e ≡ true → e ≢ some eof
not_eof-ne e h k = ground (arith, h, k)
