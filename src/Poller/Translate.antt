-- ===== src/Poller/Translate.antt =====
-- Results of the service as rows (poller.go, translateResult and translateResultsNoPreview).
use incite.Base.{ℕ, ◌+◌, Option, none, some, List, [], ◌∷◌, Text}
use incite.Errors.{unexpected_query, nil_result_field, no_key, no_value, Result, ok, err, ◌>>=◌}
use incite.Stream.{ResultField, Row}
use incite.Service.{ServiceField}

abbrev translate_value : Text → Text → Text → Option Text → Result ResultField
translate_value query_id text k none = err (unexpected_query query_id text (no_value k))
translate_value query_id text k (some v) = ok (record { field = k; value = v })

abbrev translate_key : Text → Text → Option Text → Option Text → Result ResultField
translate_key query_id text none v = err (unexpected_query query_id text no_key)
translate_key query_id text (some k) v = translate_value query_id text k v

-- The field at index i.
unfoldable pub translate_field : Text → Text → ℕ → Option ServiceField → Result ResultField
translate_field query_id text i none = err (unexpected_query query_id text (nil_result_field i))
translate_field query_id text i (some f) = translate_key query_id text f.field f.value

unfoldable pub translate_fields : Text → Text → ℕ → List (Option ServiceField) → Result Row
unfolding translate_field
translate_fields query_id text i [] = ok []
translate_fields query_id text i (f ∷ fs) = do
  field ← translate_field query_id text i f
  row ← translate_fields query_id text (i + 1) fs
  ok (field ∷ row)

unfoldable pub translate_result : Text → Text → List (Option ServiceField) → Result Row
unfolding translate_field translate_fields
translate_result query_id text r = translate_fields query_id text 0 r

unfoldable pub translate_no_preview :
    Text → Text → List (List (Option ServiceField)) → Result (List Row)
unfolding translate_result
translate_no_preview query_id text [] = ok []
translate_no_preview query_id text (r ∷ rs) = do
  row ← translate_result query_id text r
  rows ← translate_no_preview query_id text rs
  ok (row ∷ rows)
