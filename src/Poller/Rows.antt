-- ===== src/Poller/Rows.antt =====
-- The rows that the poller delivers for the results of the service (poller.go).
use incite.Base.{ℕ, ◌+◌, ◌≡◌, ◌↔◌, refl, Option, some, List, [], ◌∷◌, map, arith, Text}
use incite.Errors.{Result, ok, err, ◌>>=◌}
use incite.Stream.{ResultField, Row}
use incite.Service.{ServiceField}
use incite.Poller.Translate.{
  translate_field, translate_fields, translate_result, translate_no_preview,
}

-- A row as the service sends it.
abbrev pub sent_field : ResultField → Option ServiceField
sent_field f = some (record { field = some f.field; value = some f.value })

abbrev pub sent_row : Row → List (Option ServiceField)
sent_row = map sent_field

-- A chain that succeeds has steps that do.
pub >>=-ok {ℓ κ} :
    {V : Type ℓ} {W : Type κ} {w : W} (first : Result V) (next : V → Result W)
    → (first >>= next) ≡ ok w
    → (v : V) × (first ≡ ok v) × (next v ≡ ok w)
>>=-ok (err failed) next h = cc
>>=-ok (ok v) next h = (v, refl, h)

translate_field-sent :
    (query_id text : Text) (i : ℕ) (f : Option ServiceField) (g : ResultField)
    → translate_field query_id text i f ≡ ok g
    → f ≡ sent_field g
unfolding translate_field
translate_field-sent query_id text i f g h = ground arith

pub translate_fields-sent :
    (query_id text : Text) (i : ℕ) (fs : List (Option ServiceField)) (row : Row)
    → translate_fields query_id text i fs ≡ ok row
    → fs ≡ sent_row row
unfolding translate_fields
translate_fields-sent query_id text i [] row h = ground arith
translate_fields-sent query_id text i (f ∷ fs) row h =
    let (g, p, h') = >>=-ok (translate_field query_id text i f) _ h in
    let (rest, q, r) = >>=-ok (translate_fields query_id text (i + 1) fs) _ h' in
    ground (
      arith,
      translate_field-sent query_id text i f g p,
      translate_fields-sent query_id text (i + 1) fs rest q,
    )

sent-translate_fields :
    (query_id text : Text) (i : ℕ) (row : Row)
    → translate_fields query_id text i (sent_row row) ≡ ok row
unfolding translate_fields translate_field
sent-translate_fields query_id text i [] = refl
sent-translate_fields query_id text i (f ∷ row) =
    rw (sent-translate_fields query_id text (i + 1) row)

translate_no_preview-sent :
    (query_id text : Text) (results : List (List (Option ServiceField))) (rows : List Row)
    → translate_no_preview query_id text results ≡ ok rows
    → results ≡ map sent_row rows
unfolding translate_no_preview
translate_no_preview-sent query_id text [] rows h = ground arith
translate_no_preview-sent query_id text (r ∷ rs) rows h =
    let (row, p, h') = >>=-ok (translate_result query_id text r) _ h in
    let (rest, q, e) = >>=-ok (translate_no_preview query_id text rs) _ h' in
    ground (
      arith,
      translate_fields-sent query_id text 0 r row p,
      translate_no_preview-sent query_id text rs rest q,
    )

sent-translate_no_preview :
    (query_id text : Text) (rows : List Row)
    → translate_no_preview query_id text (map sent_row rows) ≡ ok rows
unfolding translate_no_preview translate_result
sent-translate_no_preview query_id text [] = refl
sent-translate_no_preview query_id text (row ∷ rows) =
    rw (sent-translate_fields query_id text 0 row, sent-translate_no_preview query_id text rows)

-- The results of the service are translated to rows exactly when they are what the service sends
-- for these rows: all fields present, each with its name and its value, in the same order.
pub translate_no_preview_lem :
    (query_id text : Text) (results : List (List (Option ServiceField))) (rows : List Row)
    → (translate_no_preview query_id text results ≡ ok rows) ↔ (results ≡ map sent_row rows)
translate_no_preview_lem query_id text results rows = (
  translate_no_preview-sent query_id text results rows,
  λ e. rw e (sent-translate_no_preview query_id text rows),
)
