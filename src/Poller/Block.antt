-- ===== src/Poller/Block.antt =====
-- The block that a query with preview delivers for a batch of results (poller.go,
-- translateResultsPreview).
use mathlib.Core.Path.{ap₂}
use incite.Base.{
  ◌≡◌, refl, sym, ◌∙◌, false, ◌||◌, Bool-cases, inl, inr, Option, none, some, List, [], ◌∷◌, ◌++◌,
  map, arith, if◌then◌else◌, Text, codes, text_eq_iff, append-nil, append_assoc,
}
use incite.Errors.{ok}
use incite.Stream.{Row}
use incite.Service.{ServiceField}
use incite.Poller.Translate.{translate_fields, translate_result}
use incite.Poller.Preview.{
  elem, delete, ptr_of, is_known, note_ptr, collect, delete_result, Sweep, sweep_one, sweep,
  insert_all, translate_preview,
}
use incite.Poller.Keys.{
  Distinct, IsOrder, elem-insert, elem-delete, insert-Distinct, elem-insert_all,
  insert_all-Distinct, sweep-new_ptr, sweep-ptr, sweep-Distinct,
}
use incite.Poller.Rows.{sent_row, translate_fields-sent, >>=-ok}

-- The @ptr of each result that has one.
abbrev with_ptr : Option Text → List Text → List Text
with_ptr none ps = ps
with_ptr (some p) ps = p ∷ ps

abbrev pub ptrs : List (List (Option ServiceField)) → List Text
ptrs [] = []
ptrs (r ∷ rs) = with_ptr (ptr_of r) (ptrs rs)

-- The results that were not delivered before.
abbrev pub fresh : List Text → List (List (Option ServiceField)) → List (List (Option ServiceField))
fresh seen [] = []
fresh seen (r ∷ rs) = if is_known (ptr_of r) seen then fresh seen rs else r ∷ fresh seen rs

-- The keys of the first list that are not in the second.
abbrev pub missing : List Text → List Text → List Text
missing [] present = []
missing (q ∷ qs) present = if elem q present then missing qs present else q ∷ missing qs present

-- The row that deletes a result: its @ptr, and @deleted=true.
abbrev pub deletion : Text → Row
deletion p =
    record { field = codes "@ptr"; value = p }
    ∷ record { field = codes "@deleted"; value = codes "true" }
    ∷ []

delete_result-deletion : (p : Text) → delete_result p ≡ deletion p
unfolding delete_result
delete_result-deletion p = refl

elem-note_ptr :
    (p : Text) (o : Option Text) (n ps : List Text)
    → (elem p (note_ptr o n) || elem p ps) ≡ (elem p n || elem p (with_ptr o ps))
unfolding elem
elem-note_ptr p none n ps = refl
elem-note_ptr p (some q) n ps = ground (arith, elem-insert p q n)

note_ptr-Distinct : (o : Option Text) (n : List Text) → Distinct n → Distinct (note_ptr o n)
note_ptr-Distinct none n h = h
note_ptr-Distinct (some q) n h = insert-Distinct q n h

-- What the first loop of a batch collects: the rows of the fresh results, and the keys.
pub record IsCollected (seen : List Text) (rs : List (List (Option ServiceField)))
    (block : List Row) (new_ptr : List Text) (block' : List Row) (new_ptr' : List Text)
    : Type 0 where
  pub keys : (p : Text) → elem p new_ptr' ≡ (elem p new_ptr || elem p (ptrs rs))
  pub distinct : Distinct new_ptr → Distinct new_ptr'
  pub rows : (rows : List Row) × (block' ≡ block ++ rows) × (fresh seen rs ≡ map sent_row rows)

collect-IsCollected :
    (query_id text : Text) (seen : List Text) (rs : List (List (Option ServiceField)))
    (block : List Row) (new_ptr : List Text) (block' : List Row) (new_ptr' : List Text)
    → collect query_id text seen rs block new_ptr ≡ ok (block', new_ptr')
    → IsCollected seen rs block new_ptr block' new_ptr'
unfolding collect translate_fields translate_result
collect-IsCollected query_id text seen [] block new_ptr block' new_ptr' h = record {
  keys = λ p. unfold elem in ground arith;
  distinct = λ d. ground arith;
  rows = ([], ground (arith, append-nil block), refl);
}
collect-IsCollected query_id text seen (r ∷ rs) block new_ptr block' new_ptr' h =
    let n = note_ptr (ptr_of r) new_ptr in
    elim (Bool-cases (is_known (ptr_of r) seen)) [
      | inl known ↦
          let c =
            collect-IsCollected query_id text seen rs block n block' new_ptr' (ground arith) in
          record {
            keys = λ p. c.keys p ∙ elem-note_ptr p (ptr_of r) new_ptr (ptrs rs);
            distinct = λ d. c.distinct (note_ptr-Distinct (ptr_of r) new_ptr d);
            rows = rw known c.rows;
          }
      | inr unknown ↦
          let (row, p, h') =
            >>=-ok (translate_result query_id text r)
              (λ row. collect query_id text seen rs (block ++ row ∷ []) n) (ground arith) in
          let c =
            collect-IsCollected query_id text seen rs (block ++ row ∷ []) n block' new_ptr' h' in
          let (rows, e, f) = c.rows in
          let sent = translate_fields-sent query_id text 0 r row p in
          record {
            keys = λ p. c.keys p ∙ elem-note_ptr p (ptr_of r) new_ptr (ptrs rs);
            distinct = λ d. c.distinct (note_ptr-Distinct (ptr_of r) new_ptr d);
            rows = (
              row ∷ rows,
              e ∙ append_assoc block (row ∷ []) rows,
              ground (arith, unknown, f, sent),
            );
          }
    ]

missing-delete :
    (q : Text) (qs present : List Text)
    → elem q qs ≡ false
    → missing qs (delete q present) ≡ missing qs present
unfolding elem
missing-delete q [] present h = refl
missing-delete q (x ∷ qs) present h =
    ground (
      arith,
      missing-delete q qs present,
      elem-delete x q present,
      text_eq_iff x q,
      text_eq_iff q x,
    )

sweep-block :
    (qs : List Text) (w : Sweep)
    → Distinct qs
    → (sweep qs w).block ≡ w.block ++ map deletion (missing qs w.new_ptr)
unfolding sweep
sweep-block [] w h = sym (append-nil w.block)
sweep-block (q ∷ qs) w h = ground (
  arith,
  sweep-block qs (sweep_one q w) h.1,
  missing-delete q qs w.new_ptr h.0,
  delete_result-deletion q,
  append_assoc w.block (deletion q ∷ []) (map deletion (missing qs w.new_ptr)),
)

-- What a block of a query with preview has to be, for the keys that were known before it and for
-- the results of the service.
pub record IsBlock (order : List Text → List Text) (known : List Text)
    (results : List (List (Option ServiceField))) (block : List Row) (known' : List Text)
    : Type 0 where
  pub keys : (p : Text) → elem p known' ≡ elem p (ptrs results)
  pub distinct : Distinct known'
  pub rows :
      (rows : List Row) × (fresh known results ≡ map sent_row rows)
      × (block ≡ rows ++ map deletion (missing (order known) (ptrs results)))

missing-same :
    (qs present present' : List Text)
    → ((p : Text) → elem p present ≡ elem p present')
    → missing qs present ≡ missing qs present'
missing-same [] present present' h = refl
missing-same (q ∷ qs) present present' h = ground (arith, h q, missing-same qs present present' h)

-- For a batch of results of a query with preview the poller delivers the rows of the results that
-- it has not delivered before, in order, and then for each key that it has delivered and that is
-- not among the results any more the row with this @ptr and with @deleted=true; after that exactly
-- the keys of the results count as delivered. Go visits the keys of a map in any order, each once.
pub translate_preview_lem :
    (order : List Text → List Text) (query_id text : Text) (known : List Text)
    (results : List (List (Option ServiceField))) (block : List Row) (known' : List Text)
    → IsOrder order
    → Distinct known
    → translate_preview order query_id text known results ≡ ok (block, known')
    → IsBlock order known results block known'
unfolding translate_preview
translate_preview_lem order query_id text known results block known' o d h =
    let (r, p, h') = >>=-ok (collect query_id text known results [] []) _ h in
    let c = collect-IsCollected query_id text known results [] [] r.0 r.1 p in
    let (rows, e, f) = c.rows in
    let w : Sweep = record { block = r.0; ptr = known; new_ptr = r.1 } in
    let w' = sweep (order known) w in
    let visited = o.distinct known d in
    let keys_eq : known' ≡ insert_all (order w'.new_ptr) w'.ptr = ground arith in
    let block_eq : block ≡ w'.block = ground arith in
    record {
      keys = λ p. rw keys_eq (
          unfold elem in
          ground (
            arith,
            elem-insert_all p (order w'.new_ptr) w'.ptr,
            o.same p w'.new_ptr,
            sweep-ptr p (order known) w visited,
            sweep-new_ptr p (order known) w,
            o.same p known,
            c.keys p,
          ));
      distinct =
          rw keys_eq
            (insert_all-Distinct (order w'.new_ptr) w'.ptr (sweep-Distinct (order known) w d));
      rows = (
        rows,
        f,
        block_eq
            ∙ sweep-block (order known) w visited
            ∙ ap₂ (λ b ps. b ++ map deletion ps) e
                (missing-same (order known) r.1 (ptrs results)
                  (λ p. unfold elem in ground (arith, c.keys p))),
      );
    }
