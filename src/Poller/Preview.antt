-- ===== src/Poller/Preview.antt =====
-- Results of a query with preview (poller.go, translateResultsPreview). A map from texts to true
-- is the list of its keys, each once.
use incite.Base.{
  Bool, false, not, ◌||◌, Option, none, some, List, [], ◌∷◌, ◌++◌, if◌then◌else◌, Text, codes,
  text_eq,
}
use incite.Errors.{Result, ok, ◌>>=◌}
use incite.Stream.{Row}
use incite.Service.{ServiceField}
use incite.Poller.Translate.{translate_result}

unfoldable pub elem : Text → List Text → Bool
elem p [] = false
elem p (q ∷ qs) = text_eq q p || elem p qs

-- m[p] = true.
unfoldable pub insert : Text → List Text → List Text
unfolding elem
insert p qs = if elem p qs then qs else p ∷ qs

-- delete(m, p).
unfoldable pub delete : Text → List Text → List Text
delete p [] = []
delete p (q ∷ qs) = let rest = delete p qs in if text_eq q p then rest else q ∷ rest

abbrev pub ptr_key : Text
ptr_key = codes "@ptr"

-- The @ptr of a result: the value of the first field of that name.
abbrev is_ptr : Option Text → Bool
is_ptr none = false
is_ptr (some k) = text_eq k ptr_key

unfoldable pub ptr_of : List (Option ServiceField) → Option Text
ptr_of [] = none
ptr_of (none ∷ fs) = ptr_of fs
ptr_of (some f ∷ fs) = let rest = ptr_of fs in if is_ptr f.field then f.value else rest

-- Whether a result was delivered before.
abbrev pub is_known : Option Text → List Text → Bool
is_known none seen = false
is_known (some p) seen = elem p seen

abbrev pub note_ptr : Option Text → List Text → List Text
note_ptr none new_ptr = new_ptr
note_ptr (some p) new_ptr = insert p new_ptr

-- The first loop, over the results: the rows that are new, and the set newPtr.
unfoldable pub collect :
    Text
    → Text
    → List Text
    → List (List (Option ServiceField))
    → List Row
    → List Text
    → Result (List Row × List Text)
unfolding elem insert ptr_of
collect query_id text seen [] block new_ptr = ok (block, new_ptr)
collect query_id text seen (r ∷ rs) block new_ptr =
    let new_ptr' = note_ptr (ptr_of r) new_ptr in
    let skipped = collect query_id text seen rs block new_ptr' in
    let taken = translate_result query_id text r >>= λ row.
    collect query_id text seen rs (block ++ row ∷ []) new_ptr' in
    if is_known (ptr_of r) seen then skipped else taken

unfoldable pub delete_result : Text → Row
delete_result p =
    record { field = ptr_key; value = p }
    ∷ record { field = codes "@deleted"; value = codes "true" }
    ∷ []

-- The block, c.ptr and newPtr in the second loop.
pub record Sweep : Type 0 where
  pub block : List Row
  pub ptr : List Text
  pub new_ptr : List Text

unfoldable pub sweep_one : Text → Sweep → Sweep
unfolding elem delete delete_result
sweep_one p w =
    if not (elem p w.new_ptr)
    then record w { block = w.block ++ delete_result p ∷ []; ptr = delete p w.ptr }
    else record w { new_ptr = delete p w.new_ptr }

-- The second loop, over the keys of c.ptr in the order in which they are visited.
unfoldable pub sweep : List Text → Sweep → Sweep
unfolding sweep_one
sweep [] w = w
sweep (p ∷ ps) w = sweep ps (sweep_one p w)

-- The last loop, over the keys that are left in newPtr.
unfoldable pub insert_all : List Text → List Text → List Text
unfolding insert
insert_all [] ptr = ptr
insert_all (p ∷ ps) ptr = insert_all ps (insert p ptr)

abbrev finish_preview :
    (List Text → List Text) → List Text → List Row × List Text → List Row × List Text
finish_preview order ptr (block, new_ptr) =
    let w = sweep (order ptr) (record { block = block; ptr = ptr; new_ptr = new_ptr }) in
    (w.block, insert_all (order w.new_ptr) w.ptr)

unfoldable pub translate_preview :
    (List Text → List Text)
    → Text
    → Text
    → List Text
    → List (List (Option ServiceField))
    → Result (List Row × List Text)
unfolding collect sweep insert_all
translate_preview order query_id text ptr results =
    collect query_id text ptr results [] [] >>= λ r. ok (finish_preview order ptr r)
