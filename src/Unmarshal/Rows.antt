-- ===== src/Unmarshal/Rows.antt =====
-- The decoding of rows (unmarshal.go: fill, the functions that the sel functions return, array).
use incite.Base.{
  ℕ, zero, suc, ◌+◌, Bool, true, Option, none, some, List, [], ◌∷◌, Text, text_eq, if◌then◌else◌,
}
use incite.Base.Int.{pos}
use incite.Clock.{Time}
use incite.Stream.{ResultField, Row}
use incite.Unmarshal.Types.{
  GoType, kind, Kind, interface_kind, elem_type, key_type, is_string, is_any,
}
use incite.Unmarshal.GoValues.{
  Value, nil, ref, map, struct, row, time, int, uint, iface, Values, none_left, item, Entries,
  empty, entry, zero_value,
}
use incite.Unmarshal.Columns.{Packages, Decoder, Cause, Decoded, decode}
use incite.Unmarshal.Select.{FieldDecoder, RowDecoder, copying, to_map, to_struct, string_map}

-- An UnmarshalResultFieldValueError.
pub record FieldError : Type 0 where
  pub column : ResultField
  pub cause : Cause
  pub result_index : ℕ
  pub field_index : ℕ

-- wrap keeps the first error in s.err.
abbrev pub first_error {ℓ} : {E : Type ℓ} → Option E → Option E → Option E
first_error none later = later
first_error (some e) later = some e

abbrev pub wrap : ℕ → ℕ → ResultField → Option Cause → Option FieldError
wrap i j col none = none
wrap i j col (some e) = some (record { column = col; cause = e; result_index = i; field_index = j })

abbrev pub through {ℓ} : {E : Type ℓ} → Option (Value × E) → Option (Value × E)
through none = none
through (some (v, e)) = some (ref v, e)

-- fill, and what is done with the value at the end of the pointers. none when reflect panics.
unfoldable pub fill {ℓ} :
    {E : Type ℓ}
    → (GoType → Bool → Value → Option (Value × E))
    → ℕ
    → GoType
    → Bool
    → Value
    → Option (Value × E)
fill use_value zero t can_set v = use_value t can_set v
fill use_value (suc depth) t can_set nil =
    if can_set
    then through (fill use_value depth (elem_type t) true (zero_value (elem_type t)))
    else none
fill use_value (suc depth) t can_set (ref v) =
    through (fill use_value depth (elem_type t) can_set v)
fill use_value (suc depth) t can_set v = none

-- m[key] = v, in a map that has each key once.
unfoldable pub put_entry : Text → Value → Entries → Entries
put_entry key v empty = entry key v empty
put_entry key v (entry k w es) =
    let rest = entry k w (put_entry key v es) in if text_eq k key then entry k v es else rest

-- The use of the field with the given index.
abbrev pub after_item : Value → Option (Values × Option Cause) → Option (Values × Option Cause)
after_item v none = none
after_item v (some (vs, e)) = some (item v vs, e)

abbrev pub at_item : Values → Option Decoded → Option (Values × Option Cause)
at_item vs none = none
at_item vs (some (v, e)) = some (item v vs, e)

unfoldable pub at_index : (Value → Option Decoded) → ℕ → Values → Option (Values × Option Cause)
at_index use_value i none_left = none
at_index use_value zero (item v vs) = at_item vs (use_value v)
at_index use_value (suc i) (item v vs) = after_item v (at_index use_value i vs)

-- dfs[name]: of the fields of one name the map has the last.
abbrev pub or_last : FieldDecoder → Text → Option FieldDecoder → Option FieldDecoder
or_last d name (some later) = some later
or_last d name none = if text_eq d.choice.name name then some d else none

unfoldable pub find_decoder : Text → List FieldDecoder → Option FieldDecoder
find_decoder name [] = none
find_decoder name (d ∷ ds) = or_last d name (find_decoder name ds)

-- One column of the loop of a map row. SetMapIndex takes a key of type string, and panics if
-- that is not the type of the map's keys.
abbrev pub put_decoded :
    GoType → ResultField → Entries → Option Decoded → Option (Entries × Option Cause)
put_decoded t col es none = none
put_decoded t col es (some (v, some e)) = some (es, some e)
put_decoded t col es (some (v, none)) =
    if is_string (key_type t) then some (put_entry col.field v es, none) else none

abbrev pub next_column {ℓ} :
    {A : Type ℓ}
    → ℕ
    → ℕ
    → ResultField
    → Option FieldError
    → (A → Option FieldError → Option (A × Option FieldError))
    → Option (A × Option Cause)
    → Option (A × Option FieldError)
next_column i j col err rest none = none
next_column i j col err rest (some (a, e)) = rest a (first_error err (wrap i j col e))

-- dst.Set of the new map, into a map or an interface.
abbrev pub map_into :
    GoType → Kind → Entries → Option FieldError → Option (Value × Option FieldError)
map_into u interface_kind es err = if is_any u then some (iface string_map (map es), err) else none
map_into u k es err = some (map es, err)

abbrev pub set_map :
    GoType → Option (Entries × Option FieldError) → Option (Value × Option FieldError)
set_map u none = none
set_map u (some (es, err)) = map_into u (kind u) es err

abbrev pub set_struct : Option (Values × Option FieldError) → Option (Value × Option FieldError)
set_struct none = none
set_struct (some (vs, err)) = some (struct vs, err)

-- The values of the fields of a time.Time. Only that they have their types counts: none of them can
-- be set, and what a decode function does with a destination that cannot be set does not depend on
-- what it holds.
abbrev pub time_values : Values
time_values = item (uint 0) (item (int (pos 0)) (item nil none_left))

abbrev pub keep_time :
    Time → Option (Values × Option FieldError) → Option (Value × Option FieldError)
keep_time n none = none
keep_time n (some (vs, err)) = some (time n, err)

abbrev pub with_item :
    Value → Option (Values × Option FieldError) → Option (Values × Option FieldError)
with_item v none = none
with_item v (some (vs, err)) = some (item v vs, err)

abbrev pub next_row :
    (Option FieldError → Option (Values × Option FieldError))
    → Option (Value × Option FieldError)
    → Option (Values × Option FieldError)
next_row rest none = none
next_row rest (some (v, err)) = with_item v (rest err)

module _ (packages : Packages) where
  unfoldable pub decode_filled : Decoder → ℕ → GoType → Bool → ResultField → Value → Option Decoded
  unfolding fill decode
  decode_filled f depth t can_set col v =
      fill (λ u can w. decode packages f u can col w) depth t can_set v

  -- The loop of the function that selMapRowDecodeFunc returns, from column j on.
  unfoldable pub map_columns :
      GoType
      → GoType
      → ℕ
      → Decoder
      → ℕ
      → ℕ
      → Row
      → Entries
      → Option FieldError
      → Option (Entries × Option FieldError)
  unfolding decode_filled put_entry
  map_columns t immediate depth f i j [] es err = some (es, err)
  map_columns t immediate depth f i j (col ∷ cols) es err =
      next_column i j col err (map_columns t immediate depth f i (j + 1) cols)
        (put_decoded t col es (decode_filled f depth immediate true col (zero_value immediate)))

  -- One column of the loop of a struct row.
  unfoldable pub struct_column :
      Option FieldDecoder → ResultField → Values → Option (Values × Option Cause)
  unfolding at_index decode_filled
  struct_column none col vs = some (vs, none)
  struct_column (some d) col vs =
      at_index (decode_filled d.choice.decoder d.choice.depth d.field_type d.exported col) d.index
        vs

  -- The loop of the function that selStructRowDecodeFunc returns, from column j on.
  unfoldable pub struct_columns :
      List FieldDecoder
      → ℕ
      → ℕ
      → Row
      → Values
      → Option FieldError
      → Option (Values × Option FieldError)
  unfolding struct_column find_decoder
  struct_columns dfs i j [] vs err = some (vs, err)
  struct_columns dfs i j (col ∷ cols) vs err =
      next_column i j col err (struct_columns dfs i (j + 1) cols)
        (struct_column (find_decoder col.field dfs) col vs)

  -- The decode function of a row, for a destination of type u. It is always settable.
  unfoldable pub decode_row :
      RowDecoder
      → ℕ
      → Row
      → Option FieldError
      → GoType
      → Bool
      → Value
      → Option (Value × Option FieldError)
  unfolding map_columns struct_columns
  decode_row copying i r err u can_set v = some (row r, err)
  decode_row (to_map t immediate depth f) i r err u can_set v =
      set_map u (map_columns t immediate depth f i 0 r empty err)
  decode_row (to_struct dfs) i r err u can_set (struct vs) =
      set_struct (struct_columns dfs i 0 r vs err)
  decode_row (to_struct dfs) i r err u can_set (time n) =
      keep_time n (struct_columns dfs i 0 r time_values err)
  decode_row (to_struct dfs) i r err u can_set v = none

  -- The loop of array, from row i on, over the elements that are left of the n there are. none
  -- when a.Index panics.
  unfoldable pub decode_rows :
      RowDecoder
      → GoType
      → ℕ
      → ℕ
      → ℕ
      → List Row
      → Values
      → Option FieldError
      → Option (Values × Option FieldError)
  unfolding decode_row fill
  decode_rows f t depth i n [] vs err = some (vs, err)
  decode_rows f t depth i zero (r ∷ rs) vs err = none
  decode_rows f t depth i (suc n) (r ∷ rs) none_left err = none
  decode_rows f t depth i (suc n) (r ∷ rs) (item v vs) err =
      next_row (decode_rows f t depth (i + 1) n rs vs) (fill (decode_row f i r err) depth t true v)
