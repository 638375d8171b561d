-- ===== src/Unmarshal/Select.antt =====
-- The choice of decode functions by the types of the target (unmarshal.go, the sel functions).
use incite.Base.{
  ℕ, suc, Bool, ◌||◌, Option, none, some, List, [], ◌∷◌, Text, codes, text_eq, ◌==◌, if◌then◌else◌,
}
use incite.Unmarshal.Types.{
  GoType, Fields, end, field, Tags, Kind, string_kind, bool_kind, interface_kind, struct_kind,
  map_kind, slice_kind, array_kind, ptr_kind, other_kind, int_kind, uint_kind, float_kind, kind,
  string_type, map_type, elem_type, key_type, fields_of, methods, is_time, is_result, dig,
}
use incite.Unmarshal.Columns.{
  Decoder, to_string, to_int, to_uint, to_float, to_bool, to_text_unmarshaler, as_json,
  as_json_fuzzy, as_insights_time,
}

-- The messages of an InvalidUnmarshalError.
pub data Unsuitable : Type 0 where
  bad_time bad_deleted bad_type : Unsuitable

-- An InvalidUnmarshalError, less the type of the target.
pub data Invalid : Type 0 where
  bad_target : Invalid
  bad_row : GoType → Invalid
  bad_field : GoType → Text → GoType → Unsuitable → Invalid

pub data Choice (A : Type 0) : Type 0 where
  chosen : A → Choice A
  refused : Unsuitable → Choice A

abbrev pub time_by_kind : GoType → Kind → Choice Decoder
time_by_kind t string_kind = chosen to_string
time_by_kind t struct_kind = if is_time t then chosen as_insights_time else refused bad_time
time_by_kind t k = refused bad_time

unfoldable pub select_time : GoType → Choice Decoder
select_time t = time_by_kind t (kind t)

abbrev pub deleted_by_kind : Kind → Choice Decoder
deleted_by_kind string_kind = chosen to_string
deleted_by_kind bool_kind = chosen to_bool
deleted_by_kind k = refused bad_deleted

unfoldable pub select_deleted : GoType → Choice Decoder
select_deleted t = deleted_by_kind (kind t)

unfoldable pub select_by_kind : Kind → Choice Decoder
select_by_kind string_kind = chosen to_string
select_by_kind (int_kind b) = chosen to_int
select_by_kind (uint_kind b) = chosen to_uint
select_by_kind (float_kind b) = chosen to_float
select_by_kind bool_kind = chosen to_bool
select_by_kind interface_kind = chosen as_json
select_by_kind struct_kind = chosen as_json
select_by_kind map_kind = chosen as_json
select_by_kind slice_kind = chosen as_json
select_by_kind array_kind = chosen as_json
select_by_kind ptr_kind = refused bad_type
select_by_kind other_kind = refused bad_type

unfoldable pub select_by_type : GoType → Choice Decoder
unfolding select_by_kind
select_by_type t =
    let m = methods t in
    let by_kind = select_by_kind (kind t) in
    if m.some_method
    then (if m.text_unmarshaler
        then chosen to_text_unmarshaler
        else if m.json_unmarshaler
        then chosen as_json
        else by_kind)
    else by_kind

-- How a struct field is decoded: the name of the result field, the depth and the function.
pub record ColumnChoice : Type 0 where
  pub name : Text
  pub depth : ℕ
  pub decoder : Decoder

-- The text before the first comma.
unfoldable pub until_comma : Text → Text
until_comma [] = []
until_comma (c ∷ cs) = let rest = until_comma cs in if c == 44 then [] else c ∷ rest

abbrev pub dash : Text
dash = codes "-"

unfoldable pub is_dash : Text → Bool
is_dash t = text_eq t dash

unfoldable pub is_time_tag : Text → Bool
is_time_tag t = text_eq t (codes "@timestamp") || text_eq t (codes "@ingestionTime")

unfoldable pub is_deleted_tag : Text → Bool
is_deleted_tag t = text_eq t (codes "@deleted")

unfoldable pub selector_of : Text → GoType → Choice Decoder
unfolding select_time select_deleted select_by_type is_time_tag is_deleted_tag
selector_of tag t =
    if is_time_tag tag
    then select_time t
    else if is_deleted_tag tag
    then select_deleted t
    else select_by_type t

-- A tagged field with a bad type is an error, and one without a tag is ignored.
abbrev pub tagged_choice : Text → ℕ → Choice Decoder → Choice (Option ColumnChoice)
tagged_choice name depth (chosen f) =
    chosen (some (record { name = name; depth = depth; decoder = f }))
tagged_choice name depth (refused e) = refused e

abbrev pub untagged_choice : Text → ℕ → Choice Decoder → Choice (Option ColumnChoice)
untagged_choice name depth (chosen f) =
    chosen (some (record { name = name; depth = depth; decoder = f }))
untagged_choice name depth (refused e) = chosen none

-- The case of no `incite` tag.
unfoldable pub select_json_tag : Text → Text → GoType → Choice (Option ColumnChoice)
unfolding select_by_type until_comma is_dash
select_json_tag name [] t = untagged_choice name (dig t).1 (select_by_type (dig t).0)
select_json_tag name (c ∷ cs) t =
    if is_dash (c ∷ cs)
    then chosen none
    else chosen (some (record { name = until_comma (c ∷ cs); depth = 0; decoder = as_json }))

-- selStructRowColDecodeFunc. Without a decode function the field is ignored.
abbrev pub column_by_tag : Text → Text → Text → GoType → Choice (Option ColumnChoice)
column_by_tag [] name json t = select_json_tag name json t
column_by_tag (c ∷ cs) name json t =
    if is_dash (c ∷ cs)
    then chosen none
    else tagged_choice (c ∷ cs) (dig t).1 (selector_of (c ∷ cs) (dig t).0)

unfoldable pub select_column : Text → Tags → GoType → Choice (Option ColumnChoice)
unfolding selector_of select_json_tag is_dash
select_column name tags t = column_by_tag tags.incite name tags.json t

-- An entry of the map dfs: the struct field of an index, whether it is exported, its type, and how
-- to decode it.
pub record FieldDecoder : Type 0 where
  pub index : ℕ
  pub exported : Bool
  pub field_type : GoType
  pub choice : ColumnChoice

-- What a row is decoded with.
pub data RowDecoder : Type 0 where
  copying : RowDecoder
  to_map : GoType → GoType → ℕ → Decoder → RowDecoder
  to_struct : List FieldDecoder → RowDecoder

pub data RowChoice (A : Type 0) : Type 0 where
  accepted : A → RowChoice A
  invalid : Invalid → RowChoice A

abbrev pub and_more :
    GoType
    → Text
    → GoType
    → ℕ
    → Bool
    → Choice (Option ColumnChoice)
    → RowChoice (List FieldDecoder)
    → RowChoice (List FieldDecoder)
and_more row_type name t i exported (refused e) more = invalid (bad_field row_type name t e)
and_more row_type name t i exported (chosen c) (invalid e) = invalid e
and_more row_type name t i exported (chosen none) (accepted dfs) = accepted dfs
and_more row_type name t i exported (chosen (some c)) (accepted dfs) =
    accepted (record { index = i; exported = exported; field_type = t; choice = c } ∷ dfs)

-- The loop of selStructRowDecodeFunc, from field i on. Only a field with an `incite` tag can have an
-- error, which shows that tag.
unfoldable pub select_fields : GoType → ℕ → Fields → RowChoice (List FieldDecoder)
unfolding select_column
select_fields row_type i end = accepted []
select_fields row_type i (field name exported tags t fs) =
    and_more row_type tags.incite t i exported (select_column name tags t)
      (select_fields row_type (suc i) fs)

abbrev pub struct_row : RowChoice (List FieldDecoder) → RowChoice RowDecoder
struct_row (accepted dfs) = accepted (to_struct dfs)
struct_row (invalid e) = invalid e

-- The decode function for the values of a map, whose type at the end of its pointers is u.
abbrev pub element_by_kind : Kind → Option Decoder
element_by_kind string_kind = some to_string
element_by_kind interface_kind = some as_json_fuzzy
element_by_kind k = none

unfoldable pub select_element : GoType → Option Decoder
select_element u =
    if (methods u).text_unmarshaler then some to_text_unmarshaler else element_by_kind (kind u)

abbrev pub map_row : GoType → ℕ → Option Decoder → RowChoice RowDecoder
map_row t depth none = invalid (bad_row t)
map_row t depth (some f) = accepted (to_map t (elem_type t) depth f)

-- selMapRowDecodeFunc.
abbrev pub map_by_key : GoType → Kind → RowChoice RowDecoder
map_by_key t string_kind = map_row t (dig (elem_type t)).1 (select_element (dig (elem_type t)).0)
map_by_key t k = invalid (bad_row t)

unfoldable pub select_map : GoType → RowChoice RowDecoder
unfolding select_element
select_map t = map_by_key t (kind (key_type t))

abbrev pub string_map : GoType
string_map = map_type string_type string_type

-- selRowDecodeFunc.
abbrev pub row_by_kind : GoType → Kind → RowChoice RowDecoder
row_by_kind t interface_kind = select_map string_map
row_by_kind t map_kind = select_map t
row_by_kind t struct_kind = struct_row (select_fields t 0 (fields_of t))
row_by_kind t slice_kind = if is_result t then accepted copying else invalid (bad_row t)
row_by_kind t k = invalid (bad_row t)

unfoldable pub select_row : GoType → RowChoice RowDecoder
unfolding select_map select_fields
select_row t = row_by_kind t (kind t)
