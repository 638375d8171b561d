-- ===== src/Examples/Unmarshals.antt =====
-- Targets of Unmarshal (unmarshal.go).
use incite.Base.{
  ◌≡◌, refl, true, false, none, some, List, [], ◌∷◌, arith, codes, Text, if◌then◌else◌,
}
use incite.Chunk.{itoa}
use incite.Stream.{Row, ResultField}
use incite.Unmarshal.Types.{
  GoType, end, field, Tags, string_type, uint_type, result_type, ptr, slice_type, struct_type,
  map_type, named, interface_type, kind, elem_type, key_type, fields_of, methods, is_any, is_result,
  is_string, underlying, dig, int_type, time_type,
}
use incite.Unmarshal.GoValues.{
  nil, row, ref, text, uint, slice, struct, Values, none_left, item, zero_value, HasType, fits_uint,
  int, time, iface, map, entry, empty,
}
use incite.Unmarshal.Numbers.{value, parse_uint}
use incite.Unmarshal.Columns.{Packages, to_uint, decode, overflows}
use incite.Unmarshal.Select.{copying, select_row, string_map, bad_row}
use incite.Unmarshal.Rows.{FieldError, decode_rows}
use incite.Unmarshal.Targets.{field_value, unmarshal, into_slice, invalid_unmarshal}
use incite.Unmarshal.Typing.{Returns}
use incite.Unmarshal.Messages.{invalid_message, struct_field}
use incite.Base.Int.{pos}
use incite.Unmarshal.Maps.{row_maps, with_columns, lookup, last_value, unmarshal-strings}
use incite.Unmarshal.Decoders.{IsTypeSafe}
use incite.Unmarshal.Total.{unmarshal-Returns, into_slice-Returns, HasRows}
use incite.Unmarshal.Panics.{into_slice-panics}
use incite.Unmarshal.Order.{decode_rows-after_error, after_error}
use incite.Unmarshal.Digits.{decode-uint}

-- Packages that parse no floats, times and JSON, and whose unmarshalers leave their targets.
abbrev packages : Packages
packages = record {
  parse_float = λ src. value 0;
  float_overflows = λ b n. false;
  convert_float = λ b n. n;
  parse_time = λ src. none;
  unmarshal_text = λ t src v. (v, true);
  unmarshal_json = λ t src v. (v, true);
  any_json = λ src. none;
  implements = λ u t. false;
}

packages-IsTypeSafe : IsTypeSafe packages
packages-IsTypeSafe = record {
  text_safe = λ t src v h. h;
  json_safe = λ t src v h. h;
  any_safe = λ src u x e. cc;
}

abbrev tagged : Text → Tags
tagged t = record { incite = t; json = [] }

-- struct { Level string `incite:"level"`; Count *uint8 `incite:"count"` }
abbrev counts : GoType
counts = struct_type (
    field (codes "Level") true (tagged (codes "level")) string_type
      (field (codes "Count") true (tagged (codes "count")) (ptr (uint_type 8)) end))

abbrev column : Text → Text → ResultField
column name src = record { field = name; value = src }

-- The second row has a number that does not fit.
abbrev rows : List Row
rows =
    (column (codes "level") (codes "info") ∷ column (codes "count") (codes "17") ∷ [])
    ∷ (column (codes "count") (codes "256") ∷ column (codes "level") (codes "warn") ∷ [])
    ∷ []

abbrev target : GoType
target = ptr (slice_type counts)

unmarshal_counts :
    unmarshal packages rows (some (target, ref (slice none_left 0)))
    ≡ some (
      ref (
          slice
            (item (struct (item (text (codes "info")) (item (ref (uint 17)) none_left))) (
              item (struct (item (text (codes "warn")) (item (ref (uint 0)) none_left))) none_left))
            2),
      some (
          field_value (record {
            column = column (codes "count") (codes "256");
            cause = overflows (codes "256") (uint_type 8);
            result_index = 1;
            field_index = 0;
          })),
    )
unfolding unmarshal kind dig elem_type select_row fields_of methods zero_value parse_uint
unmarshal_counts = refl

counts-HasType : HasType target (ref (slice none_left 0))
unfolding kind elem_type
counts-HasType = (refl, (refl, tt))

unmarshal-Returns_example :
    Returns (HasType target) (unmarshal packages rows (some (target, ref (slice none_left 0))))
unfolding kind dig elem_type select_row fields_of methods is_result underlying
unmarshal-Returns_example =
    unmarshal-Returns packages packages-IsTypeSafe rows target (slice none_left 0) counts-HasType
      (refl, (refl, (refl, tt))) (λ e. cc)

into_slice-Returns_example :
    Returns
      (HasRows (slice_type counts) 2)
      (into_slice packages rows (slice_type counts) none_left 0)
unfolding kind dig elem_type select_row fields_of methods
into_slice-Returns_example =
    into_slice-Returns packages packages-IsTypeSafe rows (slice_type counts) none_left 0 (refl, tt)
      (refl, (refl, tt)) (λ e. cc)

-- A slice of one element, with a capacity of two.
abbrev spare : Values
spare = item (row []) (item (row []) none_left)

into_slice-panics_example : into_slice packages rows (slice_type result_type) spare 1 ≡ none
unfolding kind dig elem_type select_row is_result
into_slice-panics_example =
    into_slice-panics packages rows (slice_type result_type) spare 1 copying refl refl (omega arith)

abbrev earlier : FieldError
earlier = record {
  column = column (codes "x") [];
  cause = overflows [] (uint_type 8);
  result_index = 0;
  field_index = 3;
}

decode_rows-after_error_example :
    decode_rows packages copying result_type 0 1 2 rows spare (some earlier)
    ≡ after_error (some earlier) (decode_rows packages copying result_type 0 1 2 rows spare none)
decode_rows-after_error_example =
    decode_rows-after_error packages copying result_type 0 1 2 rows spare (some earlier)

decode-uint_example :
    decode packages to_uint (uint_type 8) true (column (codes "count") (itoa 256)) (uint 9) ≡ (
      if fits_uint 8 256
      then some (uint 256, none)
      else some (uint 9, some (overflows (itoa 256) (uint_type 8))))
decode-uint_example =
    decode-uint packages (uint_type 8) 8 256 (codes "count") (uint 9) (unfold kind in refl)
      (omega arith)

-- A struct with a field that is not exported, which has the name of a result field.
abbrev hidden : GoType
hidden = struct_type (field (codes "level") false (tagged []) string_type end)

panic_on_hidden :
    unmarshal packages rows (some (ptr (slice_type hidden), ref (slice none_left 0))) ≡ none
unfolding unmarshal kind dig elem_type select_row fields_of methods zero_value
panic_on_hidden = refl

-- The fields of time.Time cannot be set either.
panic_on_time :
    unmarshal packages
      ((column (codes "wall") (codes "1") ∷ []) ∷ [])
      (some (ptr (slice_type time_type), ref (slice none_left 0)))
    ≡ none
unfolding unmarshal kind dig elem_type select_row fields_of methods zero_value parse_uint fits_uint
panic_on_time = refl

-- A map with keys of a defined string type.
abbrev keyed : GoType
keyed =
    map_type
      (named (record { some_method = false; text_unmarshaler = false; json_unmarshaler = false })
        string_type)
      string_type

panic_on_keyed :
    unmarshal packages rows (some (ptr (slice_type keyed), ref (slice none_left 0))) ≡ none
unfolding unmarshal kind dig elem_type key_type select_row fields_of methods zero_value is_string
panic_on_keyed = refl

-- An interface with methods.
panic_on_interface : unmarshal packages rows (some (ptr (interface_type false), ref nil)) ≡ none
unfolding unmarshal kind dig elem_type is_any
panic_on_interface = refl

-- A row that has a name twice.
abbrev twice : Row
twice = column (codes "a") (codes "1") ∷ column (codes "a") (codes "2") ∷ []

unmarshal-strings_example :
    (unmarshal packages rows (some (ptr (slice_type string_map), ref (slice none_left 0)))
      ≡ some (ref (slice (row_maps rows) 2), none))
    × (lookup (codes "a") (with_columns twice empty) ≡ last_value (codes "a") twice)
unmarshal-strings_example = unmarshal-strings packages rows twice (codes "a")

-- A row type that is no row type has the message on a struct field.
abbrev numbers : GoType
numbers = ptr (slice_type (int_type 64))

message_on_numbers :
    (unmarshal packages rows (some (numbers, ref (slice none_left 0)))
      ≡ some (
        ref (slice (item (int (pos 0)) (item (int (pos 0)) none_left)) 2),
        some (invalid_unmarshal (bad_row (int_type 64))),
      ))
    × (invalid_message (some numbers) (bad_row (int_type 64)) ≡ some (struct_field [] none))
unfolding unmarshal kind dig elem_type select_row fields_of methods zero_value invalid_message
message_on_numbers = (refl, refl)

-- A text of a time in a map from texts to interfaces is a time.
abbrev with_times : Packages
with_times = record packages { parse_time = λ src. some 7 }

abbrev timed : Row
timed = column (codes "@timestamp") (codes "2020") ∷ []

abbrev any_map : GoType
any_map = map_type string_type (interface_type true)

time_in_map :
    unmarshal with_times (timed ∷ []) (some (ptr (slice_type any_map), ref (slice none_left 0)))
    ≡ some (
      ref (
          slice
            (item (map (entry (codes "@timestamp") (iface time_type (time 7)) empty)) none_left)
            1),
      none,
    )
unfolding unmarshal kind dig elem_type key_type select_row fields_of methods zero_value is_string
    is_any
time_in_map = refl
