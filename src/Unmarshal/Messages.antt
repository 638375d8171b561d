-- ===== src/Unmarshal/Messages.antt =====
-- The messages of an InvalidUnmarshalError (unmarshal.go: Error).
use incite.Base.{Bool, true, false, Option, none, some, Text, [], if◌then◌else◌}
use incite.Unmarshal.Types.{
  GoType, Kind, string_kind, map_kind, slice_kind, array_kind, interface_kind, kind, key_type,
  is_ptr, dig,
}
use incite.Unmarshal.Select.{Invalid, bad_target, bad_row, bad_field, Unsuitable}

-- A message, with the type that it names, or the struct field and what is said of it.
pub data Message : Type 0 where
  nil_target : Message
  non_pointer not_rows key_not_string value_unsupported not_result : GoType → Message
  struct_field : Text → Option Unsuitable → Message

abbrev pub is_string_kind : Kind → Bool
is_string_kind string_kind = true
is_string_kind k = false

-- The switch on the kind of the row type. `otherwise` is the message on a struct field, which is that
-- of every row type that is neither a map nor a slice.
abbrev pub row_message : GoType → GoType → Kind → Message → Message
row_message t u map_kind otherwise =
    if is_string_kind (kind (key_type u)) then value_unsupported t else key_not_string t
row_message t u slice_kind otherwise = not_result t
row_message t u k otherwise = otherwise

-- For a target that can hold rows. none when it panics, as there is no row type.
abbrev pub rows_message : GoType → Invalid → Option Message
rows_message t bad_target = none
rows_message t (bad_row u) = some (row_message t u (kind u) (struct_field [] none))
rows_message t (bad_field u name field_type e) =
    some (row_message t u (kind u) (struct_field name (some e)))

abbrev pub target_message : GoType → Kind → Invalid → Option Message
target_message t slice_kind e = rows_message t e
target_message t array_kind e = rows_message t e
target_message t interface_kind e = rows_message t e
target_message t k e = some (not_rows t)

-- Error, for the type of the target, if it has one.
unfoldable pub invalid_message : Option GoType → Invalid → Option Message
unfolding kind dig
invalid_message none e = some nil_target
invalid_message (some t) e =
    if is_ptr (kind t) then target_message t (kind (dig t).0) e else some (non_pointer t)
