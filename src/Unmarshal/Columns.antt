-- ===== src/Unmarshal/Columns.antt =====
-- The decoding of one result field into a destination (unmarshal.go, the decodeCol functions).
use incite.Base.{
  ℕ, Bool, true, false, ◌||◌, Option, none, some, [], ◌∷◌, Text, codes, text_eq, ◌==◌, leb, ◌&&◌,
  if◌then◌else◌,
}
use incite.Base.Int.{ℤ}
use incite.Clock.{Time}
use incite.Stream.{ResultField}
use incite.Unmarshal.Types.{
  GoType, string_type, time_type, Kind, string_kind, bool_kind, int_kind, uint_kind, float_kind,
  kind, is_time, is_any,
}
use incite.Unmarshal.GoValues.{
  Value, text, bool, int, uint, float, time, iface, fits_int, fits_uint,
}
use incite.Unmarshal.Numbers.{NumError, Parsed, value, wrong, parse_int, parse_uint, parse_bool}

-- What the decoders use of other packages: strconv.ParseFloat and the conversion of a float64 to a
-- width, time.Parse with TimeLayout, UnmarshalText on a pointer to the value, json.Unmarshal into
-- such a pointer, and json.Unmarshal into an empty interface (none on an error, `some none` for
-- null). The Boolean is false on an error. And whether a type has the methods of an interface type.
pub record Packages : Type 0 where
  pub parse_float : Text → Parsed ℕ
  pub float_overflows : ℕ → ℕ → Bool
  pub convert_float : ℕ → ℕ → ℕ
  pub parse_time : Text → Option Time
  pub unmarshal_text : GoType → Text → Value → Value × Bool
  pub unmarshal_json : GoType → Text → Value → Value × Bool
  pub any_json : Text → Option (Option (GoType × Value))
  pub implements : GoType → GoType → Bool

pub data Decoder : Type 0 where
  to_string to_int to_uint to_float to_bool to_text_unmarshaler : Decoder
  as_json as_json_fuzzy as_insights_time : Decoder

-- The cause of a decoding error: of strconv, an overflow of a type, or of another package.
pub data Cause : Type 0 where
  number : NumError → Cause
  overflows : Text → GoType → Cause
  foreign : Cause

-- The destination after a decode function, and the error that it wraps.
abbrev pub Decoded : Type 0
Decoded = Value × Option Cause

abbrev pub failed : Cause → Value → Option Decoded
failed e v = some (v, some e)

-- A Set method of reflect. It panics on a value that was obtained by a field that is not exported.
abbrev pub assign : Bool → Value → Option Decoded
assign true v = some (v, none)
assign false v = none

-- What another package has done through a pointer to the destination.
abbrev pub passed_on : Bool → Value × Bool → Option Decoded
passed_on false r = none
passed_on true (v, true) = some (v, none)
passed_on true (v, false) = some (v, some foreign)

unfoldable pub set_string : Kind → Bool → Value → Option Decoded
set_string string_kind can_set v = assign can_set v
set_string k can_set v = none

unfoldable pub set_bool : Kind → Bool → Parsed Bool → Value → Option Decoded
set_bool k can_set (wrong e) v = failed (number e) v
set_bool bool_kind can_set (value b) v = assign can_set (bool b)
set_bool k can_set (value b) v = none

unfoldable pub set_int : GoType → Kind → Bool → Text → Parsed ℤ → Value → Option Decoded
unfolding fits_int
set_int t k can_set src (wrong e) v = failed (number e) v
set_int t (int_kind b) can_set src (value n) v =
    if fits_int b n then assign can_set (int n) else failed (overflows src t) v
set_int t k can_set src (value n) v = none

unfoldable pub set_uint : GoType → Kind → Bool → Text → Parsed ℕ → Value → Option Decoded
unfolding fits_uint
set_uint t k can_set src (wrong e) v = failed (number e) v
set_uint t (uint_kind b) can_set src (value n) v =
    if fits_uint b n then assign can_set (uint n) else failed (overflows src t) v
set_uint t k can_set src (value n) v = none

unfoldable pub set_time : GoType → Bool → Option Time → Value → Option Decoded
set_time t can_set none v = failed foreign v
set_time t can_set (some n) v = if is_time t then assign can_set (time n) else none

-- The loop For of decodeColAsJSONFuzzy: whether a text might be JSON.
unfoldable pub is_blank : ℕ → Bool
is_blank c = c == 9 || c == 10 || c == 13 || c == 32

-- { [ " - a digit n t f
unfoldable pub starts_json : ℕ → Bool
starts_json c =
    c == 123
    || c == 91
    || c == 34
    || c == 45
    || leb 48 c && leb c 57
    || c == 110
    || c == 116
    || c == 102

unfoldable pub may_be_json : Text → Bool
unfolding is_blank starts_json
may_be_json [] = false
may_be_json (c ∷ cs) = let rest = may_be_json cs in if is_blank c then rest else starts_json c

unfoldable pub is_timestamp : Text → Bool
is_timestamp name = text_eq name (codes "@timestamp") || text_eq name (codes "@ingestionTime")

module _ (packages : Packages) where
  -- Set of a value of another type, into an interface that this type implements.
  unfoldable pub set_any : GoType → Bool → GoType → Value → Option Decoded
  set_any t can_set u x =
      if is_any t || packages.implements u t then assign can_set (iface u x) else none

  unfoldable pub set_float : GoType → Kind → Bool → Text → Parsed ℕ → Value → Option Decoded
  set_float t k can_set src (wrong e) v = failed (number e) v
  set_float t (float_kind b) can_set src (value n) v =
      if packages.float_overflows b n
      then failed (overflows src t) v
      else assign can_set (float (packages.convert_float b n))
  set_float t k can_set src (value n) v = none

  -- decodeColAsJSONFuzzy after the test for a timestamp.
  abbrev pub set_json :
      GoType → Bool → Text → Option (Option (GoType × Value)) → Value → Option Decoded
  set_json t can_set src none v = set_any t can_set string_type (text src)
  set_json t can_set src (some none) v = some (v, none)
  set_json t can_set src (some (some (u, x))) v = set_any t can_set u x

  unfoldable pub json_or_text : GoType → Bool → Text → Value → Option Decoded
  unfolding set_any may_be_json
  json_or_text t can_set src v =
      if may_be_json src
      then set_json t can_set src (packages.any_json src) v
      else set_any t can_set string_type (text src)

  abbrev pub time_or : GoType → Bool → Option Time → Option Decoded → Option Decoded
  time_or t can_set none otherwise = otherwise
  time_or t can_set (some n) otherwise = set_any t can_set time_type (time n)

  unfoldable pub fuzzy : GoType → Bool → ResultField → Value → Option Decoded
  unfolding set_any json_or_text is_timestamp
  fuzzy t can_set col v =
      let otherwise = json_or_text t can_set col.value v in
      if is_timestamp col.field
      then time_or t can_set (packages.parse_time col.value) otherwise
      else otherwise

  -- The decode functions. none when reflect panics.
  unfoldable pub decode : Decoder → GoType → Bool → ResultField → Value → Option Decoded
  unfolding set_string set_int set_uint set_float set_bool set_time fuzzy
  decode to_string t can_set col v = set_string (kind t) can_set (text col.value)
  decode to_int t can_set col v = set_int t (kind t) can_set col.value (parse_int col.value) v
  decode to_uint t can_set col v = set_uint t (kind t) can_set col.value (parse_uint col.value) v
  decode to_float t can_set col v =
      set_float t (kind t) can_set col.value (packages.parse_float col.value) v
  decode to_bool t can_set col v = set_bool (kind t) can_set (parse_bool col.value) v
  decode to_text_unmarshaler t can_set col v =
      passed_on can_set (packages.unmarshal_text t col.value v)
  decode as_json t can_set col v = passed_on can_set (packages.unmarshal_json t col.value v)
  decode as_json_fuzzy t can_set col v = fuzzy t can_set col v
  decode as_insights_time t can_set col v = set_time t can_set (packages.parse_time col.value) v
