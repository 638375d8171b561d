-- ===== src/Unmarshal/GoValues.antt =====
-- The Go values that Unmarshal reads and sets by reflection (unmarshal.go).
use incite.Base.{ℕ, zero, suc, ◌-◌, ◌^◌, ◌≡◌, Bool, true, false, [], Text, ltb}
use incite.Base.Int.{ℤ, pos, negsuc}
use incite.Clock.{Time}
use incite.Stream.{Row}
use incite.Unmarshal.Types.{
  GoType, Fields, end, field, string_type, bool_type, other_type, time_type, result_type, int_type,
  uint_type, float_type, interface_type, ptr, slice_type, array_type, map_type, struct_type, named,
  Kind, string_kind, bool_kind, interface_kind, struct_kind, map_kind, slice_kind, array_kind,
  ptr_kind, other_kind, int_kind, uint_kind, float_kind, kind, elem_type, array_length, fields_of,
  is_time, is_result, underlying,
}

-- A slice has the elements of its whole capacity, and its length. A pointer owns its target: no two
-- pointers of a target are the same. A float is the number of its bit pattern. An interface holds a
-- type and a value.
mutual
  pub data Value : Type 0 where
    nil : Value
    ref : Value → Value
    text : Text → Value
    bool : Bool → Value
    int : ℤ → Value
    uint float opaque : ℕ → Value
    time : Time → Value
    row : Row → Value
    iface : GoType → Value → Value
    slice : Values → ℕ → Value
    array struct : Values → Value
    map : Entries → Value

  pub data Values : Type 0 where
    none_left : Values
    item : Value → Values → Values

  pub data Entries : Type 0 where
    empty : Entries
    entry : Text → Value → Entries → Entries

abbrev pub count : Values → ℕ
count none_left = 0
count (item v vs) = suc (count vs)

abbrev pub replicate : ℕ → Value → Values
replicate zero v = none_left
replicate (suc n) v = item v (replicate n v)

-- reflect.Zero(t).
unfoldable mutual
  pub zero_value : GoType → Value
  zero_value string_type = text []
  zero_value bool_type = bool false
  zero_value other_type = opaque 0
  zero_value time_type = time 0
  zero_value result_type = row []
  zero_value (int_type b) = int (pos 0)
  zero_value (uint_type b) = uint 0
  zero_value (float_type b) = float 0
  zero_value (interface_type e) = nil
  zero_value (ptr t) = nil
  zero_value (slice_type t) = slice none_left 0
  zero_value (array_type n t) = array (replicate n (zero_value t))
  zero_value (map_type k t) = nil
  zero_value (struct_type fs) = struct (zero_fields fs)
  zero_value (named m t) = zero_value t

  pub zero_fields : Fields → Values
  zero_fields end = none_left
  zero_fields (field name exported tags t fs) = item (zero_value t) (zero_fields fs)

-- The values of a type of the given width.
unfoldable pub fits_int : ℕ → ℤ → Bool
fits_int b (pos n) = ltb n (2 ^ (b - 1))
fits_int b (negsuc n) = ltb n (2 ^ (b - 1))

unfoldable pub fits_uint : ℕ → ℕ → Bool
fits_uint b n = ltb n (2 ^ b)

-- Whether a type has values of a kind: numbers in range, and nil where Go has it.
abbrev pub takes_int : Kind → ℤ → Bool
takes_int (int_kind b) n = fits_int b n
takes_int k n = false

abbrev pub takes_uint : Kind → ℕ → Bool
takes_uint (uint_kind b) n = fits_uint b n
takes_uint k n = false

abbrev pub takes_float : Kind → Bool
takes_float (float_kind b) = true
takes_float k = false

abbrev pub takes_nil : Kind → Bool
takes_nil ptr_kind = true
takes_nil interface_kind = true
takes_nil map_kind = true
takes_nil k = false

-- The values of a Go type.
abbrev mutual
  pub HasType : GoType → Value → Type 0
  HasType t nil = takes_nil (kind t) ≡ true
  HasType t (ref v) = (kind t ≡ ptr_kind) × HasType (elem_type t) v
  HasType t (text s) = kind t ≡ string_kind
  HasType t (bool b) = kind t ≡ bool_kind
  HasType t (int n) = takes_int (kind t) n ≡ true
  HasType t (uint n) = takes_uint (kind t) n ≡ true
  HasType t (float n) = takes_float (kind t) ≡ true
  HasType t (opaque n) = kind t ≡ other_kind
  HasType t (time n) = is_time (underlying t) ≡ true
  HasType t (row r) = is_result (underlying t) ≡ true
  HasType t (iface u v) = (kind t ≡ interface_kind) × HasType u v
  HasType t (slice vs n) = (kind t ≡ slice_kind) × HasItems (elem_type t) vs
  HasType t (array vs) =
      (kind t ≡ array_kind) × (count vs ≡ array_length t) × HasItems (elem_type t) vs
  HasType t (struct vs) = (kind t ≡ struct_kind) × HasFields (fields_of t) vs
  HasType t (map es) = (kind t ≡ map_kind) × HasEntries (elem_type t) es

  pub HasItems : GoType → Values → Type 0
  HasItems t none_left = Unit {0}
  HasItems t (item v vs) = HasType t v × HasItems t vs

  pub HasFields : Fields → Values → Type 0
  HasFields end none_left = Unit {0}
  HasFields (field name exported tags t fs) (item v vs) = HasType t v × HasFields fs vs
  HasFields fs vs = ⊥

  pub HasEntries : GoType → Entries → Type 0
  HasEntries t empty = Unit {0}
  HasEntries t (entry k v es) = HasType t v × HasEntries t es
