-- ===== src/Unmarshal/Types.antt =====
-- The Go types that Unmarshal meets by reflection (unmarshal.go, package reflect).
use incite.Base.{ℕ, suc, Bool, true, false, [], Text, codes, if◌then◌else◌}

-- What reflection says of the methods of a pointer to a type: whether there are any, and whether
-- they implement encoding.TextUnmarshaler and json.Unmarshaler.
pub record Methods : Type 0 where
  pub some_method : Bool
  pub text_unmarshaler : Bool
  pub json_unmarshaler : Bool

-- The tags of a struct field: `incite` and `json`, empty if missing.
pub record Tags : Type 0 where
  pub incite : Text
  pub json : Text

-- `named` is a defined type over another. Structs that are not named have no methods. The numbers
-- of the numeric types are their widths in bits. An interface type shows whether it is empty.
mutual
  pub data GoType : Type 0 where
    string_type bool_type other_type time_type result_type : GoType
    int_type uint_type float_type : ℕ → GoType
    interface_type : Bool → GoType
    ptr slice_type : GoType → GoType
    array_type : ℕ → GoType → GoType
    map_type : GoType → GoType → GoType
    struct_type : Fields → GoType
    named : Methods → GoType → GoType

  -- The fields of a struct: the name, whether it is exported, the tags and the type.
  pub data Fields : Type 0 where
    end : Fields
    field : Text → Bool → Tags → GoType → Fields → Fields

pub data Kind : Type 0 where
  string_kind bool_kind interface_kind struct_kind map_kind slice_kind array_kind : Kind
  ptr_kind other_kind : Kind
  int_kind uint_kind float_kind : ℕ → Kind

-- t.Kind().
unfoldable pub kind : GoType → Kind
kind string_type = string_kind
kind bool_type = bool_kind
kind other_type = other_kind
kind time_type = struct_kind
kind result_type = slice_kind
kind (int_type b) = int_kind b
kind (uint_type b) = uint_kind b
kind (float_type b) = float_kind b
kind (interface_type e) = interface_kind
kind (ptr t) = ptr_kind
kind (slice_type t) = slice_kind
kind (array_type n t) = array_kind
kind (map_type k t) = map_kind
kind (struct_type fs) = struct_kind
kind (named m t) = kind t

-- t.Elem(). Types without an element are their own here; no caller asks for it.
unfoldable pub elem_type : GoType → GoType
elem_type (ptr t) = t
elem_type (slice_type t) = t
elem_type (array_type n t) = t
elem_type (map_type k t) = t
elem_type (named m t) = elem_type t
elem_type t = t

-- t.Key(), of a map type.
unfoldable pub key_type : GoType → GoType
key_type (map_type k t) = k
key_type (named m t) = key_type t
key_type t = t

-- t.Len(), of an array type.
unfoldable pub array_length : GoType → ℕ
array_length (array_type n t) = n
array_length (named m t) = array_length t
array_length t = 0

abbrev no_tags : Tags
no_tags = record { incite = []; json = [] }

-- time.Location: a struct with a method String. Its fields are not represented: it is met only
-- behind a field of time.Time that cannot be set.
abbrev location_type : GoType
location_type =
    named (record { some_method = true; text_unmarshaler = false; json_unmarshaler = false })
      (struct_type end)

-- The fields of time.Time, none of which is exported.
abbrev time_fields : Fields
time_fields = field (codes "wall") false no_tags (uint_type 64) (
    field (codes "ext") false no_tags (int_type 64)
      (field (codes "loc") false no_tags (ptr location_type) end))

-- The fields of a struct type.
unfoldable pub fields_of : GoType → Fields
fields_of (struct_type fs) = fs
fields_of time_type = time_fields
fields_of (named m t) = fields_of t
fields_of t = end

-- Whether an interface type has no methods, so that every value can be assigned.
unfoldable pub is_any : GoType → Bool
is_any (interface_type empty) = empty
is_any (named m t) = is_any t
is_any t = false

-- The methods of reflect.PtrTo(t). A *time.Time implements both interfaces.
unfoldable pub methods : GoType → Methods
methods (named m t) = m
methods time_type = record { some_method = true; text_unmarshaler = true; json_unmarshaler = true }
methods t = record { some_method = false; text_unmarshaler = false; json_unmarshaler = false }

-- t == reflect.TypeOf(time.Time{}) and so on.
unfoldable pub is_time : GoType → Bool
is_time time_type = true
is_time t = false

unfoldable pub is_result : GoType → Bool
is_result result_type = true
is_result t = false

unfoldable pub is_string : GoType → Bool
is_string string_type = true
is_string t = false

-- The type that a defined type is defined over.
unfoldable pub underlying : GoType → GoType
underlying (named m t) = underlying t
underlying t = t

abbrev pub is_ptr : Kind → Bool
is_ptr ptr_kind = true
is_ptr k = false

-- dig: the type at the end of a chain of pointers, and the length of the chain.
unfoldable pub dig : GoType → GoType × ℕ
unfolding kind
dig (ptr t) = let (u, depth) = dig t in (u, suc depth)
dig (named m t) = if is_ptr (kind t) then dig t else (named m t, 0)
dig t = (t, 0)
