-- ===== src/Unmarshal/Targets.antt =====
-- The target of Unmarshal, and the rows that are decoded into it (unmarshal.go: Unmarshal, array).
use incite.Base.{
  ℕ, zero, suc, Bool, true, false, Option, none, some, List, ltb, length, take, if◌then◌else◌,
}
use incite.Stream.{Row}
use incite.Unmarshal.Types.{
  Kind, GoType, slice_type, interface_kind, ptr_kind, kind, elem_type, is_any, dig,
}
use incite.Unmarshal.GoValues.{
  Value, nil, ref, iface, slice, array, Values, none_left, item, count, replicate, zero_value,
}
use incite.Unmarshal.Columns.{Packages}
use incite.Unmarshal.Select.{
  Invalid, bad_target, RowDecoder, RowChoice, accepted, invalid, select_row, string_map,
}
use incite.Unmarshal.Rows.{FieldError, fill, through, decode_rows}

-- The error that Unmarshal returns.
pub data Failure : Type 0 where
  invalid_unmarshal : Invalid → Failure
  field_value : FieldError → Failure

-- The elements that reflect.Copy copies to a slice of m zero values, from the first `len` ones.
unfoldable pub copied : ℕ → ℕ → Value → Values → Values
copied zero len z vs = none_left
copied (suc m) zero z vs = item z (copied m zero z none_left)
copied (suc m) (suc len) z none_left = item z (copied m zero z none_left)
copied (suc m) (suc len) z (item v vs) = item v (copied m len z vs)

-- The elements from index m on are set to zero.
unfoldable pub clear_from : ℕ → Value → Values → Values
clear_from m z none_left = none_left
clear_from zero z (item v vs) = item z (clear_from zero z vs)
clear_from (suc m) z (item v vs) = item v (clear_from m z vs)

-- An array after the rows: without an error the elements after them become zero.
abbrev pub cleared : ℕ → Value → Bool → Values → Value
cleared m z true vs = array (clear_from m z vs)
cleared m z false vs = array vs

abbrev pub finished :
    (Bool → Values → Value) → Option (Values × Option FieldError) → Option (Value × Option Failure)
finished back none = none
finished back (some (vs, none)) = some (back true vs, none)
finished back (some (vs, some e)) = some (back false vs, some (field_value e))

module _ (packages : Packages) where
  -- array, over the first n elements. `back` makes the target of its elements again, and is told
  -- whether there was no error.
  abbrev pub decode_chosen :
      List Row
      → GoType
      → ℕ
      → ℕ
      → (Bool → Values → Value)
      → Values
      → RowChoice RowDecoder
      → Option (Value × Option Failure)
  decode_chosen rows t depth n back vs (invalid e) =
      some (back false vs, some (invalid_unmarshal e))
  decode_chosen rows t depth n back vs (accepted f) =
      finished back (decode_rows packages f t depth 0 n rows vs none)

  unfoldable pub decode_array :
      List Row → GoType → ℕ → (Bool → Values → Value) → Values → Option (Value × Option Failure)
  unfolding decode_rows
  decode_array rows t n back vs =
      let (u, depth) = dig t in decode_chosen rows t depth n back vs (select_row u)

  -- The case of a slice, with its capacity and its length.
  unfoldable pub into_slice : List Row → GoType → Values → ℕ → Option (Value × Option Failure)
  unfolding decode_array copied
  into_slice rows t vs len =
      let m = length rows in
      let n = count vs in
      let z = zero_value (elem_type t) in
      if ltb n m
      then decode_array rows (elem_type t) m (λ done ws. slice ws m) (copied m len z vs)
      else if ltb m n
      then decode_array rows (elem_type t) m (λ done ws. slice ws m) vs
      else decode_array rows (elem_type t) len (λ done ws. slice ws len) vs

  -- The case of an array. Rows that do not fit are left out.
  unfoldable pub into_array : List Row → GoType → Values → Option (Value × Option Failure)
  unfolding decode_array clear_from
  into_array rows t vs =
      let m = length rows in
      let n = count vs in
      let z = zero_value (elem_type t) in
      if ltb n m
      then decode_array (take n rows) (elem_type t) n (λ done ws. array ws) vs
      else decode_array rows (elem_type t) n (cleared m z) vs

  -- The case of an interface: a new slice of maps.
  unfoldable pub into_interface : List Row → GoType → Option (Value × Option Failure)
  unfolding decode_array
  into_interface rows t =
      let m = length rows in
      if is_any t
      then decode_array rows string_map m (λ done ws. iface (slice_type string_map) (slice ws m))
          (replicate m nil)
      else none

  abbrev pub into_other : List Row → GoType → Kind → Value → Option (Value × Option Failure)
  into_other rows t interface_kind v = into_interface rows t
  into_other rows t k v = some (v, some (invalid_unmarshal bad_target))

  -- The switch on the kind of the target at the end of the pointers. A target of the type Result,
  -- which is a slice of fields, is not represented.
  unfoldable pub into_target : List Row → GoType → Bool → Value → Option (Value × Option Failure)
  unfolding into_slice into_array into_interface
  into_target rows t can_set (slice vs len) = into_slice rows t vs len
  into_target rows t can_set (array vs) = into_array rows t vs
  into_target rows t can_set v = into_other rows t (kind t) v

  -- Unmarshal, into a value of a type, or into an untyped nil. The value that a pointer points to
  -- is what changes. none when reflect panics, as for a nil pointer.
  abbrev pub into_pointer : List Row → GoType → Value → Option (Value × Option Failure)
  into_pointer rows t (ref v) =
      through (fill (into_target rows) (dig (elem_type t)).1 (elem_type t) true v)
  into_pointer rows t v = none

  abbrev pub unmarshal_value : List Row → GoType → Kind → Value → Option (Value × Option Failure)
  unmarshal_value rows t ptr_kind v = into_pointer rows t v
  unmarshal_value rows t k v = some (v, some (invalid_unmarshal bad_target))

  unfoldable pub unmarshal : List Row → Option (GoType × Value) → Option (Value × Option Failure)
  unfolding into_target fill
  unmarshal rows none = some (nil, some (invalid_unmarshal bad_target))
  unmarshal rows (some (t, v)) = unmarshal_value rows t (kind t) v
