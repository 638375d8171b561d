-- ===== src/Unmarshal/Total.antt =====
-- Unmarshal does not panic on plain targets, and keeps their types (unmarshal.go).
use incite.Base.{
  ℕ, zero, suc, ◌≤◌, ◌≡◌, refl, sym, ap, subst, ◌∙◌, Bool, true, false, Option, none, some, List,
  arith, length, take, length-take, ltb, ltb→lt, ltb-false,
}
use incite.Stream.{Row}
use incite.Unmarshal.Types.{
  is_string, methods, key_type, GoType, Kind, interface_kind, slice_kind, array_kind, named, kind,
  is_any, is_result, slice_type, array_length, underlying, dig, elem_type,
}
use incite.Unmarshal.GoValues.{
  Value, nil, ref, iface, slice, array, Values, none_left, item, count, zero_value, HasType,
  HasItems, replicate,
}
use incite.Unmarshal.Columns.{Packages}
use incite.Unmarshal.Select.{select_row, select_element, string_map}
use incite.Unmarshal.Typing.{
  any-kind, Returns, if-Returns, zero_value-HasType, fill-Returns, through-Returns,
}
use incite.Unmarshal.Decoders.{IsTypeSafe}
use incite.Unmarshal.Plain.{PlainRow}
use incite.Unmarshal.Targets.{
  copied, clear_from, decode_array, into_slice, cleared, into_array, into_interface, into_other,
  into_target, unmarshal_value, unmarshal,
}
use incite.Unmarshal.Soundness.{Filled, decode_array-Returns}

copied-Filled :
    (t : GoType) (m len : ℕ) (z : Value) (vs : Values)
    → HasType t z
    → HasItems t vs
    → Filled t m (copied m len z vs)
unfolding copied
copied-Filled t zero len z vs h g = (tt, refl)
copied-Filled t (suc m) zero z vs h g =
    let (a, b) = copied-Filled t m zero z none_left h tt in ((h, a), ap suc b)
copied-Filled t (suc m) (suc len) z none_left h g =
    let (a, b) = copied-Filled t m zero z none_left h tt in ((h, a), ap suc b)
copied-Filled t (suc m) (suc len) z (item v vs) h g =
    let (a, b) = copied-Filled t m len z vs h g.1 in ((g.0, a), ap suc b)

clear_from-Filled :
    (t : GoType) (m : ℕ) (z : Value) (vs : Values)
    → HasType t z
    → HasItems t vs
    → Filled t (count vs) (clear_from m z vs)
unfolding clear_from
clear_from-Filled t m z none_left h g = (g, refl)
clear_from-Filled t zero z (item v vs) h g =
    let (a, b) = clear_from-Filled t zero z vs h g.1 in ((h, a), ap suc b)
clear_from-Filled t (suc m) z (item v vs) h g =
    let (a, b) = clear_from-Filled t m z vs h g.1 in ((g.0, a), ap suc b)

replicate-Filled : (t : GoType) (n : ℕ) (v : Value) → HasType t v → Filled t n (replicate n v)
replicate-Filled t zero v h = (tt, refl)
replicate-Filled t (suc n) v h = let (a, b) = replicate-Filled t n v h in ((h, a), ap suc b)

-- The rows of the slices of maps that Unmarshal makes are plain.
string_map-PlainRow : PlainRow string_map (select_row string_map)
unfolding select_row select_element methods dig kind key_type elem_type is_string
string_map-PlainRow = (refl, λ k. cc, λ k. cc)

-- Of a slice whose capacity is the number of rows, the length is the number of rows, too.
abbrev pub SliceReady : ℕ → Value → Type 0
SliceReady m (slice vs len) = count vs ≡ m → len ≡ m
SliceReady m (ref v) = SliceReady m v
SliceReady m v = Unit {0}

-- Values of a slice type that are as long as there are rows.
abbrev pub HasRows : GoType → ℕ → Value → Type 0
HasRows t m (slice vs len) = HasType t (slice vs len) × (len ≡ m) × (m ≤ count vs)
HasRows t m v = ⊥

cleared-HasType :
    (t : GoType) (m : ℕ) (done : Bool) (vs : Values)
    → kind t ≡ array_kind
    → count vs ≡ array_length t
    → HasItems (elem_type t) vs
    → HasType t (cleared m (zero_value (elem_type t)) done vs)
cleared-HasType t m true vs k n h =
    let (a, b) = clear_from-Filled (elem_type t) m _ vs (zero_value-HasType (elem_type t)) h in
    (k, b ∙ n, a)
cleared-HasType t m false vs k n h = (k, n, h)

zero_value-SliceReady : (m : ℕ) (t : GoType) → SliceReady m (zero_value t)
unfolding zero_value
zero_value-SliceReady m (slice_type t) = λ e. e
zero_value-SliceReady m (named n t) = zero_value-SliceReady m t
zero_value-SliceReady m t = tt

-- The targets on which no Set method of reflect panics.
abbrev pub PlainElements : Kind → GoType → Type 0
PlainElements slice_kind t = PlainRow (dig (elem_type t)).0 (select_row (dig (elem_type t)).0)
PlainElements array_kind t = PlainRow (dig (elem_type t)).0 (select_row (dig (elem_type t)).0)
PlainElements interface_kind t = is_any t ≡ true
PlainElements k t = Unit {0}

abbrev pub PlainTarget : GoType → Type 0
PlainTarget t = (is_result (underlying t) ≡ false) × PlainElements (kind t) t

HasRows-HasType : (t : GoType) (m : ℕ) (v : Value) → HasRows t m v → HasType t v
HasRows-HasType t m (slice vs len) h = h.0
HasRows-HasType t m v h = absurd h

Returns-weaken {ℓ} :
    {E : Type ℓ} (P Q : Value → Type 0) (r : Option (Value × E))
    → ((v : Value) → P v → Q v)
    → Returns P r
    → Returns Q r
Returns-weaken P Q none f h = h
Returns-weaken P Q (some (v, e)) f h = f v h

module _ (p : Packages) (safe : IsTypeSafe p) where
  -- A slice of plain rows is as long as there are rows afterwards, within its capacity and of its
  -- type, if its length is the number of rows in case its capacity is, and the other packages keep
  -- the types of what they set.
  pub into_slice-Returns :
      (rows : List Row) (t : GoType) (vs : Values) (len : ℕ)
      → HasType t (slice vs len)
      → PlainRow (dig (elem_type t)).0 (select_row (dig (elem_type t)).0)
      → SliceReady (length rows) (slice vs len)
      → Returns (HasRows t (length rows)) (into_slice p rows t vs len)
  unfolding into_slice decode_array
  into_slice-Returns rows t vs len h plain ready =
      let m = length rows in
      let el = elem_type t in
      let into = decode_array-Returns p safe (HasRows t m) rows el in
      let new = copied-Filled el m len (zero_value el) vs (zero_value-HasType el) h.1 in
      if-Returns (HasRows t m) (ltb (count vs) m) _ _
        (λ less.
          into m (λ done ws. slice ws m) (copied m len (zero_value el) vs) plain new.0 (omega arith)
            (omega (arith, new.1)) (λ done ws f. ((h.0, f.0), refl, omega (arith, f.1, new.1))))
        (λ enough.
          if-Returns (HasRows t m) (ltb m (count vs)) _ _
            (λ less.
              into m (λ done ws. slice ws m) vs plain h.1 (omega arith)
                (omega (arith, ltb→lt _ _ less))
                (λ done ws f. ((h.0, f.0), refl, omega (arith, f.1, ltb→lt _ _ less))))
            (λ more.
              let same = ready (omega (arith, ltb-false _ _ enough, ltb-false _ _ more)) in
              into len (λ done ws. slice ws len) vs plain h.1 (omega (arith, same))
                (omega (arith, same, ltb-false _ _ enough))
                (λ done ws f. ((h.0, f.0), same, omega (arith, f.1, ltb-false _ _ enough)))))

  into_array-Returns :
      (rows : List Row) (t : GoType) (vs : Values)
      → HasType t (array vs)
      → PlainRow (dig (elem_type t)).0 (select_row (dig (elem_type t)).0)
      → Returns (HasType t) (into_array p rows t vs)
  unfolding into_array decode_array
  into_array-Returns rows t vs h plain =
      let el = elem_type t in
      if-Returns (HasType t) (ltb (count vs) (length rows)) _ _
        (λ less.
          decode_array-Returns p safe (HasType t) (take (count vs) rows) el (count vs)
            (λ done ws. array ws) vs plain h.2 (omega (arith, length-take (count vs) rows))
            (omega arith) (λ done ws f. (h.0, f.1 ∙ h.1, f.0)))
        (λ enough.
          decode_array-Returns p safe (HasType t) rows el (count vs)
            (cleared (length rows) (zero_value el)) vs plain h.2 (ltb-false _ _ enough)
            (omega arith)
            (λ done ws f. cleared-HasType t (length rows) done ws h.0 (f.1 ∙ h.1) f.0))

  into_interface-Returns :
      (rows : List Row) (t : GoType)
      → is_any t ≡ true
      → Returns (HasType t) (into_interface p rows t)
  unfolding into_interface dig
  into_interface-Returns rows t h =
      let nils = replicate-Filled string_map (length rows) nil (unfold kind in refl) in
      rw h (
        decode_array-Returns p safe (HasType t) rows string_map (length rows)
          (λ done ws. iface (slice_type string_map) (slice ws (length rows)))
          (replicate (length rows) nil) string_map-PlainRow nils.0 (omega arith)
          (omega (arith, nils.1))
          (λ done ws f. (any-kind t h, (unfold kind in refl, unfold elem_type in f.0))))

  into_other-Returns :
      (rows : List Row) (t : GoType) (k : Kind) (v : Value)
      → HasType t v
      → PlainElements k t
      → Returns (HasType t) (into_other p rows t k v)
  into_other-Returns rows t interface_kind v h plain = into_interface-Returns rows t plain
  into_other-Returns rows t k v h plain = h

  -- The value at the end of the pointers keeps its type.
  into_target-Returns :
      (rows : List Row) (t : GoType) (v : Value)
      → HasType t v
      → PlainTarget t
      → SliceReady (length rows) v
      → Returns (HasType t) (into_target p rows t true v)
  unfolding into_target
  into_target-Returns rows t (slice vs len) h (no_result, plain) ready =
      Returns-weaken (HasRows t (length rows)) (HasType t) (into_slice p rows t vs len)
        (HasRows-HasType t (length rows))
        (into_slice-Returns rows t vs len h (subst (λ k. PlainElements k t) h.0 plain) ready)
  into_target-Returns rows t (array vs) h (no_result, plain) ready =
      into_array-Returns rows t vs h (subst (λ k. PlainElements k t) h.0 plain)
  into_target-Returns rows t v h (no_result, plain) ready =
      into_other-Returns rows t (kind t) v h plain

  -- Unmarshal through a pointer that is not nil does not panic, and keeps the type of the pointer
  -- and its target, whatever the rows are, if the target is plain, a slice whose capacity is the
  -- number of rows has that length, and the other packages keep the types of what they set.
  pub unmarshal-Returns :
      (rows : List Row) (t : GoType) (v : Value)
      → HasType t (ref v)
      → PlainTarget (dig (elem_type t)).0
      → SliceReady (length rows) v
      → Returns (HasType t) (unmarshal p rows (some (t, ref v)))
  unfolding unmarshal
  unmarshal-Returns rows t v (k, h) plain ready =
      subst (λ x. Returns (HasType t) (unmarshal_value p rows t x (ref v))) (sym k)
        (through-Returns t _ k (
          fill-Returns (into_target p rows) (dig (elem_type t)).0 (SliceReady (length rows))
            (λ w q. q) (zero_value-SliceReady (length rows))
            (λ w g q. into_target-Returns rows (dig (elem_type t)).0 w g plain q)
            (dig (elem_type t)).1 (elem_type t) v refl h ready))
