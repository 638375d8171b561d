-- ===== src/Unmarshal/Maps.antt =====
-- Rows that are decoded into maps from texts to texts (unmarshal.go: Unmarshal, array,
-- selMapRowDecodeFunc).
use incite.Base.{
  ℕ, zero, suc, ◌+◌, ◌≡◌, refl, sym, ap, ◌∙◌, Bool, true, false, Bool-cases, inl, inr, Option, none,
  some, List, [], ◌∷◌, arith, Text, text_eq, if◌then◌else◌, length, ◌<◌, lt→ltb, text_eq→eq,
  text_eq_refl,
}
use incite.Stream.{Row}
use incite.Unmarshal.Types.{
  ptr, slice_type, string_type, kind, elem_type, key_type, is_string, methods, dig,
}
use incite.Unmarshal.GoValues.{
  Value, nil, ref, text, map, slice, Values, none_left, item, Entries, empty, entry, zero_value,
  count,
}
use incite.Unmarshal.Columns.{Packages, to_string, set_string, decode}
use incite.Unmarshal.Select.{RowDecoder, to_map, select_row, select_element, select_map, string_map}
use incite.Unmarshal.Rows.{
  through, fill, put_entry, map_columns, decode_filled, decode_row, decode_rows,
}
use incite.Unmarshal.Targets.{finished, copied, decode_array, into_slice, unmarshal}

-- m[name].
unfoldable pub lookup : Text → Entries → Option Value
lookup name empty = none
lookup name (entry k v es) = let later = lookup name es in if text_eq k name then some v else later

-- The value of the last field of a row with a name.
abbrev pub or_else {ℓ} : {A : Type ℓ} → Option A → Option A → Option A
or_else none other = other
or_else (some a) other = some a

unfoldable pub last_value : Text → Row → Option Value
last_value name [] = none
last_value name (col ∷ cols) =
    or_else (last_value name cols) (if text_eq col.field name then some (text col.value) else none)

-- The map of a row, and the maps of rows in their order.
abbrev pub with_columns : Row → Entries → Entries
with_columns [] es = es
with_columns (col ∷ cols) es = with_columns cols (put_entry col.field (text col.value) es)

abbrev pub row_maps : List Row → Values
row_maps [] = none_left
row_maps (r ∷ rs) = item (map (with_columns r empty)) (row_maps rs)

true_ne_false : true ≡ false → ⊥
true_ne_false h = cc

or_else-if {ℓ} :
    {A : Type ℓ} (a : Option A) (c : Bool) (x : A) (other : Option A)
    → or_else a (if c then some x else other)
      ≡ or_else (or_else a (if c then some x else none)) other
or_else-if none true x other = refl
or_else-if none false x other = refl
or_else-if (some a) c x other = refl

lookup-put_entry :
    (name k : Text) (v : Value) (es : Entries)
    → lookup name (put_entry k v es) ≡ (if text_eq k name then some v else lookup name es)
unfolding lookup put_entry
lookup-put_entry name k v empty = refl
lookup-put_entry name k v (entry l w es) =
    let ih = lookup-put_entry name k v es in
    elim (Bool-cases (text_eq l k)) [
      | inl e ↦ let same = ap (λ x. text_eq x name) (text_eq→eq l k e) in ground (arith, e, same)
      | inr e ↦ elim (Bool-cases (text_eq l name)) [
        | inl f ↦ elim (Bool-cases (text_eq k name)) [
          | inl g ↦
              let same = text_eq→eq l name f ∙ sym (text_eq→eq k name g) in
              absurd (true_ne_false (sym (ap (λ x. text_eq x k) same ∙ text_eq_refl k) ∙ e))
          | inr g ↦ ground (arith, e, f, g)
        ]
        | inr f ↦ ground (arith, e, f, ih)
      ]
    ]

lookup-with_columns :
    (name : Text) (r : Row) (es : Entries)
    → lookup name (with_columns r es) ≡ or_else (last_value name r) (lookup name es)
unfolding last_value
lookup-with_columns name [] es = refl
lookup-with_columns name (col ∷ cols) es =
    lookup-with_columns name cols (put_entry col.field (text col.value) es)
    ∙ ap (or_else (last_value name cols)) (lookup-put_entry name col.field (text col.value) es)
    ∙ or_else-if (last_value name cols) (text_eq col.field name) (text col.value) (lookup name es)

abbrev to_strings : RowDecoder
to_strings = to_map string_map string_type 0 to_string

or_else-none {ℓ} : {A : Type ℓ} (a : Option A) → or_else a none ≡ a
or_else-none none = refl
or_else-none (some a) = refl

count-copied : (m : ℕ) → count (copied m 0 nil none_left) ≡ m
unfolding copied
count-copied zero = refl
count-copied (suc m) = ap suc (count-copied m)

module _ (p : Packages) where
  map_columns-strings :
      (i j : ℕ) (r : Row) (es : Entries)
      → map_columns p string_map string_type 0 to_string i j r es none
        ≡ some (with_columns r es, none)
  unfolding map_columns decode_filled fill decode set_string kind key_type is_string
  map_columns-strings i j [] es = refl
  map_columns-strings i j (col ∷ cols) es =
      map_columns-strings i (j + 1) cols (put_entry col.field (text col.value) es)

  decode_rows-strings :
      (i n : ℕ) (rows : List Row) (vs : Values)
      → length rows ≡ n
      → count vs ≡ n
      → decode_rows p to_strings string_map 0 i n rows vs none ≡ some (row_maps rows, none)
  unfolding decode_rows decode_row fill kind
  decode_rows-strings i n [] none_left h k = refl
  decode_rows-strings i n [] (item v vs) h k = absurd (omega (arith, h, k))
  decode_rows-strings i zero (r ∷ rs) vs h k = absurd (omega (arith, h))
  decode_rows-strings i (suc n) (r ∷ rs) none_left h k = absurd (omega (arith, k))
  decode_rows-strings i (suc n) (r ∷ rs) (item v vs) h k =
      rw
        (
          map_columns-strings i 0 r empty,
          decode_rows-strings (i + 1) n rs vs (omega (arith, h)) (omega (arith, k)),
        )
        refl

  into_slice-strings :
      (rows : List Row)
      → 0 < length rows
      → into_slice p rows (slice_type string_map) none_left 0
        ≡ some (slice (row_maps rows) (length rows), none)
  unfolding into_slice decode_array select_row select_map select_element methods key_type kind
      elem_type dig zero_value
  into_slice-strings rows h = rw (lt→ltb 0 (length rows) h) (
      ap (finished (λ done ws. slice ws (length rows))) (
        decode_rows-strings 0 (length rows) rows (copied (length rows) 0 nil none_left) refl
          (count-copied (length rows))))

  -- Unmarshal into a nil slice of maps from texts to texts does not panic or fail, and makes a map
  -- for each row, in order; the map of a row has for each name the value of the last field with that
  -- name, and no other names.
  pub unmarshal-strings :
      (rows : List Row) (r : Row) (name : Text)
      → (unmarshal p rows (some (ptr (slice_type string_map), ref (slice none_left 0)))
          ≡ some (ref (slice (row_maps rows) (length rows)), none))
        × (lookup name (with_columns r empty) ≡ last_value name r)
  unfolding unmarshal fill kind elem_type dig into_slice decode_array select_row select_map
      select_element methods key_type lookup
  unmarshal-strings [] r name =
      (refl, lookup-with_columns name r empty ∙ or_else-none (last_value name r))
  unmarshal-strings (q ∷ qs) r name = (
    ap through (into_slice-strings (q ∷ qs) (omega arith)),
    lookup-with_columns name r empty ∙ or_else-none (last_value name r),
  )
