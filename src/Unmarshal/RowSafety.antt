-- ===== src/Unmarshal/RowSafety.antt =====
-- The decoding of rows does not panic, and keeps the types (unmarshal.go).
use incite.Base.{
  ℕ, zero, suc, ◌+◌, ◌≡◌, refl, subst, Bool, true, Bool-cases, Option, none, some, inl, inr, List,
  [], ◌∷◌, Text, text_eq,
}
use incite.Stream.{ResultField, Row}
use incite.Unmarshal.Types.{GoType, Fields, end, field, Tags, is_string, dig, key_type}
use incite.Unmarshal.GoValues.{
  Value, Values, none_left, item, Entries, empty, entry, zero_value, HasType, HasFields, HasEntries,
}
use incite.Unmarshal.Columns.{Packages, Decoder, Cause, Decoded, decode}
use incite.Unmarshal.Select.{FieldDecoder}
use incite.Unmarshal.Rows.{
  FieldError, fill, put_entry, at_item, after_item, at_index, or_last, find_decoder, decode_filled,
  put_decoded, next_column, map_columns, struct_column, struct_columns, wrap, first_error,
}
use incite.Unmarshal.Typing.{Returns, zero_value-HasType, fill-Returns}
use incite.Unmarshal.Decoders.{IsTypeSafe, Suits, decode-Returns}
use incite.Unmarshal.Safety.{ColumnSuits, AllOf, FieldAt, FieldSafe}

-- Steps of a loop.
next_column-Returns :
    {A : Type 0} (P : A → Type 0) (i j : ℕ) (col : ResultField) (err : Option FieldError)
    (rest : A → Option FieldError → Option (A × Option FieldError)) (r : Option (A × Option Cause))
    → Returns P r
    → ((a : A) (e : Option FieldError) → P a → Returns P (rest a e))
    → Returns P (next_column i j col err rest r)
next_column-Returns P i j col err rest none h k = h
next_column-Returns P i j col err rest (some (a, e)) h k = k a (first_error err (wrap i j col e)) h

put_entry-HasEntries :
    (t : GoType) (k : Text) (v : Value) (es : Entries)
    → HasType t v
    → HasEntries t es
    → HasEntries t (put_entry k v es)
unfolding put_entry
put_entry-HasEntries t k v empty h g = (h, tt)
put_entry-HasEntries t k v (entry l w es) h g = elim (Bool-cases (text_eq l k)) [
  | inl e ↦ rw e (h, g.1)
  | inr e ↦ rw e (g.0, put_entry-HasEntries t k v es h g.1)
]

put_decoded-Returns :
    (t u : GoType) (col : ResultField) (es : Entries) (r : Option Decoded)
    → is_string (key_type t) ≡ true
    → HasEntries u es
    → Returns (HasType u) r
    → Returns (HasEntries u) (put_decoded t col es r)
put_decoded-Returns t u col es none k h g = g
put_decoded-Returns t u col es (some (v, some e)) k h g = h
put_decoded-Returns t u col es (some (v, none)) k h g =
    rw k (put_entry-HasEntries u col.field v es g h)

at_item-Returns :
    (t : GoType) (name : Text) (exported : Bool) (tags : Tags) (fs : Fields) (vs : Values)
    (r : Option Decoded)
    → HasFields fs vs
    → Returns (HasType t) r
    → Returns (HasFields (field name exported tags t fs)) (at_item vs r)
at_item-Returns t name exported tags fs vs none h g = g
at_item-Returns t name exported tags fs vs (some (v, e)) h g = (g, h)

after_item-Returns :
    (t : GoType) (name : Text) (exported : Bool) (tags : Tags) (fs : Fields) (v : Value)
    (r : Option (Values × Option Cause))
    → HasType t v
    → Returns (HasFields fs) r
    → Returns (HasFields (field name exported tags t fs)) (after_item v r)
after_item-Returns t name exported tags fs v none h g = g
after_item-Returns t name exported tags fs v (some (vs, e)) h g = (h, g)

at_index-Returns :
    (use_value : Value → Option Decoded) (d : FieldDecoder) (fs : Fields) (i : ℕ) (vs : Values)
    → FieldAt fs i d
    → HasFields fs vs
    → ((v : Value) → HasType d.field_type v → Returns (HasType d.field_type) (use_value v))
    → Returns (HasFields fs) (at_index use_value i vs)
unfolding at_index
at_index-Returns use_value d end i vs at h k = absurd at
at_index-Returns use_value d (field name exported tags t fs) i none_left at h k = absurd h
at_index-Returns use_value d (field name exported tags t fs) zero (item v vs) at h k =
    at_item-Returns t name exported tags fs vs (use_value v) h.1
      (subst (λ x. HasType x v → Returns (HasType x) (use_value v)) at (k v) h.0)
at_index-Returns use_value d (field name exported tags t fs) (suc i) (item v vs) at h k =
    after_item-Returns t name exported tags fs v _ h.0
      (at_index-Returns use_value d fs i vs at h.1 k)

-- A property of all decoders holds of the one that is found.
abbrev OfFound : (FieldDecoder → Type 0) → Option FieldDecoder → Type 0
OfFound P none = Unit {0}
OfFound P (some d) = P d

or_last-OfFound :
    (P : FieldDecoder → Type 0) (d : FieldDecoder) (name : Text) (r : Option FieldDecoder)
    → P d
    → OfFound P r
    → OfFound P (or_last d name r)
or_last-OfFound P d name (some later) h k = k
or_last-OfFound P d name none h k = elim (Bool-cases (text_eq d.choice.name name)) [
  | inl e ↦ rw e h
  | inr e ↦ rw e tt
]

find_decoder-OfFound :
    (P : FieldDecoder → Type 0) (name : Text) (dfs : List FieldDecoder)
    → AllOf P dfs
    → OfFound P (find_decoder name dfs)
unfolding find_decoder
find_decoder-OfFound P name [] h = tt
find_decoder-OfFound P name (d ∷ ds) h =
    or_last-OfFound P d name (find_decoder name ds) h.0 (find_decoder-OfFound P name ds h.1)

-- A struct row can be decoded: its decoders suit its fields, which are exported.
abbrev pub FieldDecodable : Fields → FieldDecoder → Type 0
FieldDecodable fs d = FieldSafe fs d × (d.exported ≡ true)

module _ (p : Packages) (safe : IsTypeSafe p) where
  decode_filled-Returns :
      (f : Decoder) (depth : ℕ) (t u : GoType) (col : ResultField) (v : Value)
      → dig t ≡ (u, depth)
      → Suits f u
      → HasType t v
      → Returns (HasType t) (decode_filled p f depth t true col v)
  unfolding decode_filled
  decode_filled-Returns f depth t u col v e s h =
      fill-Returns (λ w can x. decode p f w can col x) u (λ x. Unit {0}) (λ x q. tt) (λ w. tt)
        (λ x g q. decode-Returns p safe f u col x s g) depth t v e h tt

  column-Returns :
      (d : FieldDecoder) (col : ResultField) (v : Value)
      → ColumnSuits d.choice d.field_type
      → d.exported ≡ true
      → HasType d.field_type v
      → Returns
          (HasType d.field_type)
          (decode_filled p d.choice.decoder d.choice.depth d.field_type d.exported col v)
  unfolding decode_filled fill
  column-Returns d col v (inl (z, s)) x h =
      rw (z, x) (decode-Returns p safe d.choice.decoder d.field_type col v s h)
  column-Returns d col v (inr (z, s)) x h =
      rw (z, x)
        (decode_filled-Returns d.choice.decoder (dig d.field_type).1 d.field_type
          (dig d.field_type).0 col v refl s h)

  struct_column-Returns :
      (fs : Fields) (r : Option FieldDecoder) (col : ResultField) (vs : Values)
      → OfFound (FieldDecodable fs) r
      → HasFields fs vs
      → Returns (HasFields fs) (struct_column p r col vs)
  unfolding struct_column
  struct_column-Returns fs none col vs h g = g
  struct_column-Returns fs (some d) col vs ((at, suits), x) g =
      at_index-Returns _ d fs d.index vs at g (λ v k. column-Returns d col v suits x k)

  pub struct_columns-Returns :
      (fs : Fields) (dfs : List FieldDecoder) (i j : ℕ) (r : Row) (vs : Values)
      (err : Option FieldError)
      → AllOf (FieldDecodable fs) dfs
      → HasFields fs vs
      → Returns (HasFields fs) (struct_columns p dfs i j r vs err)
  unfolding struct_columns
  struct_columns-Returns fs dfs i j [] vs err h g = g
  struct_columns-Returns fs dfs i j (col ∷ cols) vs err h g =
      next_column-Returns (HasFields fs) i j col err _ _
        (struct_column-Returns fs (find_decoder col.field dfs) col vs
          (find_decoder-OfFound (FieldDecodable fs) col.field dfs h) g)
        (λ ws e k. struct_columns-Returns fs dfs i (j + 1) cols ws e h k)

  pub map_columns-Returns :
      (t immediate u : GoType) (depth : ℕ) (f : Decoder) (i j : ℕ) (r : Row) (es : Entries)
      (err : Option FieldError)
      → is_string (key_type t) ≡ true
      → dig immediate ≡ (u, depth)
      → Suits f u
      → HasEntries immediate es
      → Returns (HasEntries immediate) (map_columns p t immediate depth f i j r es err)
  unfolding map_columns
  map_columns-Returns t immediate u depth f i j [] es err k e s h = h
  map_columns-Returns t immediate u depth f i j (col ∷ cols) es err k e s h =
      next_column-Returns (HasEntries immediate) i j col err _ _
        (put_decoded-Returns t immediate col es _ k h (
          decode_filled-Returns f depth immediate u col (zero_value immediate) e s
            (zero_value-HasType immediate)))
        (λ fs e' g. map_columns-Returns t immediate u depth f i (j + 1) cols fs e' k e s g)
