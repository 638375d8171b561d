-- ===== src/Unmarshal/Plain.antt =====
-- The row decoders that are chosen for plain row types can decode them (unmarshal.go).
use incite.Base.{
  ℕ, ◌≡◌, ◌⊎◌, ◌^◌, lt→ltb, refl, sym, subst, ◌∙◌, true, Bool-cases, Option, none, some, inl, inr,
  List, [], ◌∷◌, arith,
}
use incite.Clock.{Time}
use incite.Stream.{Row}
use incite.Unmarshal.Types.{
  GoType, Kind, string_kind, interface_kind, struct_kind, map_kind, slice_kind, kind, is_any,
  is_string, is_result, is_time, time_type, named, result_type, underlying, dig, elem_type,
  key_type, fields_of, string_type,
}
use incite.Unmarshal.GoValues.{
  Value, nil, ref, text, bool, int, uint, float, opaque, time, row, iface, slice, array, struct,
  map, fits_int, fits_uint, Values, Entries, empty, HasType, HasFields, HasEntries,
}
use incite.Unmarshal.Columns.{Packages, Decoder}
use incite.Unmarshal.Select.{
  FieldDecoder, RowDecoder, copying, to_map, to_struct, RowChoice, accepted, invalid, struct_row,
  map_row, map_by_key, select_map, row_by_kind, select_row, string_map,
}
use incite.Unmarshal.Rows.{
  FieldError, map_columns, struct_columns, map_into, set_map, set_struct, time_values, keep_time,
  decode_row,
}
use incite.Unmarshal.Typing.{Returns, result-kind, any-kind}
use incite.Unmarshal.Decoders.{IsTypeSafe, Suits}
use incite.Unmarshal.Choices.{ElementChosen, select_element-ElementChosen}
use incite.Unmarshal.Safety.{AllOf, AllChosen, FieldSafe, select_fields-FieldSafe}
use incite.Unmarshal.RowSafety.{FieldDecodable, struct_columns-Returns, map_columns-Returns}

-- The row types on which no Set method of reflect panics: the keys of a map are of the type string
-- itself, the fields of a struct that are decoded are exported, and interfaces are empty.
abbrev pub PlainRow : GoType → RowChoice RowDecoder → Type 0
PlainRow u (invalid e) = Unit {0}
PlainRow u (accepted copying) = Unit {0}
PlainRow u (accepted (to_map t immediate depth f)) =
    (is_string (key_type t) ≡ true)
    × (kind (dig immediate).0 ≡ interface_kind → is_any (dig immediate).0 ≡ true)
    × (kind u ≡ interface_kind → is_any u ≡ true)
PlainRow u (accepted (to_struct dfs)) = AllOf (λ d. d.exported ≡ true) dfs

-- A row decoder can decode into a row type.
abbrev pub RowSafe : GoType → RowDecoder → Type 0
RowSafe u copying = is_result (underlying u) ≡ true
RowSafe u (to_map t immediate depth f) =
    (is_string (key_type t) ≡ true)
    × (dig immediate ≡ ((dig immediate).0, depth))
    × Suits f (dig immediate).0
    × (((kind u ≡ map_kind) × (elem_type u ≡ immediate))
        ⊎ ((is_any u ≡ true) × (string_type ≡ immediate)))
RowSafe u (to_struct dfs) = (kind u ≡ struct_kind) × AllOf (FieldDecodable (fields_of u)) dfs

abbrev pub ChoiceSafe : GoType → RowChoice RowDecoder → Type 0
ChoiceSafe u (invalid e) = Unit {0}
ChoiceSafe u (accepted f) = RowSafe u f

result-underlying : (t : GoType) → is_result t ≡ true → is_result (underlying t) ≡ true
unfolding is_result underlying
result-underlying result_type h = refl
result-underlying t h = cc

AllOf-and :
    (P Q : FieldDecoder → Type 0) (dfs : List FieldDecoder)
    → AllOf P dfs
    → AllOf Q dfs
    → AllOf (λ d. P d × Q d) dfs
AllOf-and P Q [] h k = tt
AllOf-and P Q (d ∷ ds) h k = ((h.0, k.0), AllOf-and P Q ds h.1 k.1)

struct_row-ChoiceSafe :
    (u : GoType) (r : RowChoice (List FieldDecoder))
    → kind u ≡ struct_kind
    → AllChosen (FieldSafe (fields_of u)) r
    → PlainRow u (struct_row r)
    → ChoiceSafe u (struct_row r)
struct_row-ChoiceSafe u (accepted dfs) k h p = (k, AllOf-and (FieldSafe (fields_of u)) _ dfs h p)
struct_row-ChoiceSafe u (invalid e) k h p = tt

map_row-ChoiceSafe :
    (u t : GoType) (r : Option Decoder)
    → ElementChosen (dig (elem_type t)).0 r
    → ((kind u ≡ map_kind) × (elem_type u ≡ elem_type t))
      ⊎ ((kind u ≡ interface_kind) × (string_type ≡ elem_type t))
    → PlainRow u (map_row t (dig (elem_type t)).1 r)
    → ChoiceSafe u (map_row t (dig (elem_type t)).1 r)
map_row-ChoiceSafe u t none h e p = tt
map_row-ChoiceSafe u t (some f) h (inl e) p = (p.0, refl, h p.1, inl e)
map_row-ChoiceSafe u t (some f) h (inr e) p = (p.0, refl, h p.1, inr (p.2 e.0, e.1))

map_by_key-ChoiceSafe :
    (u t : GoType) (k : Kind)
    → ((kind u ≡ map_kind) × (elem_type u ≡ elem_type t))
      ⊎ ((kind u ≡ interface_kind) × (string_type ≡ elem_type t))
    → PlainRow u (map_by_key t k)
    → ChoiceSafe u (map_by_key t k)
map_by_key-ChoiceSafe u t string_kind e p =
    map_row-ChoiceSafe u t _ (select_element-ElementChosen (dig (elem_type t)).0) e p
map_by_key-ChoiceSafe u t k e p = tt

row_by_kind-ChoiceSafe :
    (u : GoType) (k : Kind)
    → kind u ≡ k
    → PlainRow u (row_by_kind u k)
    → ChoiceSafe u (row_by_kind u k)
unfolding select_map
row_by_kind-ChoiceSafe u interface_kind e p =
    map_by_key-ChoiceSafe u string_map (kind (key_type string_map))
      (inr (e, unfold elem_type in refl)) p
row_by_kind-ChoiceSafe u map_kind e p =
    map_by_key-ChoiceSafe u u (kind (key_type u)) (inl (e, refl)) p
row_by_kind-ChoiceSafe u struct_kind e p =
    struct_row-ChoiceSafe u _ e (select_fields-FieldSafe u (fields_of u)) p
row_by_kind-ChoiceSafe u slice_kind e p = elim (Bool-cases (is_result u)) [
  | inl r ↦ rw r (result-underlying u r)
  | inr r ↦ rw r tt
]
row_by_kind-ChoiceSafe u k e p = tt

-- The row decoder that is chosen for a plain row type can decode into it.
pub select_row-ChoiceSafe : (u : GoType) → PlainRow u (select_row u) → ChoiceSafe u (select_row u)
unfolding select_row
select_row-ChoiceSafe u p = row_by_kind-ChoiceSafe u (kind u) refl p

time_values-HasFields :
    (u : GoType) → is_time (underlying u) ≡ true → HasFields (fields_of u) time_values
unfolding is_time underlying fields_of kind fits_int fits_uint
time_values-HasFields time_type h =
    (lt→ltb 0 (2 ^ 64) (omega arith), (lt→ltb 0 (2 ^ 63) (omega arith), (refl, tt)))
time_values-HasFields (named m t) h = time_values-HasFields t h
time_values-HasFields t h = cc

keep_time-Returns :
    (u : GoType) (n : Time) (r : Option (Values × Option FieldError))
    → is_time (underlying u) ≡ true
    → Returns (HasFields (fields_of u)) r
    → Returns (HasType u) (keep_time n r)
keep_time-Returns u n none h k = k
keep_time-Returns u n (some (vs, err)) h k = h

map_into-Returns :
    (u t : GoType) (k : Kind) (es : Entries) (err : Option FieldError)
    → kind u ≡ k
    → HasEntries t es
    → ((kind u ≡ map_kind) × (elem_type u ≡ t)) ⊎ ((is_any u ≡ true) × (string_type ≡ t))
    → Returns (HasType u) (map_into u k es err)
map_into-Returns u t interface_kind es err e h (inl (m, s)) = cc
map_into-Returns u t interface_kind es err e h (inr (any, s)) = rw any (
  any-kind u any,
  (unfold kind in refl, subst (λ x. HasEntries x es) (sym s ∙ unfold elem_type in refl) h),
)
map_into-Returns u t map_kind es err e h (inl (m, s)) = (m, subst (λ x. HasEntries x es) (sym s) h)
map_into-Returns u t k es err e h (inl (m, s)) = (m, subst (λ x. HasEntries x es) (sym s) h)
map_into-Returns u t k es err e h (inr (any, s)) = cc (any-kind u any)

set_map-Returns :
    (u t : GoType) (r : Option (Entries × Option FieldError))
    → Returns (HasEntries t) r
    → ((kind u ≡ map_kind) × (elem_type u ≡ t)) ⊎ ((is_any u ≡ true) × (string_type ≡ t))
    → Returns (HasType u) (set_map u r)
set_map-Returns u t none h s = h
set_map-Returns u t (some (es, err)) h s = map_into-Returns u t (kind u) es err refl h s

set_struct-Returns :
    (u : GoType) (r : Option (Values × Option FieldError))
    → kind u ≡ struct_kind
    → Returns (HasFields (fields_of u)) r
    → Returns (HasType u) (set_struct r)
set_struct-Returns u none k h = h
set_struct-Returns u (some (vs, err)) k h = (k, h)

module _ (p : Packages) (safe : IsTypeSafe p) where
  to_struct-Returns :
      (dfs : List FieldDecoder) (i : ℕ) (r : Row) (err : Option FieldError) (u : GoType) (v : Value)
      → RowSafe u (to_struct dfs)
      → HasType u v
      → Returns (HasType u) (decode_row p (to_struct dfs) i r err u true v)
  unfolding decode_row
  to_struct-Returns dfs i r err u (struct vs) (k, s) h =
      set_struct-Returns u (struct_columns p dfs i 0 r vs err) k
        (struct_columns-Returns p safe (fields_of u) dfs i 0 r vs err s h.1)
  to_struct-Returns dfs i r err u (time n) (k, s) h =
      keep_time-Returns u n (struct_columns p dfs i 0 r time_values err) h (
        struct_columns-Returns p safe (fields_of u) dfs i 0 r time_values err s
          (time_values-HasFields u h))
  to_struct-Returns dfs i r err u nil (k, s) h = ground (arith, k, h)
  to_struct-Returns dfs i r err u (ref v) (k, s) h = cc (h.0)
  to_struct-Returns dfs i r err u (text t) (k, s) h = cc
  to_struct-Returns dfs i r err u (bool b) (k, s) h = cc
  to_struct-Returns dfs i r err u (int n) (k, s) h = ground (arith, k, h)
  to_struct-Returns dfs i r err u (uint n) (k, s) h = ground (arith, k, h)
  to_struct-Returns dfs i r err u (float n) (k, s) h = ground (arith, k, h)
  to_struct-Returns dfs i r err u (opaque n) (k, s) h = cc
  to_struct-Returns dfs i r err u (row q) (k, s) h = cc (result-kind u h)
  to_struct-Returns dfs i r err u (iface w v) (k, s) h = cc (h.0)
  to_struct-Returns dfs i r err u (slice vs n) (k, s) h = cc (h.0)
  to_struct-Returns dfs i r err u (array vs) (k, s) h = cc (h.0)
  to_struct-Returns dfs i r err u (map es) (k, s) h = cc (h.0)

  -- A row decoder that is safe for a type decodes every row into every value of that type.
  pub decode_row-Returns :
      (f : RowDecoder) (i : ℕ) (r : Row) (err : Option FieldError) (u : GoType) (v : Value)
      → RowSafe u f
      → HasType u v
      → Returns (HasType u) (decode_row p f i r err u true v)
  unfolding decode_row
  decode_row-Returns copying i r err u v s h = s
  decode_row-Returns (to_map t immediate depth f) i r err u v (key, d, suits, dst) h =
      set_map-Returns u immediate (map_columns p t immediate depth f i 0 r empty err)
        (map_columns-Returns p safe t immediate (dig immediate).0 depth f i 0 r empty err key d
          suits tt)
        dst
  decode_row-Returns (to_struct dfs) i r err u v s h = to_struct-Returns dfs i r err u v s h
