-- ===== src/Unmarshal/Order.antt =====
-- The decoding of rows goes on after an error, and the first one is kept (unmarshal.go: wrap).
use incite.Base.{
  ℕ, zero, suc, ◌+◌, ◌≡◌, refl, sym, ap, ◌∙◌, Bool, true, false, Bool-cases, inl, inr, Option, none,
  some, List, [], ◌∷◌,
}
use incite.Clock.{Time}
use incite.Stream.{ResultField, Row}
use incite.Unmarshal.Types.{GoType, Kind, interface_kind, elem_type, kind, is_any}
use incite.Unmarshal.GoValues.{
  Value, nil, ref, time, struct, Values, none_left, item, Entries, empty, zero_value,
}
use incite.Unmarshal.Columns.{Packages, Decoder, Cause}
use incite.Unmarshal.Select.{FieldDecoder, RowDecoder, copying, to_map, to_struct}
use incite.Unmarshal.Rows.{
  FieldError, first_error, wrap, next_column, map_columns, struct_columns, through, fill, map_into,
  set_map, set_struct, time_values, keep_time, with_item, next_row, decode_row, decode_rows,
}

-- The outcome of a loop that has seen an error before, where that error is the one that is kept.
abbrev pub after_error {ℓ} :
    {A : Type ℓ}
    → Option FieldError
    → Option (A × Option FieldError)
    → Option (A × Option FieldError)
after_error err none = none
after_error none (some r) = some r
after_error (some e) (some (a, later)) = some (a, some e)

-- The same, by the function that the loops use.
abbrev with_first {ℓ} :
    {A : Type ℓ}
    → Option FieldError
    → Option (A × Option FieldError)
    → Option (A × Option FieldError)
with_first err none = none
with_first err (some (a, later)) = some (a, first_error err later)

with_first-after_error {ℓ} :
    {A : Type ℓ} (err : Option FieldError) (r : Option (A × Option FieldError))
    → with_first err r ≡ after_error err r
with_first-after_error none none = refl
with_first-after_error (some e) none = refl
with_first-after_error none (some r) = refl
with_first-after_error (some e) (some r) = refl

first_error_assoc {ℓ} :
    {E : Type ℓ} (a b c : Option E)
    → first_error a (first_error b c) ≡ first_error (first_error a b) c
first_error_assoc none b c = refl
first_error_assoc (some a) b c = refl

with_first_twice {ℓ} :
    {A : Type ℓ} (a b : Option FieldError) (r : Option (A × Option FieldError))
    → with_first a (with_first b r) ≡ with_first (first_error a b) r
with_first_twice a b none = refl
with_first_twice a b (some (x, c)) = ap (λ e. some (x, e)) (first_error_assoc a b c)

-- The rest of a loop takes an error that was seen before the same way.
abbrev Keeps {ℓ} : {A : Type ℓ} → (Option FieldError → Option (A × Option FieldError)) → Type ℓ
Keeps rest = (err : Option FieldError) → rest err ≡ with_first err (rest none)

next_column-Keeps {ℓ} :
    {A : Type ℓ} (i j : ℕ) (col : ResultField)
    (rest : A → Option FieldError → Option (A × Option FieldError)) (r : Option (A × Option Cause))
    → ((a : A) → Keeps (rest a))
    → Keeps (λ err. next_column i j col err rest r)
next_column-Keeps i j col rest none h err = refl
next_column-Keeps i j col rest (some (a, e)) h err =
    h a (first_error err (wrap i j col e))
    ∙ sym (with_first_twice err (wrap i j col e) (rest a none))
    ∙ ap (with_first err) (sym (h a (wrap i j col e)))

through-with_first :
    (err : Option FieldError) (r : Option (Value × Option FieldError))
    → through (with_first err r) ≡ with_first err (through r)
through-with_first err none = refl
through-with_first err (some (v, e)) = refl

fill-Keeps :
    (use_value : Option FieldError → GoType → Bool → Value → Option (Value × Option FieldError))
    → ((t : GoType) (can_set : Bool) (v : Value) → Keeps (λ err. use_value err t can_set v))
    → (depth : ℕ) (t : GoType) (can_set : Bool) (v : Value)
    → Keeps (λ err. fill (use_value err) depth t can_set v)
unfolding fill
fill-Keeps use_value h zero t can_set v err = h t can_set v err
fill-Keeps use_value h (suc depth) t true nil err =
    ap through (fill-Keeps use_value h depth (elem_type t) true (zero_value (elem_type t)) err)
    ∙ through-with_first err _
fill-Keeps use_value h (suc depth) t false nil err = refl
fill-Keeps use_value h (suc depth) t can_set (ref v) err =
    ap through (fill-Keeps use_value h depth (elem_type t) can_set v err) ∙ through-with_first err _
fill-Keeps use_value h (suc depth) t can_set v err = refl

map_into-with_first :
    (u : GoType) (k : Kind) (es : Entries) (err e : Option FieldError)
    → map_into u k es (first_error err e) ≡ with_first err (map_into u k es e)
map_into-with_first u interface_kind es err e = elim (Bool-cases (is_any u)) [
  | inl h ↦ rw h refl
  | inr h ↦ rw h refl
]
map_into-with_first u k es err e = refl

set_map-with_first :
    (u : GoType) (err : Option FieldError) (r : Option (Entries × Option FieldError))
    → set_map u (with_first err r) ≡ with_first err (set_map u r)
set_map-with_first u err none = refl
set_map-with_first u err (some (es, e)) = map_into-with_first u (kind u) es err e

set_struct-with_first :
    (err : Option FieldError) (r : Option (Values × Option FieldError))
    → set_struct (with_first err r) ≡ with_first err (set_struct r)
set_struct-with_first err none = refl
set_struct-with_first err (some (vs, e)) = refl

keep_time-with_first :
    (n : Time) (err : Option FieldError) (r : Option (Values × Option FieldError))
    → keep_time n (with_first err r) ≡ with_first err (keep_time n r)
keep_time-with_first n err none = refl
keep_time-with_first n err (some (vs, e)) = refl

with_item-with_first :
    (v : Value) (err : Option FieldError) (r : Option (Values × Option FieldError))
    → with_item v (with_first err r) ≡ with_first err (with_item v r)
with_item-with_first v err none = refl
with_item-with_first v err (some (vs, e)) = refl

next_row-with_first :
    (rest : Option FieldError → Option (Values × Option FieldError)) (err : Option FieldError)
    (r : Option (Value × Option FieldError))
    → Keeps rest
    → next_row rest (with_first err r) ≡ with_first err (next_row rest r)
next_row-with_first rest err none h = refl
next_row-with_first rest err (some (v, e)) h =
    ap (with_item v) (
      h (first_error err e)
      ∙ sym (with_first_twice err e (rest none))
      ∙ ap (with_first err) (sym (h e)))
    ∙ with_item-with_first v err (rest e)

module _ (p : Packages) where
  map_columns-Keeps :
      (t immediate : GoType) (depth : ℕ) (f : Decoder) (i j : ℕ) (r : Row) (es : Entries)
      → Keeps (map_columns p t immediate depth f i j r es)
  unfolding map_columns
  map_columns-Keeps t immediate depth f i j [] es none = refl
  map_columns-Keeps t immediate depth f i j [] es (some e) = refl
  map_columns-Keeps t immediate depth f i j (col ∷ cols) es err =
      next_column-Keeps i j col (map_columns p t immediate depth f i (j + 1) cols) _
        (map_columns-Keeps t immediate depth f i (j + 1) cols) err

  struct_columns-Keeps :
      (dfs : List FieldDecoder) (i j : ℕ) (r : Row) (vs : Values)
      → Keeps (struct_columns p dfs i j r vs)
  unfolding struct_columns
  struct_columns-Keeps dfs i j [] vs none = refl
  struct_columns-Keeps dfs i j [] vs (some e) = refl
  struct_columns-Keeps dfs i j (col ∷ cols) vs err =
      next_column-Keeps i j col (struct_columns p dfs i (j + 1) cols) _
        (struct_columns-Keeps dfs i (j + 1) cols) err

  decode_row-Keeps :
      (f : RowDecoder) (i : ℕ) (r : Row) (u : GoType) (can_set : Bool) (v : Value)
      → Keeps (λ err. decode_row p f i r err u can_set v)
  unfolding decode_row
  decode_row-Keeps copying i r u can_set v none = refl
  decode_row-Keeps copying i r u can_set v (some e) = refl
  decode_row-Keeps (to_map t immediate depth f) i r u can_set v err =
      ap (set_map u) (map_columns-Keeps t immediate depth f i 0 r empty err)
      ∙ set_map-with_first u err _
  decode_row-Keeps (to_struct dfs) i r u can_set (struct vs) err =
      ap set_struct (struct_columns-Keeps dfs i 0 r vs err) ∙ set_struct-with_first err _
  decode_row-Keeps (to_struct dfs) i r u can_set (time n) err =
      ap (keep_time n) (struct_columns-Keeps dfs i 0 r time_values err)
      ∙ keep_time-with_first n err _
  decode_row-Keeps (to_struct dfs) i r u can_set v err = refl

  decode_rows-Keeps :
      (f : RowDecoder) (t : GoType) (depth i n : ℕ) (rows : List Row) (vs : Values)
      (err : Option FieldError)
      → decode_rows p f t depth i n rows vs err
        ≡ with_first err (decode_rows p f t depth i n rows vs none)
  unfolding decode_rows
  decode_rows-Keeps f t depth i n [] vs none = refl
  decode_rows-Keeps f t depth i n [] vs (some e) = refl
  decode_rows-Keeps f t depth i zero (r ∷ rs) vs err = refl
  decode_rows-Keeps f t depth i (suc n) (r ∷ rs) none_left err = refl
  decode_rows-Keeps f t depth i (suc n) (r ∷ rs) (item v vs) err =
      ap (next_row (decode_rows p f t depth (i + 1) n rs vs))
        (fill-Keeps (decode_row p f i r) (decode_row-Keeps f i r) depth t true v err)
      ∙ next_row-with_first (decode_rows p f t depth (i + 1) n rs vs) err _
          (decode_rows-Keeps f t depth (i + 1) n rs vs)

  -- An error that was seen before does not change what the loop over the rows leaves in the
  -- elements, or whether it panics, and is the error that is kept.
  pub decode_rows-after_error :
      (f : RowDecoder) (t : GoType) (depth i n : ℕ) (rows : List Row) (vs : Values)
      (err : Option FieldError)
      → decode_rows p f t depth i n rows vs err
        ≡ after_error err (decode_rows p f t depth i n rows vs none)
  decode_rows-after_error f t depth i n rows vs err =
      decode_rows-Keeps f t depth i n rows vs err ∙ with_first-after_error err _
