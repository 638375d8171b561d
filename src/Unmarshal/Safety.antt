-- ===== src/Unmarshal/Safety.antt =====
-- The decoders that are chosen for the fields of a struct suit them (unmarshal.go).
use incite.Base.{
  ℕ, zero, suc, ◌+◌, ◌≡◌, ◌⊎◌, refl, sym, subst, ◌∙◌, Bool, true, false, Option, none, some, inl,
  inr, List, [], ◌∷◌, arith, Text, if◌then◌else◌,
}
use incite.Unmarshal.Types.{GoType, Fields, end, field, Tags, dig}
use incite.Unmarshal.Columns.{Decoder}
use incite.Unmarshal.Select.{
  Choice, chosen, refused, ColumnChoice, FieldDecoder, RowChoice, accepted, invalid,
  select_json_tag, column_by_tag, select_column, tagged_choice, untagged_choice, select_fields,
  and_more, is_dash,
}
use incite.Unmarshal.Decoders.{Suits}
use incite.Unmarshal.Choices.{Chosen, selector_of-Chosen, select_by_type-Chosen}

-- A column choice suits the type of its field: at the end of its pointers, or as it stands.
abbrev pub ColumnSuits : ColumnChoice → GoType → Type 0
ColumnSuits c t =
    ((c.depth ≡ 0) × Suits c.decoder t) ⊎ ((c.depth ≡ (dig t).1) × Suits c.decoder (dig t).0)

abbrev ColumnChosen : GoType → Choice (Option ColumnChoice) → Type 0
ColumnChosen t (refused e) = Unit {0}
ColumnChosen t (chosen none) = Unit {0}
ColumnChosen t (chosen (some c)) = ColumnSuits c t

tagged-ColumnChosen :
    (name : Text) (t : GoType) (r : Choice Decoder)
    → Chosen (dig t).0 r
    → ColumnChosen t (tagged_choice name (dig t).1 r)
tagged-ColumnChosen name t (chosen f) h = inr (refl, h)
tagged-ColumnChosen name t (refused e) h = tt

untagged-ColumnChosen :
    (name : Text) (t : GoType) (r : Choice Decoder)
    → Chosen (dig t).0 r
    → ColumnChosen t (untagged_choice name (dig t).1 r)
untagged-ColumnChosen name t (chosen f) h = inr (refl, h)
untagged-ColumnChosen name t (refused e) h = tt

if-ColumnChosen :
    (t : GoType) (b : Bool) (x y : Choice (Option ColumnChoice))
    → ColumnChosen t x
    → ColumnChosen t y
    → ColumnChosen t (if b then x else y)
if-ColumnChosen t true x y h k = h
if-ColumnChosen t false x y h k = k

json_tag-ColumnChosen :
    (name json : Text) (t : GoType) → ColumnChosen t (select_json_tag name json t)
unfolding select_json_tag
json_tag-ColumnChosen name [] t = untagged-ColumnChosen name t _ (select_by_type-Chosen (dig t).0)
json_tag-ColumnChosen name (c ∷ cs) t = if-ColumnChosen t (is_dash (c ∷ cs)) _ _ tt (inl (refl, tt))

by_tag-ColumnChosen :
    (tag name json : Text) (t : GoType) → ColumnChosen t (column_by_tag tag name json t)
by_tag-ColumnChosen [] name json t = json_tag-ColumnChosen name json t
by_tag-ColumnChosen (c ∷ cs) name json t =
    if-ColumnChosen t (is_dash (c ∷ cs)) _ _ tt
      (tagged-ColumnChosen (c ∷ cs) t _ (selector_of-Chosen (c ∷ cs) (dig t).0))

select_column-ColumnChosen :
    (name : Text) (tags : Tags) (t : GoType) → ColumnChosen t (select_column name tags t)
unfolding select_column
select_column-ColumnChosen name tags t = by_tag-ColumnChosen tags.incite name tags.json t

abbrev pub AllOf : (FieldDecoder → Type 0) → List FieldDecoder → Type 0
AllOf P [] = Unit {0}
AllOf P (d ∷ ds) = P d × AllOf P ds

-- A decoder is for the field of its index.
abbrev pub FieldAt : Fields → ℕ → FieldDecoder → Type 0
FieldAt end i d = ⊥
FieldAt (field name exported tags t fs) zero d = d.field_type ≡ t
FieldAt (field name exported tags t fs) (suc i) d = FieldAt fs i d

abbrev pub AllChosen : (FieldDecoder → Type 0) → RowChoice (List FieldDecoder) → Type 0
AllChosen P (invalid e) = Unit {0}
AllChosen P (accepted dfs) = AllOf P dfs

and_more-AllChosen :
    (P : FieldDecoder → Type 0) (row_type : GoType) (name : Text) (t : GoType) (i : ℕ)
    (exported : Bool) (c : Choice (Option ColumnChoice)) (more : RowChoice (List FieldDecoder))
    → ColumnChosen t c
    → ((c : ColumnChoice)
        → ColumnSuits c t
        → P (record { index = i; exported = exported; field_type = t; choice = c }))
    → AllChosen P more
    → AllChosen P (and_more row_type name t i exported c more)
and_more-AllChosen P row_type name t i exported (refused e) more s h k = tt
and_more-AllChosen P row_type name t i exported (chosen c) (invalid e) s h k = tt
and_more-AllChosen P row_type name t i exported (chosen none) (accepted dfs) s h k = k
and_more-AllChosen P row_type name t i exported (chosen (some c)) (accepted dfs) s h k = (h c s, k)

select_fields-AllChosen :
    (P : FieldDecoder → Type 0) (row_type : GoType) (i : ℕ) (fs : Fields)
    → ((k : ℕ) (d : FieldDecoder)
        → d.index ≡ i + k
        → FieldAt fs k d
        → ColumnSuits d.choice d.field_type
        → P d)
    → AllChosen P (select_fields row_type i fs)
unfolding select_fields
select_fields-AllChosen P row_type i end h = tt
select_fields-AllChosen P row_type i (field name exported tags t fs) h =
    and_more-AllChosen P row_type tags.incite t i exported (select_column name tags t)
      (select_fields row_type (suc i) fs) (select_column-ColumnChosen name tags t)
      (λ c s.
        h 0 (record { index = i; exported = exported; field_type = t; choice = c }) (omega arith)
          refl s)
      (select_fields-AllChosen P row_type (suc i) fs
        (λ k d e at s. h (suc k) d (e ∙ omega arith) at s))

-- What is known of the decoders of a struct row.
abbrev pub FieldSafe : Fields → FieldDecoder → Type 0
FieldSafe fs d = FieldAt fs d.index d × ColumnSuits d.choice d.field_type

pub select_fields-FieldSafe :
    (row_type : GoType) (fs : Fields) → AllChosen (FieldSafe fs) (select_fields row_type 0 fs)
select_fields-FieldSafe row_type fs =
    select_fields-AllChosen (FieldSafe fs) row_type 0 fs
      (λ k d e at s. (subst (λ i. FieldAt fs i d) (sym (e ∙ omega arith)) at, s))
