-- ===== src/Unmarshal/Soundness.antt =====
-- Unmarshal does not panic on targets of plain types, and keeps their types (unmarshal.go).
use incite.Base.{
  ℕ, zero, suc, ◌+◌, ◌≤◌, ◌≡◌, refl, ap, Bool, true, false, Option, none, some, List, [], ◌∷◌,
  arith, length,
}
use incite.Stream.{Row}
use incite.Unmarshal.Types.{GoType, dig}
use incite.Unmarshal.GoValues.{Value, Values, none_left, item, count, HasType, HasItems}
use incite.Unmarshal.Columns.{Packages}
use incite.Unmarshal.Select.{RowDecoder, RowChoice, accepted, invalid, select_row}
use incite.Unmarshal.Rows.{FieldError, with_item, next_row, decode_row, decode_rows}
use incite.Unmarshal.Typing.{Returns, fill-Returns}
use incite.Unmarshal.Decoders.{IsTypeSafe}
use incite.Unmarshal.Plain.{
  PlainRow, RowSafe, ChoiceSafe, select_row-ChoiceSafe, decode_row-Returns,
}
use incite.Unmarshal.Targets.{decode_chosen, finished, decode_array}

-- Elements of one type, as many as there were.
abbrev pub Filled : GoType → ℕ → Values → Type 0
Filled t k vs = HasItems t vs × (count vs ≡ k)

with_item-Returns :
    (t : GoType) (k : ℕ) (v : Value) (r : Option (Values × Option FieldError))
    → HasType t v
    → Returns (Filled t k) r
    → Returns (Filled t (suc k)) (with_item v r)
with_item-Returns t k v none h g = g
with_item-Returns t k v (some (vs, e)) h g = ((h, g.0), ap suc g.1)

next_row-Returns :
    (t : GoType) (k : ℕ) (rest : Option FieldError → Option (Values × Option FieldError))
    (r : Option (Value × Option FieldError))
    → Returns (HasType t) r
    → ((err : Option FieldError) → Returns (Filled t k) (rest err))
    → Returns (Filled t (suc k)) (next_row rest r)
next_row-Returns t k rest none h g = h
next_row-Returns t k rest (some (v, err)) h g = with_item-Returns t k v (rest err) h (g err)

module _ (p : Packages) (safe : IsTypeSafe p) where
  decode_rows-Returns :
      (f : RowDecoder) (t : GoType) (i n : ℕ) (rows : List Row) (vs : Values)
      (err : Option FieldError)
      → RowSafe (dig t).0 f
      → HasItems t vs
      → length rows ≤ n
      → n ≤ count vs
      → Returns (Filled t (count vs)) (decode_rows p f t (dig t).1 i n rows vs err)
  unfolding decode_rows
  decode_rows-Returns f t i n [] vs err s h a b = (h, refl)
  decode_rows-Returns f t i zero (r ∷ rs) vs err s h a b = omega (arith, a)
  decode_rows-Returns f t i (suc n) (r ∷ rs) none_left err s h a b = omega (arith, b)
  decode_rows-Returns f t i (suc n) (r ∷ rs) (item v vs) err s h a b =
      next_row-Returns t (count vs) _ _
        (fill-Returns (decode_row p f i r err) (dig t).0 (λ x. Unit {0}) (λ x q. tt) (λ w. tt)
          (λ x g q. decode_row-Returns p safe f i r err (dig t).0 x s g) (dig t).1 t v refl h.0 tt)
        (λ e. decode_rows-Returns f t (i + 1) n rs vs e s h.1 (omega (arith, a)) (omega (arith, b)))

  -- The rows are decoded into the first n elements.
  pub decode_array-Returns :
      (P : Value → Type 0) (rows : List Row) (t : GoType) (n : ℕ) (back : Bool → Values → Value)
      (vs : Values)
      → PlainRow (dig t).0 (select_row (dig t).0)
      → HasItems t vs
      → length rows ≤ n
      → n ≤ count vs
      → ((done : Bool) (ws : Values) → Filled t (count vs) ws → P (back done ws))
      → Returns P (decode_array p rows t n back vs)
  unfolding decode_array
  decode_array-Returns P rows t n back vs plain h a b made =
      chosen-Returns (select_row (dig t).0) (select_row-ChoiceSafe (dig t).0 plain)
    where
      finished-Returns :
          (r : Option (Values × Option FieldError))
          → Returns (Filled t (count vs)) r
          → Returns P (finished back r)
      finished-Returns none g = g
      finished-Returns (some (ws, none)) g = made true ws g
      finished-Returns (some (ws, some e)) g = made false ws g

      chosen-Returns :
          (c : RowChoice RowDecoder)
          → ChoiceSafe (dig t).0 c
          → Returns P (decode_chosen p rows t (dig t).1 n back vs c)
      chosen-Returns (invalid e) s = made false vs (h, refl)
      chosen-Returns (accepted f) s =
          finished-Returns _ (decode_rows-Returns f t 0 n rows vs none s h a b)
