-- ===== src/Unmarshal/Panics.antt =====
-- Targets on which Unmarshal panics (unmarshal.go).
use incite.Base.{
  ℕ, zero, suc, ◌+◌, ◌<◌, ◌≡◌, refl, sym, ap, Option, none, some, List, [], ◌∷◌, arith, length,
  false, ltb,
}
use incite.Stream.{Row}
use incite.Unmarshal.Types.{GoType, dig, elem_type}
use incite.Unmarshal.GoValues.{Value, Values, none_left, item, count, slice}
use incite.Unmarshal.Columns.{Packages}
use incite.Unmarshal.Select.{RowDecoder, accepted, select_row}
use incite.Unmarshal.Rows.{FieldError, with_item, next_row, decode_rows}
use incite.Unmarshal.Targets.{finished, decode_array, into_slice}

next_row-panics :
    (rest : Option FieldError → Option (Values × Option FieldError))
    (r : Option (Value × Option FieldError))
    → ((err : Option FieldError) → rest err ≡ none)
    → next_row rest r ≡ none
next_row-panics rest none h = refl
next_row-panics rest (some (v, err)) h = ap (with_item v) (h err)

ltb_same : (a b : ℕ) → a ≡ b → ltb a b ≡ false
ltb_same a b h = ground (arith, h)

module _ (p : Packages) where
  -- The loop over the rows panics when there are fewer elements than rows.
  decode_rows-panics :
      (f : RowDecoder) (t : GoType) (depth i n : ℕ) (rows : List Row) (vs : Values)
      (err : Option FieldError)
      → n < length rows
      → decode_rows p f t depth i n rows vs err ≡ none
  unfolding decode_rows
  decode_rows-panics f t depth i n [] vs err h = absurd (omega (arith, h))
  decode_rows-panics f t depth i zero (r ∷ rs) vs err h = refl
  decode_rows-panics f t depth i (suc n) (r ∷ rs) none_left err h = refl
  decode_rows-panics f t depth i (suc n) (r ∷ rs) (item v vs) err h =
      next_row-panics _ _ (λ e. decode_rows-panics f t depth (i + 1) n rs vs e (omega (arith, h)))

  -- Unmarshal panics on a slice whose capacity is the number of rows and whose length is less,
  -- if a row decoder is found.
  pub into_slice-panics :
      (rows : List Row) (t : GoType) (vs : Values) (len : ℕ) (f : RowDecoder)
      → select_row (dig (elem_type t)).0 ≡ accepted f
      → count vs ≡ length rows
      → len < length rows
      → into_slice p rows t vs len ≡ none
  unfolding into_slice decode_array
  into_slice-panics rows t vs len f found full short =
      let m = length rows in
      rw (ltb_same (count vs) m full, ltb_same m (count vs) (sym full), found)
        (ap (finished (λ done ws. slice ws len))
          (decode_rows-panics f (elem_type t) (dig (elem_type t)).1 0 len rows vs none short))
