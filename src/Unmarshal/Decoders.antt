-- ===== src/Unmarshal/Decoders.antt =====
-- The decode functions set the destinations that suit them (unmarshal.go: the decodeCol functions).
use incite.Base.{ℕ, ◌≡◌, refl, sym, subst, Bool, true, false, Option, none, some, Text}
use incite.Base.Int.{ℤ}
use incite.Clock.{Time}
use incite.Stream.{ResultField}
use incite.Unmarshal.Types.{
  GoType, string_type, time_type, string_kind, bool_kind, int_kind, uint_kind, float_kind, kind,
  is_time, is_any, underlying,
}
use incite.Unmarshal.GoValues.{
  Value, text, bool, int, uint, float, time, HasType, fits_int, fits_uint,
}
use incite.Unmarshal.Numbers.{Parsed, value, wrong, parse_int, parse_uint, parse_bool}
use incite.Unmarshal.Columns.{
  Packages, Decoder, to_string, to_int, to_uint, to_float, to_bool, to_text_unmarshaler, as_json,
  as_json_fuzzy, as_insights_time, decode, set_string, set_bool, set_int, set_uint, set_any,
  set_time, set_float, set_json, json_or_text, time_or, fuzzy, passed_on, may_be_json, is_timestamp,
  Decoded,
}
use incite.Unmarshal.Typing.{any-kind, Returns, if-Returns}

-- What is known of the other packages: they keep the type of what they set through a pointer, and
-- the value that they make for an empty interface has its type.
pub record IsTypeSafe (p : Packages) : Type 0 where
  pub text_safe :
      (t : GoType) (src : Text) (v : Value) → HasType t v → HasType t (p.unmarshal_text t src v).0
  pub json_safe :
      (t : GoType) (src : Text) (v : Value) → HasType t v → HasType t (p.unmarshal_json t src v).0
  pub any_safe :
      (src : Text) (u : GoType) (x : Value) → p.any_json src ≡ some (some (u, x)) → HasType u x

-- The types that a decode function can set.
abbrev pub Suits : Decoder → GoType → Type 0
Suits to_string t = kind t ≡ string_kind
Suits to_int t = (b : ℕ) × (kind t ≡ int_kind b)
Suits to_uint t = (b : ℕ) × (kind t ≡ uint_kind b)
Suits to_float t = (b : ℕ) × (kind t ≡ float_kind b)
Suits to_bool t = kind t ≡ bool_kind
Suits to_text_unmarshaler t = Unit {0}
Suits as_json t = Unit {0}
Suits as_json_fuzzy t = is_any t ≡ true
Suits as_insights_time t = is_time t ≡ true

time-underlying : (t : GoType) → is_time t ≡ true → is_time (underlying t) ≡ true
unfolding is_time underlying
time-underlying time_type h = refl
time-underlying t h = cc

set_int-Returns :
    (P : Value → Type 0) (t : GoType) (b : ℕ) (src : Text) (r : Parsed ℤ) (v : Value)
    → P v
    → ((n : ℤ) → fits_int b n ≡ true → P (int n))
    → Returns P (set_int t (int_kind b) true src r v)
unfolding set_int
set_int-Returns P t b src (wrong e) v h set = h
set_int-Returns P t b src (value n) v h set = if-Returns P (fits_int b n) _ _ (set n) (λ over. h)

set_uint-Returns :
    (P : Value → Type 0) (t : GoType) (b : ℕ) (src : Text) (r : Parsed ℕ) (v : Value)
    → P v
    → ((n : ℕ) → fits_uint b n ≡ true → P (uint n))
    → Returns P (set_uint t (uint_kind b) true src r v)
unfolding set_uint
set_uint-Returns P t b src (wrong e) v h set = h
set_uint-Returns P t b src (value n) v h set = if-Returns P (fits_uint b n) _ _ (set n) (λ over. h)

set_bool-Returns :
    (P : Value → Type 0) (r : Parsed Bool) (v : Value)
    → P v
    → ((b : Bool) → P (bool b))
    → Returns P (set_bool bool_kind true r v)
unfolding set_bool
set_bool-Returns P (wrong e) v h set = h
set_bool-Returns P (value b) v h set = set b

set_time-Returns :
    (P : Value → Type 0) (t : GoType) (r : Option Time) (v : Value)
    → is_time t ≡ true
    → P v
    → ((n : Time) → P (time n))
    → Returns P (set_time t true r v)
unfolding set_time
set_time-Returns P t none v e h set = h
set_time-Returns P t (some n) v e h set = if-Returns P (is_time t) _ _ (λ k. set n) (λ k. cc)

passed_on-Returns : (P : Value → Type 0) (r : Value × Bool) → P r.0 → Returns P (passed_on true r)
passed_on-Returns P (v, true) h = h
passed_on-Returns P (v, false) h = h

module _ (p : Packages) (safe : IsTypeSafe p) where
  set_any-Returns :
      (t : GoType) (u : GoType) (x : Value)
      → is_any t ≡ true
      → HasType u x
      → Returns (HasType t) (set_any p t true u x)
  unfolding set_any
  set_any-Returns t u x e h = rw e (any-kind t e, h)

  set_float-Returns :
      (P : Value → Type 0) (t : GoType) (b : ℕ) (src : Text) (r : Parsed ℕ) (v : Value)
      → P v
      → ((n : ℕ) → P (float n))
      → Returns P (set_float p t (float_kind b) true src r v)
  unfolding set_float
  set_float-Returns P t b src (wrong e) v h set = h
  set_float-Returns P t b src (value n) v h set =
      if-Returns P (p.float_overflows b n) _ _ (λ over. h) (λ k. set (p.convert_float b n))

  set_json-Returns :
      (t : GoType) (src : Text) (r : Option (Option (GoType × Value))) (v : Value)
      → is_any t ≡ true
      → p.any_json src ≡ r
      → HasType t v
      → Returns (HasType t) (set_json p t true src r v)
  set_json-Returns t src none v e q h =
      set_any-Returns t string_type (text src) e (unfold kind in refl)
  set_json-Returns t src (some none) v e q h = h
  set_json-Returns t src (some (some (u, x))) v e q h =
      set_any-Returns t u x e (safe.any_safe src u x q)

  json_or_text-Returns :
      (t : GoType) (src : Text) (v : Value)
      → is_any t ≡ true
      → HasType t v
      → Returns (HasType t) (json_or_text p t true src v)
  unfolding json_or_text
  json_or_text-Returns t src v e h =
      if-Returns (HasType t) (may_be_json src) _ _
        (λ k. set_json-Returns t src (p.any_json src) v e refl h)
        (λ k. set_any-Returns t string_type (text src) e (unfold kind in refl))

  time_or-Returns :
      (t : GoType) (r : Option Time) (otherwise : Option Decoded)
      → is_any t ≡ true
      → Returns (HasType t) otherwise
      → Returns (HasType t) (time_or p t true r otherwise)
  time_or-Returns t none otherwise e h = h
  time_or-Returns t (some n) otherwise e h =
      set_any-Returns t time_type (time n) e (unfold is_time underlying in refl)

  fuzzy-Returns :
      (t : GoType) (col : ResultField) (v : Value)
      → is_any t ≡ true
      → HasType t v
      → Returns (HasType t) (fuzzy p t true col v)
  unfolding fuzzy
  fuzzy-Returns t col v e h =
      let otherwise = json_or_text-Returns t col.value v e h in
      if-Returns (HasType t) (is_timestamp col.field) _ _
        (λ k. time_or-Returns t (p.parse_time col.value) _ e otherwise) (λ k. otherwise)

  -- A decode function that suits the type of a settable destination does not panic, and the
  -- destination keeps its type.
  pub decode-Returns :
      (f : Decoder) (t : GoType) (col : ResultField) (v : Value)
      → Suits f t
      → HasType t v
      → Returns (HasType t) (decode p f t true col v)
  unfolding decode set_string
  decode-Returns to_string t col v s h = rw s s
  decode-Returns to_int t col v (b, s) h =
      subst (λ k. Returns (HasType t) (set_int t k true col.value (parse_int col.value) v)) (sym s)
        (set_int-Returns (HasType t) t b col.value (parse_int col.value) v h (λ n fits. rw s fits))
  decode-Returns to_uint t col v (b, s) h =
      subst (λ k. Returns (HasType t) (set_uint t k true col.value (parse_uint col.value) v))
        (sym s)
        (set_uint-Returns (HasType t) t b col.value (parse_uint col.value) v h
          (λ n fits. rw s fits))
  decode-Returns to_float t col v (b, s) h =
      subst (λ k. Returns (HasType t) (set_float p t k true col.value (p.parse_float col.value) v))
        (sym s)
        (set_float-Returns (HasType t) t b col.value (p.parse_float col.value) v h (λ n. rw s refl))
  decode-Returns to_bool t col v s h =
      subst (λ k. Returns (HasType t) (set_bool k true (parse_bool col.value) v)) (sym s)
        (set_bool-Returns (HasType t) (parse_bool col.value) v h (λ b. s))
  decode-Returns to_text_unmarshaler t col v s h =
      passed_on-Returns (HasType t) (p.unmarshal_text t col.value v)
        (safe.text_safe t col.value v h)
  decode-Returns as_json t col v s h =
      passed_on-Returns (HasType t) (p.unmarshal_json t col.value v)
        (safe.json_safe t col.value v h)
  decode-Returns as_json_fuzzy t col v s h = fuzzy-Returns t col v s h
  decode-Returns as_insights_time t col v s h =
      set_time-Returns (HasType t) t (p.parse_time col.value) v s h (λ n. time-underlying t s)
