-- ===== src/Unmarshal/Typing.antt =====
-- Zero values, and values behind pointers, have their types (unmarshal.go: dig, fill).
use incite.Base.{
  if◌then◌else◌, ℕ, zero, suc, ◌<◌, ◌^◌, ◌-◌, lt→ltb, ◌≡◌, refl, sym, ap, subst, ◌∙◌, Bool, true,
  false, Bool-cases, Option, none, some, inl, inr, arith,
}
use incite.Unmarshal.Types.{
  GoType, Fields, end, field, string_type, bool_type, other_type, time_type, result_type, int_type,
  uint_type, float_type, interface_type, ptr, slice_type, array_type, map_type, struct_type, named,
  Kind, ptr_kind, struct_kind, slice_kind, interface_kind, is_ptr, kind, elem_type, array_length,
  fields_of, underlying, is_time, is_any, is_result, Methods, dig,
}
use incite.Unmarshal.GoValues.{
  Value, nil, ref, text, bool, int, uint, float, opaque, time, row, iface, slice, array, struct,
  map, count, replicate, zero_value, zero_fields, HasType, HasItems, HasFields, fits_int, fits_uint,
}
use incite.Unmarshal.Rows.{fill, through}

-- A defined type has the values of the type that it is defined over.
named-HasType : (m : Methods) (t : GoType) (v : Value) → HasType t v → HasType (named m t) v
unfolding kind elem_type array_length fields_of underlying is_any
named-HasType m t nil h = h
named-HasType m t (ref v) h = h
named-HasType m t (text s) h = h
named-HasType m t (bool b) h = h
named-HasType m t (int n) h = h
named-HasType m t (uint n) h = h
named-HasType m t (float n) h = h
named-HasType m t (opaque n) h = h
named-HasType m t (time n) h = h
named-HasType m t (row r) h = h
named-HasType m t (iface u v) h = h
named-HasType m t (slice vs n) h = h
named-HasType m t (array vs) h = h
named-HasType m t (struct vs) h = h
named-HasType m t (map es) h = h

replicate-HasItems : (t : GoType) (v : Value) (n : ℕ) → HasType t v → HasItems t (replicate n v)
replicate-HasItems t v zero h = tt
replicate-HasItems t v (suc n) h = (h, replicate-HasItems t v n h)

count-replicate : (n : ℕ) (v : Value) → count (replicate n v) ≡ n
count-replicate zero v = refl
count-replicate (suc n) v = ap suc (count-replicate n v)

pos_power : (b : ℕ) → 0 < 2 ^ b
pos_power zero = omega arith
pos_power (suc b) = grind (arith, pos_power b)

mutual
  unfolding zero_value kind elem_type array_length fields_of underlying is_time is_result fits_int
      fits_uint

  zero-HasType : (t : GoType) → HasType t (zero_value t)
  zero-HasType string_type = refl
  zero-HasType bool_type = refl
  zero-HasType other_type = refl
  zero-HasType time_type = refl
  zero-HasType result_type = refl
  zero-HasType (int_type b) = lt→ltb 0 (2 ^ (b - 1)) (pos_power (b - 1))
  zero-HasType (uint_type b) = lt→ltb 0 (2 ^ b) (pos_power b)
  zero-HasType (float_type b) = refl
  zero-HasType (interface_type e) = refl
  zero-HasType (ptr t) = refl
  zero-HasType (slice_type t) = (refl, tt)
  zero-HasType (array_type n t) = (
    refl,
    count-replicate n (zero_value t),
    replicate-HasItems t (zero_value t) n (zero-HasType t),
  )
  zero-HasType (map_type k t) = refl
  zero-HasType (struct_type fs) = (refl, zero-HasFields fs)
  zero-HasType (named m t) = named-HasType m t (zero_value t) (zero-HasType t)

  zero-HasFields : (fs : Fields) → HasFields fs (zero_fields fs)
  zero-HasFields end = tt
  zero-HasFields (field name exported tags t fs) = (zero-HasType t, zero-HasFields fs)

-- The zero value of a type has that type.
pub zero_value-HasType : (t : GoType) → HasType t (zero_value t)
zero_value-HasType t = zero-HasType t

-- A chain of pointers is dug one pointer at a time.
dig-ptr :
    (t : GoType)
    → is_ptr (kind t) ≡ true
    → dig t ≡ ((dig (elem_type t)).0, suc (dig (elem_type t)).1)
unfolding dig kind elem_type
dig-ptr (ptr t) h = refl
dig-ptr (named m t) h = ground (arith, dig-ptr t h)
dig-ptr t h = cc

dig-other : (t : GoType) → is_ptr (kind t) ≡ false → dig t ≡ (t, 0)
unfolding dig kind
dig-other (ptr t) h = cc
dig-other (named m t) h = ground arith
dig-other t h = refl

-- A part of Unmarshal does not panic, and gives a value with a property.
abbrev pub Returns {ℓ} : {A : Type 0} {E : Type ℓ} → (A → Type 0) → Option (A × E) → Type 0
Returns P none = ⊥
Returns P (some (a, e)) = P a

pub if-Returns {ℓ} :
    {E : Type ℓ} (P : Value → Type 0) (b : Bool) (x y : Option (Value × E))
    → (b ≡ true → Returns P x)
    → (b ≡ false → Returns P y)
    → Returns P (if b then x else y)
if-Returns P true x y h k = h refl
if-Returns P false x y h k = k refl

pub through-Returns {ℓ} :
    {E : Type ℓ} (t : GoType) (r : Option (Value × E))
    → kind t ≡ ptr_kind
    → Returns (HasType (elem_type t)) r
    → Returns (HasType t) (through r)
through-Returns t none k h = h
through-Returns t (some (v, e)) k h = (k, h)

is_ptr-kind : (k : Kind) → is_ptr k ≡ true → k ≡ ptr_kind
is_ptr-kind ptr_kind h = refl
is_ptr-kind k h = cc

pub time-kind : (t : GoType) → is_time (underlying t) ≡ true → kind t ≡ struct_kind
unfolding is_time underlying kind
time-kind time_type h = refl
time-kind (named m t) h = time-kind t h
time-kind t h = cc

pub result-kind : (t : GoType) → is_result (underlying t) ≡ true → kind t ≡ slice_kind
unfolding is_result underlying kind
result-kind result_type h = refl
result-kind (named m t) h = result-kind t h
result-kind t h = cc

pub any-kind : (t : GoType) → is_any t ≡ true → kind t ≡ interface_kind
unfolding is_any kind
any-kind (interface_type e) h = refl
any-kind (named m t) h = any-kind t h
any-kind t h = cc

dig-end : (t u : GoType) → dig t ≡ (u, 0) → t ≡ u
dig-end t u e = elim (Bool-cases (is_ptr (kind t))) [
  | inl p ↦
      absurd
        (omega (arith, ap (λ (x : GoType × ℕ). x.1) e, ap (λ (x : GoType × ℕ). x.1) (dig-ptr t p)))
  | inr p ↦ ap (λ (x : GoType × ℕ). x.0) (sym (dig-other t p) ∙ e)
]

dig-more :
    (t u : GoType) (depth : ℕ)
    → dig t ≡ (u, suc depth)
    → (kind t ≡ ptr_kind) × (dig (elem_type t) ≡ (u, depth))
dig-more t u depth e = elim (Bool-cases (is_ptr (kind t))) [
  | inl p ↦ (is_ptr-kind (kind t) p, ground (arith, dig-ptr t p, e))
  | inr p ↦
      absurd (
        omega (arith, ap (λ (x : GoType × ℕ). x.1) e, ap (λ (x : GoType × ℕ). x.1) (dig-other t p)))
]

-- `Q` is what else is known of the value at the end of the pointers.
module _ {ℓ} {E : Type ℓ} (use_value : GoType → Bool → Value → Option (Value × E)) (u : GoType)
    (Q : Value → Type 0) (Q_ref : (v : Value) → Q (ref v) → Q v)
    (Q_zero : (t : GoType) → Q (zero_value t))
    (at_end : (v : Value) → HasType u v → Q v → Returns (HasType u) (use_value u true v)) where
  fill_ptr :
      (depth : ℕ) (t : GoType) (v : Value)
      → kind t ≡ ptr_kind
      → ((w : Value)
          → HasType (elem_type t) w
          → Q w
          → Returns (HasType (elem_type t)) (fill use_value depth (elem_type t) true w))
      → HasType t v
      → Q v
      → Returns (HasType t) (fill use_value (suc depth) t true v)
  unfolding fill
  fill_ptr depth t nil k ih h q =
      through-Returns t _ k
        (ih (zero_value (elem_type t)) (zero_value-HasType (elem_type t)) (Q_zero (elem_type t)))
  fill_ptr depth t (ref v) k ih h q = through-Returns t _ k (ih v h.1 (Q_ref v q))
  fill_ptr depth t (text s) k ih h q = cc
  fill_ptr depth t (bool b) k ih h q = cc
  fill_ptr depth t (int n) k ih h q = ground (arith, k, h)
  fill_ptr depth t (uint n) k ih h q = ground (arith, k, h)
  fill_ptr depth t (float n) k ih h q = ground (arith, k, h)
  fill_ptr depth t (opaque n) k ih h q = cc
  fill_ptr depth t (time n) k ih h q = cc (time-kind t h)
  fill_ptr depth t (row r) k ih h q = cc (result-kind t h)
  fill_ptr depth t (iface w v) k ih h q = cc (h.0)
  fill_ptr depth t (slice vs n) k ih h q = cc (h.0)
  fill_ptr depth t (array vs) k ih h q = cc (h.0)
  fill_ptr depth t (struct vs) k ih h q = cc (h.0)
  fill_ptr depth t (map es) k ih h q = cc (h.0)

  -- A chain of pointers is filled down to its end, and keeps its type.
  pub fill-Returns :
      (depth : ℕ) (t : GoType) (v : Value)
      → dig t ≡ (u, depth)
      → HasType t v
      → Q v
      → Returns (HasType t) (fill use_value depth t true v)
  unfolding fill
  fill-Returns zero t v e h q =
      let same = dig-end t u e in
      subst (λ x. Returns (HasType x) (use_value x true v)) (sym same)
        (at_end v (subst (λ x. HasType x v) same h) q)
  fill-Returns (suc depth) t v e h q =
      let (k, more) = dig-more t u depth e in
      fill_ptr depth t v k (λ w. fill-Returns depth (elem_type t) w more) h q
