-- ===== src/Unmarshal/Choices.antt =====
-- The decode functions that the sel functions choose suit their destinations (unmarshal.go).
use incite.Base.{
  ◌≡◌, refl, Bool, true, false, Bool-cases, Option, none, some, inl, inr, Text, if◌then◌else◌,
}
use incite.Unmarshal.Types.{
  GoType, Kind, string_kind, bool_kind, int_kind, uint_kind, float_kind, interface_kind,
  struct_kind, map_kind, slice_kind, array_kind, ptr_kind, other_kind, kind, is_time, is_any,
  methods,
}
use incite.Unmarshal.Columns.{Decoder}
use incite.Unmarshal.Select.{
  time_by_kind, deleted_by_kind, element_by_kind, Choice, chosen, refused, select_time,
  select_deleted, select_by_kind, select_by_type, selector_of, select_element, is_time_tag,
  is_deleted_tag,
}
use incite.Unmarshal.Decoders.{Suits}

-- What the sel functions choose.
abbrev pub Chosen : GoType → Choice Decoder → Type 0
Chosen t (refused e) = Unit {0}
Chosen t (chosen f) = Suits f t

if-Chosen :
    (t : GoType) (b : Bool) (x y : Choice Decoder)
    → (b ≡ true → Chosen t x)
    → Chosen t y
    → Chosen t (if b then x else y)
if-Chosen t true x y h k = h refl
if-Chosen t false x y h k = k

time_by_kind-Chosen : (t : GoType) (k : Kind) → kind t ≡ k → Chosen t (time_by_kind t k)
time_by_kind-Chosen t string_kind e = e
time_by_kind-Chosen t struct_kind e = if-Chosen t (is_time t) _ _ (λ h. h) tt
time_by_kind-Chosen t k e = tt

deleted_by_kind-Chosen : (t : GoType) (k : Kind) → kind t ≡ k → Chosen t (deleted_by_kind k)
deleted_by_kind-Chosen t string_kind e = e
deleted_by_kind-Chosen t bool_kind e = e
deleted_by_kind-Chosen t k e = tt

select_by_kind-Chosen : (t : GoType) (k : Kind) → kind t ≡ k → Chosen t (select_by_kind k)
unfolding select_by_kind
select_by_kind-Chosen t string_kind e = e
select_by_kind-Chosen t (int_kind b) e = (b, e)
select_by_kind-Chosen t (uint_kind b) e = (b, e)
select_by_kind-Chosen t (float_kind b) e = (b, e)
select_by_kind-Chosen t bool_kind e = e
select_by_kind-Chosen t interface_kind e = tt
select_by_kind-Chosen t struct_kind e = tt
select_by_kind-Chosen t map_kind e = tt
select_by_kind-Chosen t slice_kind e = tt
select_by_kind-Chosen t array_kind e = tt
select_by_kind-Chosen t ptr_kind e = tt
select_by_kind-Chosen t other_kind e = tt

pub select_by_type-Chosen : (t : GoType) → Chosen t (select_by_type t)
unfolding select_by_type
select_by_type-Chosen t =
    let by_kind = select_by_kind-Chosen t (kind t) refl in
    let m = methods t in
    if-Chosen t m.some_method _ _
      (λ some_method.
        if-Chosen t m.text_unmarshaler _ _ (λ e. tt)
          (if-Chosen t m.json_unmarshaler _ _ (λ e. tt) by_kind))
      by_kind

-- The function that is chosen for a struct field suits its type.
pub selector_of-Chosen : (tag : Text) (t : GoType) → Chosen t (selector_of tag t)
unfolding selector_of select_time select_deleted
selector_of-Chosen tag t =
    if-Chosen t (is_time_tag tag) _ _ (λ e. time_by_kind-Chosen t (kind t) refl)
      (if-Chosen t (is_deleted_tag tag) _ _ (λ e. deleted_by_kind-Chosen t (kind t) refl)
        (select_by_type-Chosen t))

-- So does the function for the elements of a map, if an interface among them is empty.
abbrev pub ElementChosen : GoType → Option Decoder → Type 0
ElementChosen t none = Unit {0}
ElementChosen t (some f) = (kind t ≡ interface_kind → is_any t ≡ true) → Suits f t

element_by_kind-ElementChosen :
    (t : GoType) (k : Kind) → kind t ≡ k → ElementChosen t (element_by_kind k)
element_by_kind-ElementChosen t string_kind e = λ any. e
element_by_kind-ElementChosen t interface_kind e = λ any. any e
element_by_kind-ElementChosen t k e = tt

pub select_element-ElementChosen : (t : GoType) → ElementChosen t (select_element t)
unfolding select_element
select_element-ElementChosen t = elim (Bool-cases (methods t).text_unmarshaler) [
  | inl e ↦ rw e (λ any. tt)
  | inr e ↦ rw e (element_by_kind-ElementChosen t (kind t) refl)
]
