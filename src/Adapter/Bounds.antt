-- ===== src/Adapter/Bounds.antt =====
-- An adapter stays between its minimum and its maximum (adapter.go).
use incite.Base.{ℕ, ◌≤◌, ◌<◌, ◌≡◌, true, false, List, [], ◌∷◌, arith}
use incite.Clock.{Time, time_sub}
use incite.Adapter.{
  StandardAdapter, Adapter, disabled, standard, value, increase_standard, decrease_standard,
  increase, decrease,
}

pub data Event : Type 0 where
  up down : Time → Event

pub react : Adapter → Event → Adapter
unfolding increase decrease
react a (up t) = (increase t a).0
react a (down t) = (decrease t a).0

pub react_all : Adapter → List Event → Adapter
unfolding react
react_all a [] = a
react_all a (e ∷ es) = react_all (react a e) es

-- The value lies between the bounds, which do not change.
abbrev pub Within : ℕ → ℕ → Adapter → Type 0
Within lo hi (disabled v) = (lo ≤ v) × (v ≤ hi)
Within lo hi (standard a) = (a.min ≡ lo) × (a.max ≡ hi) × (lo ≤ a.val) × (a.val ≤ hi)

react-Within : (lo hi : ℕ) (a : Adapter) (e : Event) → Within lo hi a → Within lo hi (react a e)
unfolding react increase_standard decrease_standard
react-Within lo hi (disabled v) (up t) h = h
react-Within lo hi (disabled v) (down t) h = h
react-Within lo hi (standard a) (up t) h = ground arith
react-Within lo hi (standard a) (down t) h = ground arith

pub Within-value : (lo hi : ℕ) (a : Adapter) → Within lo hi a → (lo ≤ value a) × (value a ≤ hi)
unfolding value
Within-value lo hi (disabled v) h = h
Within-value lo hi (standard a) h = (h.2, h.3)

-- Whatever events an adapter is told of, and when, its value stays within the bounds.
pub react_all-bounds :
    (lo hi : ℕ) (a : Adapter) (es : List Event)
    → Within lo hi a
    → (lo ≤ value (react_all a es)) × (value (react_all a es) ≤ hi)
unfolding react_all
react_all-bounds lo hi a [] h = Within-value lo hi a h
react_all-bounds lo hi a (e ∷ es) h =
    react_all-bounds lo hi (react a e) es (react-Within lo hi a e h)

-- decrease reports a change exactly when the value changes, and increase whenever the value is
-- below its maximum.
pub changes_reported :
    (t : Time) (a : StandardAdapter)
    → ((decrease_standard t a).1 ≡ false → (decrease_standard t a).0.val ≡ a.val)
      × ((decrease_standard t a).1 ≡ true → (decrease_standard t a).0.val ≡ a.val → ⊥)
      × ((increase_standard t a).1 ≡ true → a.val < a.max)
      × (a.val < a.max → (increase_standard t a).1 ≡ true)
unfolding increase_standard decrease_standard
changes_reported t a = ground arith

-- The documentation of increase says that it reports whether the value changed. At the instant
-- of the last change it reports one, and there is none.
increase_idle :
    (t : Time) (a : StandardAdapter)
    → a.val < a.max
    → a.last ≡ t
    → ((increase_standard t a).1 ≡ true) × ((increase_standard t a).0.val ≡ a.val)
unfolding increase_standard time_sub
increase_idle t a h e = ground arith
