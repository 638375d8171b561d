-- ===== src/Poller/Keys.antt =====
-- The keys of the @ptr map after a block of a query with preview (poller.go).
use incite.Base.{
  ◌≡◌, ap, true, false, not, ◌&&◌, ◌||◌, List, [], ◌∷◌, arith, Text, text_eq, text_eq→eq,
  text_eq_iff,
}
use incite.Poller.Preview.{elem, insert, delete, Sweep, sweep_one, sweep, insert_all}

-- A map has each key once.
abbrev pub Distinct : List Text → Type 0
Distinct [] = Unit {0}
Distinct (p ∷ ps) = (elem p ps ≡ false) × Distinct ps

-- What is known of the order in which Go visits a map: each key once, and no other.
pub record IsOrder (order : List Text → List Text) : Type 0 where
  pub same : (p : Text) (ps : List Text) → elem p (order ps) ≡ elem p ps
  pub distinct : (ps : List Text) → Distinct ps → Distinct (order ps)

pub elem_eq : (p q : Text) (ps : List Text) → text_eq p q ≡ true → elem p ps ≡ elem q ps
elem_eq p q ps h = ap (λ t. elem t ps) (text_eq→eq p q h)

pub elem-insert : (p q : Text) (ps : List Text) → elem p (insert q ps) ≡ (text_eq q p || elem p ps)
unfolding insert elem
elem-insert p q ps = ground (arith, elem_eq q p ps)

pub elem-delete :
    (p q : Text) (ps : List Text) → elem p (delete q ps) ≡ (not (text_eq q p) && elem p ps)
unfolding delete elem
elem-delete p q [] = ground arith
elem-delete p q (x ∷ ps) =
    ground (arith, elem-delete p q ps, text_eq_iff x q, text_eq_iff x p, text_eq_iff q p)

pub insert-Distinct : (q : Text) (ps : List Text) → Distinct ps → Distinct (insert q ps)
unfolding insert
insert-Distinct q ps h = ground arith

delete-Distinct : (q : Text) (ps : List Text) → Distinct ps → Distinct (delete q ps)
unfolding delete
delete-Distinct q [] h = tt
delete-Distinct q (x ∷ ps) h = ground (arith, delete-Distinct q ps, elem-delete x q ps)

pub elem-insert_all :
    (p : Text) (qs ps : List Text) → elem p (insert_all qs ps) ≡ (elem p ps || elem p qs)
unfolding insert_all elem
elem-insert_all p [] ps = ground arith
elem-insert_all p (q ∷ qs) ps =
    ground (arith, elem-insert_all p qs (insert q ps), elem-insert p q ps)

pub insert_all-Distinct : (qs ps : List Text) → Distinct ps → Distinct (insert_all qs ps)
unfolding insert_all
insert_all-Distinct [] ps h = h
insert_all-Distinct (q ∷ qs) ps h = insert_all-Distinct qs (insert q ps) (insert-Distinct q ps h)

pub sweep-new_ptr :
    (p : Text) (qs : List Text) (w : Sweep)
    → elem p (sweep qs w).new_ptr ≡ (elem p w.new_ptr && not (elem p qs))
unfolding sweep elem
sweep-new_ptr p [] w = ground arith
sweep-new_ptr p (q ∷ qs) w =
    ground
      (arith, sweep-new_ptr p qs (sweep_one q w), elem-delete p q w.new_ptr, elem_eq q p w.new_ptr)

pub sweep-ptr :
    (p : Text) (qs : List Text) (w : Sweep)
    → Distinct qs
    → elem p (sweep qs w).ptr ≡ (elem p w.ptr && (not (elem p qs) || elem p w.new_ptr))
unfolding sweep elem
sweep-ptr p [] w h = ground arith
sweep-ptr p (q ∷ qs) w h = ground (
  arith,
  sweep-ptr p qs (sweep_one q w) h.1,
  elem-delete p q w.new_ptr,
  elem-delete p q w.ptr,
  elem_eq q p w.new_ptr,
  elem_eq q p qs,
)

pub sweep-Distinct : (qs : List Text) (w : Sweep) → Distinct w.ptr → Distinct (sweep qs w).ptr
unfolding sweep
sweep-Distinct [] w h = h
sweep-Distinct (q ∷ qs) w h =
    sweep-Distinct qs (sweep_one q w) (ground (arith, delete-Distinct q w.ptr h))
