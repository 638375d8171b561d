-- ===== src/Examples/Priorities.antt =====
-- The theorem on the order of the queue, with a queue that finds a least stream by a search.
use mathlib.Core.Option.{some-injective}
use incite.Base.{
  ℕ, suc, ◌+◌, ◌≤◌, ◌<◌, ◌≡◌, refl, sym, subst, ap, true, false, Bool-cases, inl, inr, none, some,
  Option, List, [], ◌∷◌, arith, length, ◌==◌, ==_iff, if◌then◌else◌,
}
use incite.Base.Int.{pos}
use incite.Manager.{Mgr, Heap, Streams, less, fill_ready}
use incite.Manager.Counts.{occurrences}
use incite.Manager.Consistency.{IsHeap}
use incite.Manager.Dispatching.{PopsOne}
use incite.Manager.Priority.{Ordering, Serves, less-irreflexive, less-transitive, fill_ready-Serves}
use incite.Examples.Data.{stream}
use incite.Examples.Managers.{waiting}

-- An element that comes in is compared with the least one so far.
abbrev pick : Streams → ℕ → ℕ → List ℕ → ℕ × List ℕ
pick streams k b rest = if less (streams k) (streams b) then (k, b ∷ rest) else (b, k ∷ rest)

-- A least stream of a list with a head, and the others.
abbrev take_least : Streams → ℕ → List ℕ → ℕ × List ℕ
take_least streams k [] = (k, [])
take_least streams k (j ∷ js) = let (b, rest) = take_least streams j js in pick streams k b rest

abbrev pop_least : Streams → List ℕ → Option (ℕ × List ℕ)
pop_least streams [] = none
pop_least streams (k ∷ ks) = some (take_least streams k ks)

abbrev searched : Heap
searched = record { push = λ streams k ks. k ∷ ks; pop = pop_least }

take_least-length :
    (streams : Streams) (k : ℕ) (ks : List ℕ) → length (take_least streams k ks).1 ≡ length ks
take_least-length streams k [] = refl
take_least-length streams k (j ∷ js) = ground (arith, take_least-length streams j js)

take_least-occurrences :
    (streams : Streams) (i k : ℕ) (ks : List ℕ)
    → let (b, rest) = take_least streams k ks in
      (if i == k then 1 else 0) + occurrences i ks ≡ (if i == b then 1 else 0) + occurrences i rest
unfolding occurrences
take_least-occurrences streams i k [] = refl
take_least-occurrences streams i k (j ∷ js) = ground (arith, take_least-occurrences streams i j js)

module _ (streams : Streams) (i k b : ℕ) (rest : List ℕ)
    (least : 0 < occurrences i rest → less (streams i) (streams b) ≡ false) where
  not_less_new :
      less (streams k) (streams b) ≡ true
      → 0 < occurrences i (b ∷ rest)
      → less (streams i) (streams k) ≡ false
  unfolding occurrences
  not_less_new kb q = elim (Bool-cases (less (streams i) (streams k))) [
    | inr e ↦ e
    | inl ik ↦
        let ib = less-transitive (streams i) (streams k) (streams b) ik kb in
        elim (Bool-cases (i == b)) [
          | inl same ↦ absurd (
              ground (
                arith,
                ib,
                less-irreflexive (streams b),
                ap (λ (x : ℕ). less (streams x) (streams b)) ((==_iff i b).0 same),
              ))
          | inr other ↦ absurd (ground (arith, ib, least, q, other))
        ]
  ]

  not_less_old :
      less (streams k) (streams b) ≡ false
      → 0 < occurrences i (k ∷ rest)
      → less (streams i) (streams b) ≡ false
  unfolding occurrences
  not_less_old kb q = elim (Bool-cases (i == k)) [
    | inl same ↦
        subst (λ (x : ℕ). less (streams x) (streams b) ≡ false) (sym ((==_iff i k).0 same)) kb
    | inr other ↦ least (ground (arith, q, other))
  ]

  pick-least :
      0 < occurrences i (pick streams k b rest).1
      → less (streams i) (streams (pick streams k b rest).0) ≡ false
  pick-least = elim (Bool-cases (less (streams k) (streams b))) [
    | inl kb ↦ rw kb (not_less_new kb)
    | inr kb ↦ rw kb (not_less_old kb)
  ]

take_least-least :
    (streams : Streams) (i k : ℕ) (ks : List ℕ)
    → 0 < occurrences i (take_least streams k ks).1
    → less (streams i) (streams (take_least streams k ks).0) ≡ false
unfolding occurrences
take_least-least streams i k [] h = absurd (omega (arith, h))
take_least-least streams i k (j ∷ js) h =
    pick-least streams i k (take_least streams j js).0 (take_least streams j js).1
      (take_least-least streams i j js) h

popped_one :
    (streams : Streams) (k : ℕ) (ks rest : List ℕ)
    → pop_least streams ks ≡ some (k, rest)
    → (length ks ≡ suc (length rest))
      × ((j : ℕ) → occurrences j ks ≡ (if j == k then 1 else 0) + occurrences j rest)
      × ((j : ℕ) → 0 < occurrences j rest → less (streams j) (streams k) ≡ false)
popped_one streams k [] rest h = absurd (ground (arith, h))
popped_one streams k (x ∷ xs) rest h =
    subst
      (λ (r : ℕ × List ℕ).
        (suc (length xs) ≡ suc (length r.1))
        × ((j : ℕ) → occurrences j (x ∷ xs) ≡ (if j == r.0 then 1 else 0) + occurrences j r.1)
        × ((j : ℕ) → 0 < occurrences j r.1 → less (streams j) (streams r.0) ≡ false))
      (some-injective (take_least streams x xs) (k, rest) h)
      (
        ap suc (sym (take_least-length streams x xs)),
        λ j. unfold occurrences in take_least-occurrences streams j x xs,
        λ j. take_least-least streams j x xs,
      )

searched-emptied : (streams : Streams) (ks : List ℕ) → pop_least streams ks ≡ none → ks ≡ []
searched-emptied streams [] h = refl
searched-emptied streams (x ∷ xs) h = absurd (ground (arith, h))

searched-IsHeap : IsHeap searched
searched-IsHeap = record {
  pushed = λ streams j k ks. unfold occurrences in refl;
  popped = λ streams j k ks rest h. (popped_one streams k ks rest h).1 j;
}

searched-PopsOne : PopsOne searched
searched-PopsOne = record {
  shorter = λ streams k ks rest h. (popped_one streams k ks rest h).0;
  emptied = searched-emptied;
}

-- Every list is in order for a search.
searched_order : Ordering searched
searched_order = record {
  InOrder = λ streams ks. Unit {0};
  emptied = λ streams. tt;
  pushed = λ streams k ks h. tt;
  popped = λ streams k ks rest h p. (tt, (popped_one streams k ks rest p).2);
  local = λ streams streams' ks same h. tt;
}

-- Two streams wait, the second of which has the lower number of priority.
abbrev two_waiting : Mgr
two_waiting = record waiting {
  pq = 0 ∷ 1 ∷ [];
  streams = λ k.
      if k == 1
      then record stream { spec = record (stream.spec) { priority = pos 1 } }
      else record stream { spec = record (stream.spec) { priority = pos 2 } };
}

each_once : (k : ℕ) → occurrences k (0 ∷ 1 ∷ []) ≤ 1
unfolding occurrences
each_once k = ground arith

fill_ready-Serves_example :
    Serves searched searched-IsHeap searched_order two_waiting (fill_ready searched 2 two_waiting)
unfolding searched_order
fill_ready-Serves_example =
    fill_ready-Serves searched searched-IsHeap searched_order 2 two_waiting searched-PopsOne refl
      (omega arith) tt each_once
