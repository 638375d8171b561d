-- ===== src/Worker/States.antt =====
-- The states and errors of the chunks that a worker holds, and of those that it sends out
-- (worker.go).
use incite.Base.{
  ◌+◌, ◌≡◌, refl, Bool, true, false, Option, none, some, List, [], ◌∷◌, ◌++◌, arith, ◌==◌,
  Bool-cases, ◌⊎◌, inl, inr, ltb,
}
use incite.Clock.{Time}
use incite.Errors.{Error}
use incite.Chunk.{Chunk, ChunkState}
use incite.Regulator.{Regulator, WaitResult}
use incite.Worker.{
  Outcome, nothing, finished, inconclusive, Worker, Input, push, Received, blocked, empty,
  receive_from, take_first, adapt, after_receive, Popped, waits, closing, popped, pop, settle,
  panics, after_pop, Round, waiting, returned, panicked, goes_on, stops, round_of,
}

-- A test of the state and the error of a chunk.
abbrev pub Test : Type 0
Test = ChunkState → Option Error → Bool

-- All chunks of a list pass a test.
abbrev pub AllIn : Test → List Chunk → Type 0
AllIn p [] = Unit {0}
AllIn p (c ∷ cs) = (p c.state c.err ≡ true) × AllIn p cs

abbrev pub OutIn : Test → Option Chunk → Type 0
OutIn q none = Unit {0}
OutIn q (some c) = q c.state c.err ≡ true

pub AllIn-append : (p : Test) (xs ys : List Chunk) → AllIn p xs → AllIn p ys → AllIn p (xs ++ ys)
AllIn-append p [] ys h k = k
AllIn-append p (x ∷ xs) ys h k = (h.0, AllIn-append p xs ys h.1 k)

-- What the loop sends out at once passes the second test, and what it may keep the first.
abbrev pub is_done : Outcome → Bool
is_done nothing = true
is_done finished = true
is_done o = false

abbrev pub Manipulates : (p q : Test) → (Chunk → Chunk × Outcome) → Type 0
Manipulates p q manipulate =
    (c : Chunk)
    → p c.state c.err ≡ true
    → (q (manipulate c).0.state (manipulate c).0.err ≡ true)
      × ((is_done (manipulate c).1 ≡ true) ⊎ (p (manipulate c).0.state (manipulate c).0.err ≡ true))

module _ (p q : Test) where
  Popping : Popped → Type 0
  Popping waits = Unit {0}
  Popping closing = Unit {0}
  Popping (popped c w i) = (p c.state c.err ≡ true) × AllIn p w.chunks × AllIn p i.queue

  take_first-Popping :
      (cs : List Chunk) (w : Worker) (i : Input)
      → AllIn p cs
      → AllIn p i.queue
      → Popping (take_first cs w i)
  unfolding Popping
  take_first-Popping [] w i h k = tt
  take_first-Popping (c ∷ cs) w i h k = (h.0, h.1, k)

  received-Popping :
      (queue : List Chunk) (shut : Bool) (w : Worker) (otherwise : Received)
      → (otherwise ≡ blocked) ⊎ (otherwise ≡ empty)
      → AllIn p w.chunks
      → AllIn p queue
      → Popping (
          after_receive
            (receive_from queue shut otherwise)
            w
            (record { queue = queue; is_closed = shut }))
  unfolding after_receive Popping push
  received-Popping [] true w otherwise e h k = tt
  received-Popping [] false w otherwise (inl e) h k = rw e tt
  received-Popping [] false w otherwise (inr e) h k =
      rw e (take_first-Popping w.chunks w (record { queue = []; is_closed = false }) h k)
  received-Popping (c ∷ cs) shut w otherwise e h k =
      let fresh = record c { try = 0; tmp = 0 } in
      take_first-Popping (w.chunks ++ fresh ∷ []) (push w fresh)
        (record { queue = cs; is_closed = shut }) (AllIn-append p w.chunks (fresh ∷ []) h (k.0, tt))
        k.1

  pop-Popping : (w : Worker) (i : Input) → AllIn p w.chunks → AllIn p i.queue → Popping (pop w i)
  unfolding pop
  pop-Popping w i h k = elim (Bool-cases (w.num_chunks == 0)) [
    | inl e ↦ rw e (received-Popping i.queue i.is_closed w blocked (inl refl) h k)
    | inr e ↦ rw e (received-Popping i.queue i.is_closed w empty (inr refl) h k)
  ]

  Settles : Worker × Option Chunk → Type 0
  Settles (w, out) = AllIn p w.chunks × OutIn q out

  settle-Settles :
      (w : Worker) (c : Chunk) (o : Outcome)
      → AllIn p w.chunks
      → q c.state c.err ≡ true
      → (is_done o ≡ true) ⊎ (p c.state c.err ≡ true)
      → Settles (settle w c o)
  unfolding settle Settles push
  settle-Settles w c nothing h k e = (h, k)
  settle-Settles w c finished h k e = (h, k)
  settle-Settles w c o h k (inl e) = cc
  settle-Settles w c inconclusive h k (inr e) = (AllIn-append p w.chunks (c ∷ []) h (e, tt), tt)
  settle-Settles w c o h k (inr e) =
      let c' = record c { tmp = c.tmp + 1 } in
      elim (Bool-cases (ltb c'.tmp w.max_temporary_error)) [
        | inl less ↦ rw less (AllIn-append p w.chunks (c' ∷ []) h (e, tt), tt)
        | inr more ↦ rw more (h, k)
      ]

  -- What a round of the loop leaves.
  abbrev pub RoundIn : Round → Type 0
  RoundIn waiting = Unit {0}
  RoundIn returned = Unit {0}
  RoundIn panicked = Unit {0}
  RoundIn (goes_on w i out) = AllIn p w.chunks × AllIn p i.queue × OutIn q out
  RoundIn (stops w i) = AllIn p w.chunks × AllIn p i.queue

  after_pop-RoundIn :
      (wait_for : Chunk → Regulator → Regulator × WaitResult) (manipulate : Chunk → Chunk × Outcome)
      (now : Time)
      → Manipulates p q manipulate
      → (popped : Popped) → Popping popped
      → RoundIn (after_pop wait_for manipulate now popped)
  unfolding after_pop Popping push Settles panics
  after_pop-RoundIn wait_for manipulate now good waits h = tt
  after_pop-RoundIn wait_for manipulate now good closing h = tt
  after_pop-RoundIn wait_for manipulate now good (popped c w i) h =
      let (c', o) = manipulate c in
      let r : Regulator = (wait_for c w.regulator).0 in
      let next : Worker = record w { regulator = adapt now o r } in
      let good_c = good c h.0 in
      ground (
        arith,
        h,
        AllIn-append p w.chunks (c ∷ []) h.1 (h.0, tt),
        settle-Settles next c' o h.1 good_c.0 good_c.1,
      )

  -- The loop holds chunks that pass the first test, and sends out ones that pass the second.
  pub round_of-RoundIn :
      (wait_for : Chunk → Regulator → Regulator × WaitResult) (manipulate : Chunk → Chunk × Outcome)
      (now : Time) (w : Worker) (i : Input)
      → Manipulates p q manipulate
      → AllIn p w.chunks
      → AllIn p i.queue
      → RoundIn (round_of wait_for manipulate now w i)
  unfolding round_of
  round_of-RoundIn wait_for manipulate now w i good h k =
      after_pop-RoundIn wait_for manipulate now good (pop w i) (pop-Popping w i h k)
