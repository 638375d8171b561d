-- ===== src/Worker/Ring.antt =====
-- No round of a worker's loop loses a chunk or makes one up (worker.go).
use incite.Base.{
  ℕ, ◌+◌, ◌≡◌, refl, Bool, true, false, Option, none, some, List, [], ◌∷◌, ◌++◌, arith, Text,
  text_eq, if◌then◌else◌, length, length-append, ◌==◌, ap, subst, Bool-cases, ◌⊎◌, inl, inr,
}
use incite.Clock.{Time}
use incite.Chunk.{Chunk}
use incite.Regulator.{Regulator, WaitResult}
use incite.Worker.{
  Outcome, nothing, finished, inconclusive, throttling_error, temporary_error, Worker, Input, push,
  Received, blocked, empty, receive_from, take_first, adapt, after_receive, Popped, waits, closing,
  popped, pop, settle, panics, after_pop, Round, waiting, returned, panicked, goes_on, stops,
  round_of,
}

-- A weight of chunks, by their streams and their IDs, and its total over a list. One that counts
-- counts the chunks with an ID.
abbrev pub Weight : Type 0
Weight = ℕ → Text → ℕ

unfoldable pub total : Weight → List Chunk → ℕ
total weight [] = 0
total weight (c ∷ cs) = weight c.stream c.chunk_id + total weight cs

abbrev pub named : Text → Weight
named t stream chunk_id = if text_eq chunk_id t then 1 else 0

abbrev pub total_out : Weight → Option Chunk → ℕ
total_out weight none = 0
total_out weight (some c) = total weight (c ∷ [])

pub total-append :
    (weight : Weight) (xs ys : List Chunk)
    → total weight (xs ++ ys) ≡ total weight xs + total weight ys
unfolding total
total-append weight [] ys = omega arith
total-append weight (x ∷ xs) ys = omega (arith, total-append weight xs ys)

abbrev pub IsCounted : Worker → Type 0
IsCounted w = w.num_chunks ≡ length w.chunks

-- The chunks that a worker has or will get.
abbrev pub held : Weight → Worker → Input → ℕ
held weight w i = total weight w.chunks + total weight i.queue

-- pop takes one chunk out of what is held.
abbrev Takes : Weight → ℕ → Popped → Type 0
Takes t n waits = Unit {0}
Takes t n closing = Unit {0}
Takes t n (popped c w i) = (held t w i + total t (c ∷ []) ≡ n) × IsCounted w

take_first-Takes :
    (t : Weight) (cs : List Chunk) (w : Worker) (i : Input)
    → w.num_chunks ≡ length cs
    → Takes t (total t cs + total t i.queue) (take_first cs w i)
unfolding total
take_first-Takes t [] w i h = tt
take_first-Takes t (c ∷ cs) w i h = (omega arith, omega arith)

push-Takes :
    (t : Weight) (c : Chunk) (w : Worker) (i : Input)
    → IsCounted w
    → Takes t
        (total t w.chunks + total t (c ∷ []) + total t i.queue)
        (take_first (w.chunks ++ c ∷ []) (push w c) i)
unfolding push
push-Takes t c w i h =
    subst (λ n. Takes t (n + total t i.queue) (take_first (w.chunks ++ c ∷ []) (push w c) i))
      (total-append t w.chunks (c ∷ []))
      (take_first-Takes t (w.chunks ++ c ∷ []) (push w c) i
        (omega (arith, length-append w.chunks (c ∷ []))))

received-Takes :
    (t : Weight) (q : List Chunk) (b : Bool) (w : Worker) (otherwise : Received)
    → (otherwise ≡ blocked) ⊎ (otherwise ≡ empty)
    → IsCounted w
    → Takes t
        (total t w.chunks + total t q)
        (after_receive (receive_from q b otherwise) w (record { queue = q; is_closed = b }))
unfolding after_receive total
received-Takes t [] true w otherwise e h = tt
received-Takes t [] false w otherwise (inl e) h = rw e tt
received-Takes t [] false w otherwise (inr e) h =
    rw e (take_first-Takes t w.chunks w (record { queue = []; is_closed = false }) h)
received-Takes t (c ∷ q) b w otherwise e h =
    let i : Input = record { queue = q; is_closed = b } in
    subst (λ n. Takes t n (take_first (w.chunks ++ fresh ∷ []) (push w fresh) i)) (omega arith)
      (push-Takes t fresh w i h)
  where
    fresh : Chunk
    fresh = record c { try = 0; tmp = 0 }

pop-Takes : (t : Weight) (w : Worker) (i : Input) → IsCounted w → Takes t (held t w i) (pop w i)
unfolding pop
pop-Takes t w i h = elim (Bool-cases (w.num_chunks == 0)) [
  | inl e ↦ rw e (received-Takes t i.queue i.is_closed w blocked (inl refl) h)
  | inr e ↦ rw e (received-Takes t i.queue i.is_closed w empty (inr refl) h)
]

settle-kept :
    (t : Weight) (w : Worker) (c : Chunk) (o : Outcome)
    → IsCounted w
    → (total t (settle w c o).0.chunks + total_out t (settle w c o).1
        ≡ total t w.chunks + total t (c ∷ []))
      × IsCounted (settle w c o).0
unfolding settle total
settle-kept t w c nothing h = ground (arith, total-append t w.chunks (c ∷ []))
settle-kept t w c finished h = ground (arith, total-append t w.chunks (c ∷ []))
settle-kept t w c inconclusive h =
    ground (arith, total-append t w.chunks (c ∷ []), length-append w.chunks (c ∷ []))
settle-kept t w c throttling_error h = ground (
  arith,
  total-append t w.chunks (record c { tmp = c.tmp + 1 } ∷ []),
  length-append w.chunks (record c { tmp = c.tmp + 1 } ∷ []),
)
settle-kept t w c temporary_error h = ground (
  arith,
  total-append t w.chunks (record c { tmp = c.tmp + 1 } ∷ []),
  length-append w.chunks (record c { tmp = c.tmp + 1 } ∷ []),
)

abbrev pub Keeps : Weight → ℕ → Round → Type 0
Keeps t n waiting = Unit {0}
Keeps t n returned = Unit {0}
Keeps t n panicked = Unit {0}
Keeps t n (goes_on w i out) = (held t w i + total_out t out ≡ n) × IsCounted w
Keeps t n (stops w i) = (held t w i ≡ n) × IsCounted w

-- A manipulator that leaves the weight of a chunk as it is.
abbrev pub Leaves : Weight → (Chunk → Chunk × Outcome) → Type 0
Leaves t manipulate =
    (c : Chunk) → t (manipulate c).0.stream (manipulate c).0.chunk_id ≡ t c.stream c.chunk_id

after_pop-Keeps :
    (wait_for : Chunk → Regulator → Regulator × WaitResult) (manipulate : Chunk → Chunk × Outcome)
    (now : Time) (t : Weight) (n : ℕ)
    → Leaves t manipulate
    → (p : Popped) → Takes t n p
    → Keeps t n (after_pop wait_for manipulate now p)
unfolding after_pop push total panics
after_pop-Keeps wait_for manipulate now t n named waits h = tt
after_pop-Keeps wait_for manipulate now t n named closing h = tt
after_pop-Keeps wait_for manipulate now t n named (popped c w i) h =
    let (c', o) = manipulate c in
    ground (
      arith,
      named c,
      total-append t w.chunks (c ∷ []),
      length-append w.chunks (c ∷ []),
      settle-kept t (record w { regulator = adapt now o (wait_for c w.regulator).0 }) c' o,
    )

pub round_of-weighed :
    (wait_for : Chunk → Regulator → Regulator × WaitResult) (manipulate : Chunk → Chunk × Outcome)
    (now : Time) (w : Worker) (i : Input) (t : Weight)
    → Leaves t manipulate
    → IsCounted w
    → Keeps t (held t w i) (round_of wait_for manipulate now w i)
unfolding round_of
round_of-weighed wait_for manipulate now w i t same h =
    after_pop-Keeps wait_for manipulate now t (held t w i) same (pop w i) (pop-Takes t w i h)

-- In a round of a worker's loop that does not panic each chunk stays in the ring or in the input channel, comes from
-- the channel into the ring, or is sent out, and none is lost or doubled, whatever the outcome of
-- its manipulation is; and the count of the ring stays right.
pub round_of-Keeps :
    (wait_for : Chunk → Regulator → Regulator × WaitResult) (manipulate : Chunk → Chunk × Outcome)
    (now : Time) (w : Worker) (i : Input) (t : Text)
    → ((c : Chunk) → (manipulate c).0.chunk_id ≡ c.chunk_id)
    → IsCounted w
    → Keeps (named t) (held (named t) w i) (round_of wait_for manipulate now w i)
round_of-Keeps wait_for manipulate now w i t same h =
    round_of-weighed wait_for manipulate now w i (named t)
      (λ c. ap (λ chunk_id. named t 0 chunk_id) (same c)) h
