-- ===== src/System/Served.antt =====
-- The chunks that are with a worker: in its channel, in its ring, or on their way back (worker.go,
-- mgr.go).
use incite.Base.{
  ℕ, ◌+◌, ◌<◌, ◌≡◌, refl, ap, ◌∙◌, inl, inr, true, false, Bool-cases, ==_iff, Option, none, some,
  List, [], ◌∷◌, ◌++◌, arith, ◌==◌, if◌then◌else◌, length, drop,
}
use incite.Errors.{Error}
use incite.Chunk.{Chunk, ChunkState}
use incite.Worker.{Worker, Input}
use incite.Worker.Ring.{Weight, total, total-append, held, IsCounted, total_out}
use incite.Worker.States.{Test, AllIn, AllIn-append, OutIn}
use incite.System.{remove, sent, send_out}

-- The weight that a number for each stream gives.
abbrev pub by : (ℕ → ℕ) → Weight
by f stream chunk_id = f stream

abbrev is : ℕ → ℕ → ℕ
is k j = if k == j then 1 else 0

-- The chunks that pass a test.
unfoldable pub select : Test → List Chunk → List Chunk
select p [] = []
select p (c ∷ cs) = let rest = select p cs in if p c.state c.err then c ∷ rest else rest

total-remove :
    (k : ℕ) (cs : List Chunk)
    → 0 < total (by (is k)) cs
    → (before : List Chunk) × (found : Chunk) × (after : List Chunk) × (cs
        ≡ before ++ found ∷ after)
      × (remove k cs ≡ before ++ after)
      × (k ≡ found.stream)
unfolding total remove
total-remove k [] h = absurd (omega (arith, h))
total-remove k (c ∷ cs) h = elim (Bool-cases (k == c.stream)) [
  | inl e ↦ ([], c, cs, refl, rw e refl, (==_iff k c.stream).0 e)
  | inr e ↦
      let (before, found, after, p, q, r) = total-remove k cs (ground (arith, e, h)) in
      (c ∷ before, found, after, ap (◌∷◌ c) p, ground (arith, e, q), r)
]

total-found :
    (f : ℕ → ℕ) (before after : List Chunk) (found : Chunk)
    → total (by f) (before ++ found ∷ after) ≡ f found.stream + total (by f) (before ++ after)
unfolding total
total-found f before after found =
    omega (arith, total-append (by f) before (found ∷ after), total-append (by f) before after)

select-append : (p : Test) (xs ys : List Chunk) → select p (xs ++ ys) ≡ select p xs ++ select p ys
unfolding select
select-append p [] ys = refl
select-append p (x ∷ xs) ys = ground (arith, select-append p xs ys)

-- The chunks that a worker has or will get pass a test, those that it sends out pass another one
-- that none of another worker's passes, and with those that are on their way back they are as many
-- of each stream as are said to be with it.
pub record IsServed (p mine : Test) (ghost : List Chunk) (w : Worker) (i : Input)
    (update : List Chunk) : Type 0 where
  pub balanced :
      (f : ℕ → ℕ) → total (by f) ghost ≡ held (by f) w i + total (by f) (select mine update)
  pub ring : AllIn p w.chunks
  pub queue : AllIn p i.queue
  pub counted : IsCounted w

-- A list before and after some chunks that pass a test were added.
abbrev pub Extends : Test → List Chunk → List Chunk → Type 0
Extends p xs ys = (new : List Chunk) × (ys ≡ xs ++ new) × AllIn p new

drop-length : (xs ys : List Chunk) → drop (length xs) (xs ++ ys) ≡ ys
drop-length [] ys = refl
drop-length (x ∷ xs) ys = drop-length xs ys

module _ (p mine : Test) (w : Worker) where
  -- The manager sends chunks to the worker.
  pub sent-IsServed :
      (i : Input) (update before after : List Chunk)
      → IsServed p mine before w i update
      → Extends p before after
      → IsServed p mine after w (sent before after i) update
  sent-IsServed i update before after h (new, e, good) =
      let same : drop (length before) after ≡ new =
        ap (drop (length before)) e ∙ drop-length before new in
      rw (same, e)
        (record {
          balanced = λ f. omega (
            arith,
            h.balanced f,
            total-append (by f) before new,
            total-append (by f) i.queue new,
          );
          ring = h.ring;
          queue = AllIn-append p i.queue new h.queue good;
          counted = h.counted;
        })

  -- The manager receives a chunk of the worker's, or another one.
  pub received-found :
      (ghost : List Chunk) (i : Input) (c : Chunk) (update : List Chunk)
      → IsServed p mine ghost w i (c ∷ update)
      → mine c.state c.err ≡ true
      → (before : List Chunk) × (found : Chunk) × (after : List Chunk) × (ghost
          ≡ before ++ found ∷ after)
        × (remove c.stream ghost ≡ before ++ after)
        × (c.stream ≡ found.stream)
  unfolding select total
  received-found ghost i c update h m =
      let one : is c.stream c.stream ≡ 1 = ground (arith, ==_iff c.stream c.stream) in
      total-remove c.stream ghost (ground (arith, m, one, h.balanced (is c.stream)))

  pub received-IsServed :
      (ghost : List Chunk) (i : Input) (c : Chunk) (update : List Chunk)
      → IsServed p mine ghost w i (c ∷ update)
      → mine c.state c.err ≡ true
      → IsServed p mine (remove c.stream ghost) w i update
  unfolding select total
  received-IsServed ghost i c update h m =
      let (before, found, after, e, r, same) = received-found ghost i c update h m in
      record {
        balanced = λ f. ground (
          arith,
          m,
          h.balanced f,
          ap (total (by f)) e,
          ap (total (by f)) r,
          ap f same,
          total-found f before after found,
        );
        ring = h.ring;
        queue = h.queue;
        counted = h.counted;
      }

  pub skipped-IsServed :
      (ghost : List Chunk) (i : Input) (c : Chunk) (update : List Chunk)
      → IsServed p mine ghost w i (c ∷ update)
      → mine c.state c.err ≡ false
      → IsServed p mine ghost w i update
  unfolding select
  skipped-IsServed ghost i c update h m = record {
    balanced = λ f. ground (arith, m, h.balanced f);
    ring = h.ring;
    queue = h.queue;
    counted = h.counted;
  }

  -- The worker sends a chunk out, or another worker does.
  pub worked-IsServed :
      (ghost : List Chunk) (i i' : Input) (w' : Worker) (out : Option Chunk) (update : List Chunk)
      → IsServed p mine ghost w i update
      → ((f : ℕ → ℕ) → held (by f) w' i' + total_out (by f) out ≡ held (by f) w i)
      → IsCounted w'
      → AllIn p w'.chunks
      → AllIn p i'.queue
      → OutIn mine out
      → IsServed p mine ghost w' i' (send_out out update)
  unfolding select total
  worked-IsServed ghost i i' w' none update h kept counted ring queue good = record {
    balanced = λ f. omega (arith, h.balanced f, kept f);
    ring = ring;
    queue = queue;
    counted = counted;
  }
  worked-IsServed ghost i i' w' (some c) update h kept counted ring queue good = record {
    balanced = λ f. ground (
      arith,
      good,
      h.balanced f,
      kept f,
      ap (total (by f)) (select-append mine update (c ∷ [])),
      total-append (by f) (select mine update) (c ∷ []),
    );
    ring = ring;
    queue = queue;
    counted = counted;
  }

  pub other_worked-IsServed :
      (theirs : Test) (ghost : List Chunk) (i : Input) (out : Option Chunk) (update : List Chunk)
      → ((s : ChunkState) (e : Option Error) → theirs s e ≡ true → mine s e ≡ false)
      → IsServed p mine ghost w i update
      → OutIn theirs out
      → IsServed p mine ghost w i (send_out out update)
  unfolding select total
  other_worked-IsServed theirs ghost i none update apart h good = h
  other_worked-IsServed theirs ghost i (some c) update apart h good =
      let away : select mine (c ∷ []) ≡ [] = ground (arith, apart c.state c.err good) in
      record {
        balanced = λ f. ground (
          arith,
          h.balanced f,
          ap (total (by f)) (select-append mine update (c ∷ [])),
          total-append (by f) (select mine update) (select mine (c ∷ [])),
          ap (total (by f)) away,
        );
        ring = h.ring;
        queue = h.queue;
        counted = h.counted;
      }
