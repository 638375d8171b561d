-- ===== src/Stream/Queue.antt =====
-- A stream as a queue of rows (stream.go: read, setErr, Close, and sendChunkBlock in poller.go).
use incite.Base.{
  ℕ, zero, suc, ◌+◌, ◌≤◌, ◌≡◌, refl, sym, ap, ◌∙◌, Bool, true, false, Bool-cases, inl, inr, Option,
  none, some, List, [], ◌∷◌, ◌++◌, arith, ltb, if◌then◌else◌, take, drop, concat, length,
  length-append, length-drop, drop-append_le, concat-append, append-nil, append_assoc, drop-add,
}
use incite.Stats.{Stats}
use incite.Errors.{Error, closed}
use incite.Stream.{
  Row, Stream, ReadResult, is_closed, set_err, close, read, read_block, read_blocks,
}
use incite.Stream.Reading.{rest_rows, pending, read_lem, read_block-full}
use incite.Poller.{append_block}

-- What is seen of a stream from outside: the rows that wait, and the error after them.
pub record Queue : Type 0 where
  pub waiting : List Row
  pub err : Option Error

-- The calls that the poller, the manager and the reader make.
pub data Call : Type 0 where
  appends : List Row → Call
  reads : ℕ → Call
  fails : Option Error → Stats → Call
  closes : Call

pub data Answer : Type 0 where
  nothing : Answer
  delivered : ReadResult → Answer
  was_set : Bool → Answer
  was_closed : Option Error → Answer

abbrev pub call_stream : Call → Stream → Stream × Answer
call_stream (appends rows) s = (append_block rows s, nothing)
call_stream (reads room) s = let (s', r) = read s room in (s', delivered r)
call_stream (fails e stats) s = let (s', done) = set_err s e stats in (s', was_set done)
call_stream closes s = let (s', e) = close s in (s', was_closed e)

-- The same calls of the queue. A reader gets the rows that wait, in order, and the error with the
-- last of them. A closed queue stays closed, and has dropped its rows.
abbrev pub call_queue : Call → Queue → Queue × Answer
call_queue (appends rows) q = (record q { waiting = q.waiting ++ rows }, nothing)
call_queue (reads room) q = (
  record q { waiting = drop room q.waiting },
  delivered (record {
    rows = take room q.waiting;
    err = if ltb room (length q.waiting) then none else q.err;
  }),
)
call_queue (fails e stats) q =
    if is_closed q.err then (q, was_set false) else (record q { err = e }, was_set true)
call_queue closes q =
    if is_closed q.err
    then (q, was_closed (some closed))
    else (record { waiting = []; err = some closed }, was_closed none)

abbrev pub answers {ℓ} : {S : Type ℓ} → (Call → S → S × Answer) → List Call → S → List Answer
answers step [] s = []
answers step (c ∷ cs) s = let (s', a) = step c s in a ∷ answers step cs s'

-- The indices of a stream are at a block, or after the last one and at no row.
abbrev AtRow : ℕ → List (List Row) → Type 0
AtRow j [] = j ≡ 0
AtRow j (b ∷ bs) = Unit {0}

pub record Represents (s : Stream) (q : Queue) : Type 0 where
  pub within : s.i ≤ length s.blocks
  pub placed : AtRow s.j (drop s.i s.blocks)
  pub rows : pending s ≡ q.waiting
  pub same : s.err ≡ q.err

rest_rows-append :
    (j : ℕ) (bs : List (List Row)) (b : List Row)
    → AtRow j bs
    → rest_rows j (bs ++ b ∷ []) ≡ rest_rows j bs ++ b
rest_rows-append j [] b h = rw h (append-nil b)
rest_rows-append j (x ∷ xs) b h =
    ap (λ rows. drop j x ++ rows)
      (concat-append xs (b ∷ []) ∙ ap (λ rows. concat xs ++ rows) (append-nil b))
    ∙ sym (append_assoc (drop j x) (concat xs) b)

AtRow-zero : (bs : List (List Row)) → AtRow 0 bs
AtRow-zero [] = refl
AtRow-zero (b ∷ bs) = tt

-- Where read_blocks stops.
read_blocks-AtRow :
    (room i j : ℕ) (bs : List (List Row))
    → AtRow j bs
    → (k : ℕ) × (k ≤ length bs)
      × ((read_blocks room i j bs).i ≡ i + k)
      × AtRow (read_blocks room i j bs).j (drop k bs)
unfolding read_blocks
read_blocks-AtRow zero i j [] h = (0, omega arith, omega arith, h)
read_blocks-AtRow (suc room) i j [] h = (0, omega arith, omega arith, h)
read_blocks-AtRow room i j (b ∷ bs) h =
    let xs = drop j b in
    let c = read_block room j xs in
    elim (Bool-cases (ltb room (length xs))) [
      | inl more ↦ (0, omega arith, ground (arith, read_block-full room j xs), tt)
      | inr less ↦
          let (k, fits, at, row) = read_blocks-AtRow c.room (i + 1) 0 bs (AtRow-zero bs) in
          (
            suc k,
            omega (arith, fits),
            ground (arith, read_block-full room j xs, at),
            rw (read_block-full room j xs, less) row,
          )
    ]

AtRow-append : (j : ℕ) (bs : List (List Row)) (b : List Row) → AtRow j (bs ++ b ∷ [])
AtRow-append j [] b = tt
AtRow-append j (x ∷ xs) b = tt

append_block-Represents :
    (rows : List Row) (s : Stream) (q : Queue)
    → Represents s q
    → Represents (append_block rows s) (record q { waiting = q.waiting ++ rows })
unfolding pending
append_block-Represents [] s q h = record {
  within = h.within;
  placed = h.placed;
  rows = h.rows ∙ sym (append-nil q.waiting);
  same = h.same;
}
append_block-Represents (r ∷ rs) s q h =
    let one_more = drop-append_le s.i s.blocks ((r ∷ rs) ∷ []) h.within in
    record {
      within = omega (arith, length-append s.blocks ((r ∷ rs) ∷ []), h.within);
      placed = rw one_more (AtRow-append s.j (drop s.i s.blocks) (r ∷ rs));
      rows = rw one_more (
          rest_rows-append s.j (drop s.i s.blocks) (r ∷ rs) h.placed
          ∙ ap (λ rows. rows ++ r ∷ rs) h.rows);
      same = h.same;
    }

read-Represents :
    (room : ℕ) (s : Stream) (q : Queue)
    → Represents s q
    → Represents (read s room).0 (record q { waiting = drop room q.waiting })
unfolding read
read-Represents room s q h =
    let bs = drop s.i s.blocks in
    let (k, fits, at, row) = read_blocks-AtRow room s.i s.j bs h.placed in
    let (_, left, _, _, _) = read_lem s room in
    record {
      within = omega (arith, at, fits, length-drop s.i s.blocks, h.within);
      placed = rw (at, drop-add s.i k s.blocks) row;
      rows = left ∙ ap (drop room) h.rows;
      same = h.same;
    }

delivered_by :
    (r : ReadResult) (rows : List Row) (err : Option Error)
    → r.rows ≡ rows
    → r.err ≡ err
    → delivered r ≡ delivered (record { rows = rows; err = err })
delivered_by r rows err e f =
    ap (λ x. delivered (record { rows = x; err = r.err })) e
    ∙ ap (λ y. delivered (record { rows = rows; err = y })) f

set_err-Represents :
    (e : Option Error) (stats : Stats) (s : Stream) (q : Queue)
    → Represents s q
    → Represents (call_stream (fails e stats) s).0 (call_queue (fails e stats) q).0
      × ((call_stream (fails e stats) s).1 ≡ (call_queue (fails e stats) q).1)
unfolding set_err pending
set_err-Represents e stats s q h = elim (Bool-cases (is_closed q.err)) [
  | inl k ↦ rw (ap is_closed h.same ∙ k, k) (h, refl)
  | inr k ↦
      rw (ap is_closed h.same ∙ k, k)
        (record { within = h.within; placed = h.placed; rows = h.rows; same = refl }, refl)
]

close-Represents :
    (s : Stream) (q : Queue)
    → Represents s q
    → Represents (call_stream closes s).0 (call_queue closes q).0
      × ((call_stream closes s).1 ≡ (call_queue closes q).1)
unfolding close set_err pending
close-Represents s q h = elim (Bool-cases (is_closed q.err)) [
  | inl k ↦ rw (ap is_closed h.same ∙ k, k) (h, refl)
  | inr k ↦
      rw (ap is_closed h.same ∙ k, k)
        (record { within = omega arith; placed = refl; rows = refl; same = refl }, refl)
]

-- Each call of the stream gives the answer that the queue gives, and leaves what the queue is then.
call-Represents :
    (c : Call) (s : Stream) (q : Queue)
    → Represents s q
    → Represents (call_stream c s).0 (call_queue c q).0 × ((call_stream c s).1 ≡ (call_queue c q).1)
call-Represents (appends rows) s q h = (append_block-Represents rows s q h, refl)
call-Represents (reads room) s q h = (
  read-Represents room s q h,
  let (rows, _, err, _, _) = read_lem s room in
      delivered_by _ _ _ (rows ∙ ap (take room) h.rows) (err ∙ (rw (h.rows, h.same) refl)),
)
call-Represents (fails e stats) s q h = set_err-Represents e stats s q h
call-Represents closes s q h = close-Represents s q h

-- Whatever is called on a stream, and in whatever order (blocks appended, rows read, an error set,
-- the stream closed), its answers are those of the queue of its pending rows with its error, if the
-- stream represents that queue, its indices being at a block or after the last one.
pub answers_refine :
    (cs : List Call) (s : Stream) (q : Queue)
    → Represents s q
    → answers call_stream cs s ≡ answers call_queue cs q
answers_refine [] s q h = refl
answers_refine (c ∷ cs) s q h =
    let (after, same) = call-Represents c s q h in
    rw (same, answers_refine cs (call_stream c s).0 (call_queue c q).0 after) refl
