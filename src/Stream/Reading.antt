-- ===== src/Stream/Reading.antt =====
-- What a call of read delivers: the rows that no call has delivered before, in their order, as
-- many as fit (stream.go, read).
use incite.Base.{
  ℕ, zero, suc, ◌+◌, ◌-◌, ◌≤◌, ◌≡◌, refl, ap, Bool-cases, inl, inr, none, List, [], ◌∷◌, ◌++◌,
  arith, ltb, if◌then◌else◌, take, drop, concat, length, length-append, take-append, drop-append,
  drop-append_le, take-append_le, drop-add, drop_all,
}
use incite.Stream.{Row, Stream, read_block, read_blocks, read}

-- The rows of the blocks from index j of the first one.
abbrev pub rest_rows : ℕ → List (List Row) → List Row
rest_rows j [] = []
rest_rows j (b ∷ bs) = drop j b ++ concat bs

-- The rows of a stream that are still to be read.
unfoldable pub pending : Stream → List Row
pending s = rest_rows s.j (drop s.i s.blocks)

pub rest_rows-zero : (bs : List (List Row)) → rest_rows 0 bs ≡ concat bs
rest_rows-zero [] = refl
rest_rows-zero (b ∷ bs) = refl

read_block-out : (room j : ℕ) (xs : List Row) → (read_block room j xs).out ≡ take room xs
unfolding read_block
read_block-out zero j [] = refl
read_block-out (suc room) j [] = refl
read_block-out zero j (x ∷ xs) = refl
read_block-out (suc room) j (x ∷ xs) = ap (◌∷◌ x) (read_block-out room (j + 1) xs)

read_block-room : (room j : ℕ) (xs : List Row) → (read_block room j xs).room ≡ room - length xs
unfolding read_block
read_block-room zero j [] = omega arith
read_block-room (suc room) j [] = omega arith
read_block-room zero j (x ∷ xs) = omega arith
read_block-room (suc room) j (x ∷ xs) = omega (arith, read_block-room room (j + 1) xs)

pub read_block-full :
    (room j : ℕ) (xs : List Row) → (read_block room j xs).full ≡ ltb room (length xs)
unfolding read_block
read_block-full zero j [] = refl
read_block-full (suc room) j [] = ground arith
read_block-full zero j (x ∷ xs) = ground arith
read_block-full (suc room) j (x ∷ xs) = ground (arith, read_block-full room (j + 1) xs)

read_block-j : (room j : ℕ) (xs : List Row) → room ≤ length xs → (read_block room j xs).j ≡ j + room
unfolding read_block
read_block-j zero j [] h = omega arith
read_block-j (suc room) j [] h = absurd (omega arith)
read_block-j zero j (x ∷ xs) h = omega arith
read_block-j (suc room) j (x ∷ xs) h = omega (arith, read_block-j room (j + 1) xs)

-- read_blocks delivers a prefix of the rows that fits, and says whether rows are left over.
read_blocks-out :
    (room i j : ℕ) (bs : List (List Row))
    → (read_blocks room i j bs).out ≡ take room (rest_rows j bs)
unfolding read_blocks
read_blocks-out zero i j [] = refl
read_blocks-out (suc room) i j [] = refl
read_blocks-out room i j (b ∷ bs) =
    let xs = drop j b in
    let c = read_block room j xs in
    let ih = read_blocks-out c.room (i + 1) 0 bs in
    elim (Bool-cases (ltb room (length xs))) [
      | inl more ↦ ground (
        arith,
        read_block-full room j xs,
        read_block-out room j xs,
        take-append_le room xs (concat bs),
      )
      | inr less ↦ ground (
        arith,
        read_block-full room j xs,
        read_block-out room j xs,
        read_block-room room j xs,
        ih,
        rest_rows-zero bs,
        take-append room xs (concat bs),
      )
    ]

read_blocks-full :
    (room i j : ℕ) (bs : List (List Row))
    → (read_blocks room i j bs).full ≡ ltb room (length (rest_rows j bs))
unfolding read_blocks
read_blocks-full room i j [] = ground arith
read_blocks-full room i j (b ∷ bs) =
    let xs = drop j b in
    let c = read_block room j xs in
    let ih = read_blocks-full c.room (i + 1) 0 bs in
    ground (
      arith,
      read_block-full room j xs,
      read_block-room room j xs,
      ih,
      rest_rows-zero bs,
      length-append xs (concat bs),
    )

-- The indices that read_blocks stops at.
read_blocks-rest :
    (room i j : ℕ) (bs : List (List Row))
    → (k : ℕ) × ((read_blocks room i j bs).i ≡ i + k)
      × (rest_rows (read_blocks room i j bs).j (drop k bs) ≡ drop room (rest_rows j bs))
unfolding read_blocks
read_blocks-rest zero i j [] = (0, omega arith, refl)
read_blocks-rest (suc room) i j [] = (0, omega arith, refl)
read_blocks-rest room i j (b ∷ bs) =
    let xs = drop j b in
    let c = read_block room j xs in
    let (k, at, rest) = read_blocks-rest c.room (i + 1) 0 bs in
    elim (Bool-cases (ltb room (length xs))) [
      | inl more ↦ (
        0,
        ground (arith, read_block-full room j xs),
        ground (
          arith,
          read_block-full room j xs,
          read_block-j room j xs,
          drop-append_le room xs (concat bs),
          drop-add j room b,
        ),
      )
      | inr less ↦ (
        suc k,
        ground (arith, read_block-full room j xs, at),
        ground (
          arith,
          read_block-full room j xs,
          read_block-room room j xs,
          rest,
          rest_rows-zero bs,
          drop-append room xs (concat bs),
          drop_all room xs,
        ),
      )
    ]

-- A call of read with a buffer of any size delivers as many of the pending rows as fit, in their
-- order, and leaves the others pending; it reports the error of the stream exactly when no row
-- is left over, and leaves the blocks and the error of the stream as they were.
pub read_lem :
    (s : Stream) (room : ℕ)
    → ((read s room).1.rows ≡ take room (pending s))
      × (pending (read s room).0 ≡ drop room (pending s))
      × ((read s room).1.err ≡ (if ltb room (length (pending s)) then none else s.err))
      × ((read s room).0.blocks ≡ s.blocks)
      × ((read s room).0.err ≡ s.err)
unfolding read pending
read_lem s room =
    let bs = drop s.i s.blocks in
    let (k, at, rest) = read_blocks-rest room s.i s.j bs in
    (
      read_blocks-out room s.i s.j bs,
      rw (at, drop-add s.i k s.blocks) rest,
      rw (read_blocks-full room s.i s.j bs) refl,
      refl,
      refl,
    )
