-- ===== src/Ring/Overlap.antt =====
-- The places of the messages in a ring.
use ibv.Prelude.{
  ℕ, zero, suc, ◌+◌, ◌≤◌, ◌<◌, ◌≡◌, ◌⊎◌, inl, inr, List, [], ◌∷◌, ◌++◌, arith, sum, All, All-imp,
}
use ibv.Ring.{Piece, Apart, place, advance, advance_all, pieces, HasRoom, Layout, flat, split}

abbrev pub Within : ℕ → ℕ → Piece → Type 0
Within a b p = (a ≤ p.start) × (p.start + p.size ≤ b)

module _ (left right : ℕ) where
  pub pieces-Within :
      (a b pos : ℕ) (lens : List ℕ)
      → a ≤ pos
      → pos + sum lens ≤ b
      → b ≤ right
      → All (Within a b) (pieces left right pos lens)
  pieces-Within a b pos [] low up top = tt
  pieces-Within a b pos (n ∷ ns) low up top =
      (ground arith, ground (arith, pieces-Within a b (pos + n) ns))

  -- in the stretch above `done`, or in the one below `index`
  abbrev pub Either : ℕ → ℕ → Piece → Type 0
  Either done index p = Within done right p ⊎ Within left index p

  pub split-Either :
      (done index pos : ℕ) (hi lo : List ℕ) (n : ℕ)
      → done ≤ pos
      → pos + sum hi ≤ right
      → right < pos + sum hi + n
      → left + n + sum lo ≡ index
      → index ≤ right
      → All (Either done index) (pieces left right pos (hi ++ n ∷ lo))
  split-Either done index pos [] lo n low up over at top = (
    ground arith,
    ground (
      arith,
      All-imp (Within (left + n) index) (Either done index) (λ p h. inr (omega arith))
          (pieces left right (left + n) lo)
          (pieces-Within (left + n) index (left + n) lo (omega arith) (omega arith) top),
    ),
  )
  split-Either done index pos (h ∷ hi) lo n low up over at top =
      (ground arith, ground (arith, split-Either done index (pos + h) hi lo n))

  -- A new message overlaps no live one.
  pub pieces-Apart :
      {done index : ℕ} {lens : List ℕ} (n : ℕ)
      → Layout left right done index lens
      → HasRoom left right done index n
      → All
          (Apart (record { start = place left right index n; size = n }))
          (pieces left right done lens)
  pieces-Apart {done} {index} {lens} n (flat low e top) room =
      All-imp (Within done index) (Apart (record { start = place left right index n; size = n }))
        (λ p h. ground arith) (pieces left right done lens)
        (pieces-Within done index done lens (omega arith) (omega arith) top)
  pieces-Apart n (split hi lo k e low up over at less) (inl (_, _, le)) = absurd (omega arith)
  pieces-Apart {done} {index} n (split hi lo k e low up over at less) (inr (fits, room)) = rw e (
      All-imp (Either done index) (Apart (record { start = place left right index n; size = n }))
        (λ p h. ground arith) (pieces left right done (hi ++ k ∷ lo))
        (split-Either done index done hi lo k (omega arith) up over at (omega arith)))

  -- It lies inside the ring, and so does the ring's new end.
  pub place-bounds :
      {done index : ℕ} {lens : List ℕ} (n : ℕ)
      → Layout left right done index lens
      → HasRoom left right done index n
      → (left ≤ place left right index n)
        × (place left right index n + n ≡ advance left right index n)
        × (advance left right index n ≤ right)
  place-bounds n (flat low e top) room = ground arith
  place-bounds n (split hi lo k e low up over at less) room = ground arith

  -- A piece that takes in the oldest live byte overlaps a live message.
  pub not-pieces-Apart :
      (p : Piece) (pos : ℕ) (lens : List ℕ)
      → p.start ≤ pos
      → pos < p.start + p.size
      → 0 < sum lens
      → pos + sum lens ≤ right
      → ¬ All (Apart p) (pieces left right pos lens)
  not-pieces-Apart p pos [] low high some_byte top h = absurd (omega arith)
  not-pieces-Apart p pos (zero ∷ ns) low high some_byte top h =
      ground (arith, not-pieces-Apart p pos ns)
  not-pieces-Apart p pos (suc n ∷ ns) low high some_byte top h = ground arith

  -- What holds of all pieces holds of those behind the first messages.
  pub pieces-suffix {κ} :
      (P : Piece → Type κ) (pos : ℕ) (ns ms : List ℕ)
      → All P (pieces left right pos (ns ++ ms))
      → All P (pieces left right (advance_all left right pos ns) ms)
  pieces-suffix P pos [] ms h = h
  pieces-suffix P pos (n ∷ ns) ms h = pieces-suffix P (advance left right pos n) ns ms h.1
