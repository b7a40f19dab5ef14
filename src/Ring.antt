-- ===== src/Ring.antt =====
-- The abstract ring that the three buffers of src/types/mr.rs share: messages laid out one behind
-- the other between `left` and `right`, where a message that does not fit before `right` starts
-- again at `left`.
pub mod Moves
pub mod Overlap
pub mod Pairs
use ibv.Prelude.{ℕ, ◌+◌, ◌≤◌, ◌<◌, ◌≡◌, ◌⊎◌, List, [], ◌∷◌, ◌++◌, ltb, if◌then◌else◌, sum}

-- A piece of the buffer: its first address and its length.
pub record Piece : Type 0 where
  pub start : ℕ
  pub size : ℕ

abbrev pub Apart : Piece → Piece → Type 0
Apart a b = (a.start + a.size ≤ b.start) ⊎ (b.start + b.size ≤ a.start)

module _ (left right : ℕ) where
  -- where a message of `n` bytes starts, if the ring stands at `pos`
  abbrev pub place : ℕ → ℕ → ℕ
  place pos n = if ltb right (pos + n) then left else pos

  -- where the ring stands behind it
  abbrev pub advance : ℕ → ℕ → ℕ
  advance pos n = if ltb right (pos + n) then left + n else pos + n

  abbrev pub advance_all : ℕ → List ℕ → ℕ
  advance_all pos [] = pos
  advance_all pos (n ∷ ns) = advance_all (advance pos n) ns

  abbrev pub pieces : ℕ → List ℕ → List Piece
  pieces pos [] = []
  pieces pos (n ∷ ns) = record { start = place pos n; size = n } ∷ pieces (advance pos n) ns

  -- There is room for `n` bytes: no live byte is in the way, and the ring does not become full,
  -- which could not be told from empty.
  abbrev pub HasRoom : ℕ → ℕ → ℕ → Type 0
  HasRoom done index n =
      ((right < index + n) × (left + n < done) × (done ≤ index))
      ⊎ ((index + n ≤ right) × ((index + n < done) ⊎ (done ≤ index)))

  -- The live messages, oldest first, fill the ring from `done` to `index`: in one stretch, or in
  -- two with the message `n` the first to start at `left` again.
  pub data Layout (done index : ℕ) (lens : List ℕ) : Type 0 where
    flat : left ≤ done → done + sum lens ≡ index → index ≤ right → Layout done index lens
    split :
        (hi lo : List ℕ) (n : ℕ)
        → lens ≡ hi ++ n ∷ lo
        → left ≤ done
        → done + sum hi ≤ right
        → right < done + sum hi + n
        → left + n + sum lo ≡ index
        → index < done
        → Layout done index lens
