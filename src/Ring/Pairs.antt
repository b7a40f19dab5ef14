-- ===== src/Ring/Pairs.antt =====
-- Two live messages of a ring.
use ibv.Prelude.{ℕ, ◌+◌, ◌≤◌, ◌<◌, ◌≡◌, List, [], ◌∷◌, ◌++◌, arith, sum, All, All-imp}
use ibv.Ring.{Apart, place, advance, advance_all, pieces, Layout, flat, split}
use ibv.Ring.Moves.{Layout-pop_all}
use ibv.Ring.Overlap.{Within, Either, pieces-Within, split-Either}

module _ (left right : ℕ) where
  split-Apart :
      {done index : ℕ} (n : ℕ) (lens hi lo : List ℕ) (k : ℕ)
      → n ∷ lens ≡ hi ++ k ∷ lo
      → left ≤ done
      → done + sum hi ≤ right
      → right < done + sum hi + k
      → left + k + sum lo ≡ index
      → index < done
      → All
          (Apart (record { start = place left right done n; size = n }))
          (pieces left right (advance left right done n) lens)
  split-Apart {done} {index} n lens [] lo k e low up over at less =
      let same : n ≡ k = cc in
      let rest : lens ≡ lo = cc in
      let moved : advance left right done n ≡ left + k = ground arith in
      rw (moved, rest)
        (All-imp (Within (left + k) index)
          (Apart (record { start = place left right done n; size = n })) (λ p w. ground arith)
          (pieces left right (left + k) lo)
          (pieces-Within left right (left + k) index (left + k) lo (omega arith) (omega arith)
            (omega arith)))
  split-Apart {done} {index} n lens (h ∷ hi) lo k e low up over at less =
      let same : n ≡ h = cc in
      let rest : lens ≡ hi ++ k ∷ lo = cc in
      let moved : advance left right done n ≡ done + h = ground arith in
      rw (moved, rest)
        (All-imp (Either left right (done + h) index)
          (Apart (record { start = place left right done n; size = n })) (λ p w. ground arith)
          (pieces left right (done + h) (hi ++ k ∷ lo))
          (split-Either left right (done + h) index (done + h) hi lo k (omega arith) (omega arith)
            (omega arith) at (omega arith)))

  -- The oldest live message overlaps no other.
  first-Apart :
      {done index n : ℕ} {lens : List ℕ}
      → Layout left right done index (n ∷ lens)
      → All
          (Apart (record { start = place left right done n; size = n }))
          (pieces left right (advance left right done n) lens)
  first-Apart {done} {index} {n} {lens} (flat low e top) =
      All-imp (Within (done + n) index)
        (Apart (record { start = place left right done n; size = n })) (λ p h. ground arith)
        (pieces left right (advance left right done n) lens)
        (let moved : advance left right done n ≡ done + n = ground arith in
          rw moved (
            pieces-Within left right (done + n) index (done + n) lens (omega arith) (omega arith)
              top))
  first-Apart {n = n} {lens} (split hi lo k e low up over at less) =
      split-Apart n lens hi lo k e low up over at less

  -- A live message overlaps none of those behind it.
  pub later-Apart :
      {done index : ℕ} (older : List ℕ) (n : ℕ) (lens : List ℕ)
      → Layout left right done index (older ++ n ∷ lens)
      → let pos = advance_all left right done older in
        All
          (Apart (record { start = place left right pos n; size = n }))
          (pieces left right (advance left right pos n) lens)
  later-Apart older n lens l = first-Apart (Layout-pop_all older l)
