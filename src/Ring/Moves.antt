-- ===== src/Ring/Moves.antt =====
-- A message behind the newest, and the release of the oldest, in the layout of a ring.
use ibv.Prelude.{
  ℕ, ◌+◌, ◌≤◌, ◌<◌, ◌≡◌, refl, ap, ◌∙◌, inl, inr, List, [], ◌∷◌, ◌++◌, append-nil, append_assoc,
  arith, sum, sum-append,
}
use ibv.Ring.{advance, advance_all, HasRoom, Layout, flat, split}

module _ {left right : ℕ} where
  pub Layout-push :
      {done index : ℕ} {lens : List ℕ} (n : ℕ)
      → Layout left right done index lens
      → HasRoom left right done index n
      → Layout left right done (advance left right index n) (lens ++ n ∷ [])
  Layout-push {done} {index} {lens} n (flat low e top) (inl (over, room, le)) =
      split lens [] n refl low (omega arith) (omega arith) (ground arith) (ground arith)
  Layout-push {done} {index} {lens} n (flat low e top) (inr (fits, room)) =
      flat low (ground (arith, sum-append lens (n ∷ []))) (ground arith)
  Layout-push n (split hi lo k e low up over at less) (inl (_, _, le)) = absurd (omega arith)
  Layout-push {done} {index} {lens} n (split hi lo k e low up over at less) (inr (fits, room)) =
      split hi (lo ++ n ∷ []) k (ap (λ l. l ++ n ∷ []) e ∙ append_assoc hi (k ∷ lo) (n ∷ [])) low up
        over (ground (arith, sum-append lo (n ∷ []))) (ground arith)

  split-pop :
      {done index : ℕ} (n : ℕ) (lens hi lo : List ℕ) (k : ℕ)
      → n ∷ lens ≡ hi ++ k ∷ lo
      → left ≤ done
      → done + sum hi ≤ right
      → right < done + sum hi + k
      → left + k + sum lo ≡ index
      → index < done
      → Layout left right (advance left right done n) index lens
  split-pop n lens [] lo k e low up over at less = flat (ground arith) (ground arith) (ground arith)
  split-pop n lens (h ∷ hi) lo k e low up over at less =
      split hi lo k (ground arith) (ground arith) (ground arith) (ground arith) at (ground arith)

  pub Layout-pop :
      {done index n : ℕ} {lens : List ℕ}
      → Layout left right done index (n ∷ lens)
      → Layout left right (advance left right done n) index lens
  Layout-pop (flat low e top) = flat (ground arith) (ground arith) top
  Layout-pop {n} {lens} (split hi lo k e low up over at less) =
      split-pop n lens hi lo k e low up over at less

  pub Layout-pop_all :
      (ns : List ℕ) {done index : ℕ} {lens : List ℕ}
      → Layout left right done index (ns ++ lens)
      → Layout left right (advance_all left right done ns) index lens
  Layout-pop_all [] l = l
  Layout-pop_all (n ∷ ns) {done} l =
      Layout-pop_all ns {done = advance left right done n} (Layout-pop l)

  -- The oldest message fits in the ring.
  pub Layout-first :
      {done index n : ℕ} {lens : List ℕ}
      → Layout left right done index (n ∷ lens)
      → left + n ≤ right
  Layout-first (flat low e top) = omega arith
  Layout-first (split [] lo k e low up over at less) = ground arith
  Layout-first (split (h ∷ hi) lo k e low up over at less) = ground arith

  pub Layout-bounds :
      {done index : ℕ} {lens : List ℕ}
      → Layout left right done index lens
      → (left ≤ done) × (done ≤ right) × (left ≤ index) × (index ≤ right)
  Layout-bounds (flat low e top) = omega arith
  Layout-bounds (split hi lo n e low up over at less) = omega arith

  -- With no live message left the ring is empty: both ends meet.
  pub Layout-nil : {done index : ℕ} → Layout left right done index [] → done ≡ index
  Layout-nil (flat low e top) = omega arith
  Layout-nil (split [] lo n e low up over at less) = cc
  Layout-nil (split (h ∷ hi) lo n e low up over at less) = cc

pub advance_all-append :
    (left right pos : ℕ) (ns ms : List ℕ)
    → advance_all left right pos (ns ++ ms)
      ≡ advance_all left right (advance_all left right pos ns) ms
advance_all-append left right pos [] ms = refl
advance_all-append left right pos (n ∷ ns) ms =
    advance_all-append left right (advance left right pos n) ns ms

-- The layout determines where the ring ends.
pub advance_all-Layout :
    {left right done index : ℕ} (lens : List ℕ)
    → Layout left right done index lens
    → advance_all left right done lens ≡ index
advance_all-Layout lens l = Layout-nil (Layout-pop_all lens {lens = []} (rw (append-nil lens) l))
