-- ===== src/Mr/RemoteBufs/Race.antt =====
-- Updates between the two loads of `done` in a test of `RemoteBufManager::alloc` (src/types/mr.rs,
-- lines 161 to 171).
use ibv.Prelude.{
  ℕ, ◌+◌, ◌≤◌, ◌<◌, ◌≡◌, inl, inr, ◌⊎◌, some, List, [], ◌∷◌, ◌++◌, false, u32_mod, arith, All, sum,
}
use ibv.Ring.{Apart, pieces, advance, advance_all, HasRoom, Layout, flat, split}
use ibv.Ring.Overlap.{not-pieces-Apart}
use ibv.Mr.RemoteBufs.Alloc.{piece_of}
use ibv.Ring.Moves.{Layout-pop, Layout-pop_all}
use ibv.Mr.Region.{RemoteBuf}
use ibv.Mr.RemoteBufs.{RemoteBufManager, update, updates, Turn, here_blocked, alloc, IsValid}
use ibv.Mr.RemoteBufs.Waiting.{updates-SameRing}

module _ {left right : ℕ} where
  -- Where `done` is at most `index`, the live messages fill the one stretch between them.
  flat_sum :
      {done index : ℕ} {lens : List ℕ}
      → Layout left right done index lens
      → done ≤ index
      → (done + sum lens ≡ index) × (index ≤ right)
  flat_sum (flat low e top) le = (e, top)
  flat_sum (split hi lo k e low up over at less) le = absurd (omega arith)

  -- One release, seen from an older value `d` of `done`.
  step_forward :
      (d : ℕ) {done index n : ℕ} {lens : List ℕ}
      → Layout left right done index (n ∷ lens)
      → (d ≤ done) ⊎ (done ≤ index)
      → (d ≤ advance left right done n) ⊎ (advance left right done n ≤ index)
  step_forward d (flat low e top) seen = inr (ground arith)
  step_forward d (split [] lo k e low up over at less) seen = inr (ground arith)
  step_forward d (split (h ∷ hi) lo k e low up over at less) (inl le) = inl (ground arith)
  step_forward d (split (h ∷ hi) lo k e low up over at less) (inr le) = absurd (omega arith)

  -- Releases move `done` forward, or round the ring to behind `index`.
  pub pop_all-forward :
      (d : ℕ) (ns lens : List ℕ) {done index : ℕ}
      → Layout left right done index (ns ++ lens)
      → (d ≤ done) ⊎ (done ≤ index)
      → (d ≤ advance_all left right done ns) ⊎ (advance_all left right done ns ≤ index)
  pop_all-forward d [] lens l seen = seen
  pop_all-forward d (n ∷ ns) lens {done} l seen =
      pop_all-forward d ns lens {done = advance left right done n} (Layout-pop l)
        (step_forward d l seen)

-- If the state is valid, the message fits behind `index`, the messages `ns` and then `lens` are
-- live, and the updates between the two loads of the second loop's test release `ns`, then a
-- test that fails means that there is room for the message behind these updates.
pub here_blocked-HasRoom :
    (m : RemoteBufManager) (length : ℕ) (between ns lens : List ℕ)
    → IsValid m
    → length < u32_mod
    → m.index + length ≤ m.right
    → Layout m.left m.right m.done m.index (ns ++ lens)
    → (updates m between).done ≡ advance_all m.left m.right m.done ns
    → (here_blocked m length between).0 ≡ false
    → HasRoom m.left m.right (here_blocked m length between).1.done m.index length
unfolding here_blocked
here_blocked-HasRoom m length between ns lens v short fits l e h = inr (
  fits,
  ground (arith, updates-SameRing m between, pop_all-forward m.done ns lens l (inl (omega arith))),
)

abbrev pub torn : ℕ → List Turn
torn k = record { between = k ∷ []; asleep = [] } ∷ []

-- Let the state be valid, the message not fit behind `index`, and `done` be above `index` and
-- above the end of the message at the start of the ring. If between the two loads of the first
-- loop's test one update by `k`, less than the length of the message, releases the oldest
-- messages `ns` and takes `done` round the ring to `left + k`, below `index`, then `alloc`
-- returns a buffer that overlaps one of the messages `lens`, which are still live.
pub alloc_race :
    (m : RemoteBufManager) (length k : ℕ) (ns lens : List ℕ)
    → IsValid m
    → length < u32_mod
    → k < length
    → m.right < m.index + length
    → m.left + length < m.done
    → m.index < m.done
    → m.right < m.done + k
    → m.left + k < m.index
    → Layout m.left m.right m.done m.index (ns ++ lens)
    → advance_all m.left m.right m.done ns ≡ m.left + k
    → (b : RemoteBuf) × (m' : RemoteBufManager) × (alloc (torn k) m length ≡ some (b, m'))
      × Layout m.left m.right m'.done m.index lens
      × ¬ All (Apart (piece_of b)) (pieces m.left m.right m'.done lens)
unfolding alloc update
alloc_race m length k ns lens v short less over low wrapped past live l e = (
  b,
  m',
  ground arith,
  rest,
  not-pieces-Apart m.left m.right (piece_of b) (m.left + k) lens (omega arith) (omega arith)
      (omega (arith, flat_sum rest)) (omega (arith, flat_sum rest)),
)
  where
    b : RemoteBuf
    b = record { addr = m.left; length = length; rkey = m.mr.rkey }

    m' : RemoteBufManager
    m' = record m { done = m.left + k; index = m.left + length }

    rest : Layout m.left m.right (m.left + k) m.index lens
    rest = rw (← e) (Layout-pop_all ns l)
