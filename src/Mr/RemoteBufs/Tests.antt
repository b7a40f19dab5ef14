-- ===== src/Mr/RemoteBufs/Tests.antt =====
-- The allocator for the peer's buffer at concrete states of a buffer of 100 bytes.
use ibv.Prelude.{ℕ, ◌+◌, ◌≤◌, ◌≡◌, ◌≢◌, inl, refl, some, none, [], ◌∷◌, arith, All}
use ibv.Ring.{Apart, pieces, HasRoom, Layout, flat, split}
use ibv.Mr.Region.{RemoteBuf}
use ibv.Mr.RemoteBufs.{RemoteBufManager, update, here_blocked, alloc, IsValid}
use ibv.Mr.RemoteBufs.Waiting.{quiet}
use ibv.Mr.RemoteBufs.Alloc.{piece_of, alloc-returns, alloc_hangs, alloc-Apart}
use ibv.Mr.RemoteBufs.Race.{torn, here_blocked-HasRoom, alloc_race}

abbrev at : ℕ → ℕ → RemoteBufManager
at done index = record {
  done = done;
  index = index;
  left = 1000;
  right = 1100;
  mr = record { addr = 1000; length = 100; rkey = 2 };
}

abbrev given : ℕ → ℕ → RemoteBuf
given addr length = record { addr = addr; length = length; rkey = 2 }

valid : (d i : ℕ) → 1000 ≤ d → d ≤ 1100 → 1000 ≤ i → i ≤ 1100 → IsValid (at d i)
valid d i a b c e = record {
  done_low = a;
  done_high = b;
  index_low = c;
  index_high = e;
  headroom = omega arith;
}

-- A message of 30 bytes goes round to the start, the first 40 of 90 bytes being released.
wraps : alloc (quiet ([] ∷ [])) (at 1040 1090) 30 ≡ some (given 1000 30, at 1040 1030)
unfolding alloc
wraps = refl

live : Layout 1000 1100 1040 1090 (25 ∷ 25 ∷ [])
live = flat (omega arith) refl (omega arith)

alloc-Apart_example :
    All (Apart (piece_of (given 1000 30))) (pieces 1000 1100 1040 (25 ∷ 25 ∷ []))
    × ((at 1040 1090).left ≤ (given 1000 30).addr)
    × ((given 1000 30).addr + (given 1000 30).length ≤ (at 1040 1090).right)
    × Layout 1000 1100 1040 1030 (25 ∷ 25 ∷ 30 ∷ [])
alloc-Apart_example =
    alloc-Apart (at 1040 1090) 30
      (valid 1040 1090 (omega arith) (omega arith) (omega arith) (omega arith)) (omega arith)
      ([] ∷ []) wraps live

-- Nothing is released at first, then 40 bytes while the task sleeps.
alloc-returns_example : alloc (quiet ((40 ∷ []) ∷ [] ∷ [])) (at 1000 1090) 30 ≢ none
unfolding update
alloc-returns_example =
    alloc-returns (at 1000 1090) 30
      (valid 1000 1090 (omega arith) (omega arith) (omega arith) (omega arith)) (omega arith)
      ((40 ∷ []) ∷ []) (inl (omega arith))

-- 60 bytes have been sent and read, and 60 more never find room.
alloc_hangs_example : alloc (quiet ((60 ∷ []) ∷ [] ∷ [] ∷ [])) (at 1000 1060) 60 ≡ none
alloc_hangs_example =
    alloc_hangs (at 1000 1060) 60
      (valid 1000 1060 (omega arith) (omega arith) (omega arith) (omega arith)) (omega arith)
      ((60 ∷ []) ∷ [] ∷ [] ∷ []) (omega arith) (omega arith)

-- The ring has wrapped: 1060 to 1095 and 1000 to 1030 are live; the first goes between the loads.
wrapped : Layout 1000 1100 1060 1030 (35 ∷ 30 ∷ [])
wrapped = split (35 ∷ []) [] 30 refl (omega arith) (omega arith) (omega arith) refl (omega arith)

here_blocked-HasRoom_example :
    HasRoom 1000 1100 (here_blocked (at 1060 1030) 20 (35 ∷ [])).1.done 1030 20
unfolding here_blocked update
here_blocked-HasRoom_example =
    here_blocked-HasRoom (at 1060 1030) 20 (35 ∷ []) (35 ∷ []) (30 ∷ [])
      (valid 1060 1030 (omega arith) (omega arith) (omega arith) (omega arith)) (omega arith)
      (omega arith) wrapped refl refl

-- The same ring, with 10 bytes at its start and two more messages behind them.
crowded : Layout 1000 1100 1095 1080 (10 ∷ 40 ∷ 30 ∷ [])
crowded =
    split [] (40 ∷ 30 ∷ []) 10 refl (omega arith) (omega arith) (omega arith) refl (omega arith)

-- A message of 30 bytes gets 1000 to 1030 while 1010 to 1050 is live.
alloc_race_example :
    (b : RemoteBuf) × (m' : RemoteBufManager) × (alloc (torn 10) (at 1095 1080) 30 ≡ some (b, m'))
    × Layout 1000 1100 m'.done 1080 (40 ∷ 30 ∷ [])
    × ¬ All (Apart (piece_of b)) (pieces 1000 1100 m'.done (40 ∷ 30 ∷ []))
alloc_race_example =
    alloc_race (at 1095 1080) 30 10 (10 ∷ []) (40 ∷ 30 ∷ [])
      (valid 1095 1080 (omega arith) (omega arith) (omega arith) (omega arith)) (omega arith)
      (omega arith) (omega arith) (omega arith) (omega arith) (omega arith) (omega arith) crowded
      refl
