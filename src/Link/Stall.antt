-- ===== src/Link/Stall.antt =====
-- Links at rest (`RemoteBufManager::alloc` and `RecvBuffer::notify_release` of src/types/mr.rs).
use ibv.Prelude.{
  ℕ, zero, suc, ◌+◌, ◌^◌, ◌≤◌, ◌<◌, ◌≡◌, refl, none, some, List, [], ◌∷◌, u32_mod, arith,
}
use ibv.Mr.Region.{RemoteBuf}
use ibv.Mr.RemoteBufs
use ibv.Mr.RemoteBufs.{RemoteBufManager, wait_here, alloc, bump, update}
use ibv.Mr.RemoteBufs.Waiting.{quiet}
use ibv.Mr.RecvBufs
use ibv.Mr.RecvBufs.{RecvBuffer, notify_release}
use ibv.Link.{acknowledge}

-- rounds of a waiting loop in which nothing happens
abbrev pub idle : ℕ → List (List ℕ)
idle zero = []
idle (suc j) = [] ∷ idle j

wait_here-idle :
    (j : ℕ) (m : RemoteBufManager) (k : ℕ)
    → m.right + u32_mod ≤ 2 ^ 64
    → m.index + k ≤ m.right
    → m.done ≤ m.index + k
    → m.index < m.done
    → wait_here (quiet (idle j)) m k ≡ none
unfolding wait_here
wait_here-idle zero m k room fits low high = refl
wait_here-idle (suc j) m k room fits low high =
    ground (arith, wait_here-idle j m k room fits low high)

-- Both ends are drained: nothing is live, all is reported, and all pointers stand at one place.
pub record Drained {Rx : Type 0} (m : RemoteBufManager) (r : RecvBuffer Rx) : Type 0 where
  pub sender : RemoteBufs.IsValid m
  pub receiver : RecvBufs.IsValid r
  pub left : r.left ≡ m.left
  pub right : r.right ≡ m.right
  pub empty : m.done ≡ m.index
  pub same : r.done ≡ m.done
  pub all : r.released ≡ 0

-- Let both ends be drained, a message of `n` bytes have to wrap and fit before `done`, and a
-- message of `k` bytes fit between its end and the end of the ring, but not strictly before
-- `done`. When the first is sent and released, the report is 0, which the sender passes over,
-- and the second gets no buffer in any number of rounds in which nothing is released.
pub withheld_stall :
    {Rx : Type 0} (m : RemoteBufManager) (r : RecvBuffer Rx) (n k j : ℕ)
    → Drained m r
    → n < u32_mod
    → m.right < m.index + n
    → m.left + n < m.done
    → m.left + n + k ≤ m.right
    → m.done ≤ m.left + n + k
    → (b : RemoteBuf) × (m' : RemoteBufManager) × (alloc (quiet ([] ∷ [])) m n ≡ some (b, m'))
      × ((notify_release r n).0 ≡ some 0)
      × (acknowledge m' 0 ≡ m')
      × (alloc (quiet (idle j)) m' k ≡ none)
unfolding alloc notify_release acknowledge
withheld_stall m r n k j d short over low fits blocked = (
  record { addr = m.left; length = n; rkey = m.mr.rkey },
  m',
  ground arith,
  ground arith,
  refl,
  ground (arith, wait_here-idle j m' k),
)
  where
    m' : RemoteBufManager
    m' = record m { index = m.left + n }
