-- ===== src/Mr/RecvBufs/Reading.antt =====
-- Where `RecvBuffer::read` reads (src/types/mr.rs, lines 320 to 333).
use ibv.Prelude.{ℕ, ◌+◌, ◌≤◌, ◌≡◌, some, arith}
use ibv.Ring.{place, advance}
use ibv.Memory.{Memory, load}
use ibv.Mr.RecvBufs.{RecvBuffer, slice, read, IsValid}

module _ {Rx : Type 0} (mem : Memory) (r : RecvBuffer Rx) (length : ℕ) (v : IsValid r) where
  -- In a valid buffer, `read` of a message that fits in the buffer does not panic; it gives the
  -- bytes at the message's place in the ring, and moves `index` behind them and nothing else.
  pub read-place :
      r.left + length ≤ r.right
      → read mem r length ≡ (
        some (load mem (place r.left r.right r.index length) length),
        record r { index = advance r.left r.right r.index length },
      )
  unfolding read slice
  read-place fits = ground arith

  pub read-IsValid : r.left + length ≤ r.right → IsValid (read mem r length).1
  unfolding read
  read-IsValid fits = ground arith
