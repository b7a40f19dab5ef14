-- ===== src/Link.antt =====
-- One direction of a connection between two `Conn` (src/connection/conn.rs): the sender's
-- `RemoteBufManager`, the network, the receiver's `RecvBuffer` and the reports that come back. A
-- step is a call that does not wait; a call that waits is the steps of others and then its own. A message
-- is shorter than 2 ^ 32 bytes, and nothing runs between the two loads of a test of `alloc`.
pub mod Invariant
pub mod Sending
pub mod Receiving
pub mod Releasing
pub mod Delivery
pub mod Stall
mod Tests
use ibv.Prelude.{
  ℕ, ◌≡◌, ◌<◌, Option, none, some, List, [], ◌∷◌, ◌++◌, ◌==◌, if◌then◌else◌, length, u32_mod,
}
use ibv.Memory.{Memory, Bytes, store}
use ibv.Mr.Region.{Mr, RemoteBuf, from_mr}
use ibv.Mr.RemoteBufs
use ibv.Mr.RemoteBufs.{RemoteBufManager, update, alloc}
use ibv.Mr.RemoteBufs.Waiting.{quiet}
use ibv.Mr.RecvBufs
use ibv.Mr.RecvBufs.{RecvBuffer, read, notify_release}

-- `wire` holds the messages that are written and whose completion the receiver has not taken;
-- `held` the lengths of those that are read and not released; `notes` the reported lengths under
-- way. `sent` and `got` only record: every message given to `send_msg`, and every answer of `read`.
pub record Link (Rx : Type 0) : Type 0 where
  pub mem : Memory
  pub sender : RemoteBufManager
  pub receiver : RecvBuffer Rx
  pub wire : List (List ℕ)
  pub held : List ℕ
  pub notes : List ℕ
  pub sent : List (List ℕ)
  pub got : List (Option (List ℕ))

-- `recv_msg`: an `imm` of 0 reports nothing.
unfoldable pub acknowledge : RemoteBufManager → ℕ → RemoteBufManager
acknowledge m imm = if imm == 0 then m else update m imm

abbrev pub to_notes : Option ℕ → List ℕ
to_notes none = []
to_notes (some k) = k ∷ []

module _ {Rx : Type 0} where
  -- The receiver registers its buffer and tells the sender of it.
  abbrev pub start : Mr → Rx → Memory → Link Rx
  start mr rx mem = record {
    mem = mem;
    sender = RemoteBufs.new (from_mr mr);
    receiver = RecvBufs.new mr (record { ptr = mr.addr; len = mr.length }) rx;
    wire = [];
    held = [];
    notes = [];
    sent = [];
    got = [];
  }

  pub data Step (l : Link Rx) : Link Rx → Type 0 where
    -- `send_msg` where `alloc` need not wait, and the write that it posts
    send :
        (bytes : List ℕ) (b : RemoteBuf) (m' : RemoteBufManager)
        → length bytes < u32_mod
        → alloc (quiet ([] ∷ [])) l.sender (length bytes) ≡ some (b, m')
        → Step l (record l {
          mem = store l.mem b.addr bytes;
          sender = m';
          wire = l.wire ++ bytes ∷ [];
          sent = l.sent ++ bytes ∷ [];
        })
    -- `recv_msg` with the oldest completion
    recv :
        (bytes : List ℕ) (w : List (List ℕ))
        → l.wire ≡ bytes ∷ w
        → Step l (record l {
          receiver = (read l.mem l.receiver (length bytes)).1;
          wire = w;
          held = l.held ++ length bytes ∷ [];
          got = l.got ++ (read l.mem l.receiver (length bytes)).0 ∷ [];
        })
    -- `release` of the oldest message that is held
    release :
        (n : ℕ) (h : List ℕ)
        → l.held ≡ n ∷ h
        → Step l (record l {
          receiver = (notify_release l.receiver n).1;
          held = h;
          notes = l.notes ++ to_notes (notify_release l.receiver n).0;
        })
    -- a report arrives with a message of the other direction
    deliver :
        (k : ℕ) (ks : List ℕ)
        → l.notes ≡ k ∷ ks
        → Step l (record l { sender = acknowledge l.sender k; notes = ks })

  pub data Reach (l : Link Rx) : Link Rx → Type 0 where
    here : Reach l l
    later : {k j : Link Rx} → Reach l k → Step k j → Reach l j
