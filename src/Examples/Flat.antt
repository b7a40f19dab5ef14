-- ===== src/Examples/Flat.antt =====
-- A link in which no message has come to the end of the buffer (src/types/mr.rs): then `alloc` does not
-- wait, and the counters of the two sides differ by the lengths under way.
use mathlib.Core.List.{map-append}
use ibv.Prelude.{
  ℕ, ◌+◌, ◌≤◌, ◌<◌, ◌≡◌, some, List, [], ◌∷◌, ◌++◌, length, sum, sum-append, u32_mod, u64_mod,
  arith,
}
use ibv.Memory.{Memory}
use ibv.Mr.Region.{Mr, RemoteBuf, from_mr}
use ibv.Mr.RemoteBufs
use ibv.Mr.RemoteBufs.{RemoteBufManager, alloc, update}
use ibv.Mr.RemoteBufs.Waiting.{quiet}
use ibv.Mr.RecvBufs
use ibv.Mr.RecvBufs.{RecvBuffer, read, notify_release}
use ibv.Link.{Link, start, acknowledge}
use ibv.Link.Invariant.{lengths}
use ibv.Examples.{sent_on, received_on, released_on, reported_on}

-- an allocator with room behind its index
pub alloc-room :
    (m : RemoteBufManager) (n : ℕ)
    → m.done ≤ m.index
    → m.index + n ≤ m.right
    → m.right < u64_mod
    → alloc (quiet ([] ∷ [])) m n
      ≡ some (
        record { addr = m.index; length = n; rkey = m.mr.rkey },
        record m { index = m.index + n },
      )
unfolding alloc
alloc-room m n low fits top = ground arith

pub sum-lengths-snoc :
    (ms : List (List ℕ)) (m : List ℕ) → sum (lengths (ms ++ m ∷ [])) ≡ sum (lengths ms) + length m
sum-lengths-snoc ms m =
    rw (map-append length ms (m ∷ [])) (omega (arith, sum-append (lengths ms) (length m ∷ [])))

module _ {Rx : Type 0} where
  pub record Flat (left right : ℕ) (l : Link Rx) : Type 0 where
    pub sender_left : l.sender.left ≡ left
    pub sender_right : l.sender.right ≡ right
    pub receiver_left : l.receiver.left ≡ left
    pub receiver_right : l.receiver.right ≡ right
    pub headroom : right + u32_mod ≤ u64_mod
    pub short : right < left + u32_mod
    pub low : left ≤ l.sender.done
    pub reports : l.sender.done + sum l.notes ≡ l.receiver.done
    pub holds : l.receiver.done + l.receiver.released + sum l.held ≡ l.receiver.index
    pub under_way : l.receiver.index + sum (lengths l.wire) ≡ l.sender.index
    pub all : l.sender.index ≡ left + sum (lengths l.sent)
    pub fits : l.sender.index ≤ right

  pub start-Flat :
      (mr : Mr) (rx : Rx) (mem : Memory)
      → mr.length < u32_mod
      → mr.addr + mr.length + u32_mod ≤ u64_mod
      → Flat mr.addr (mr.addr + mr.length) (start mr rx mem)
  unfolding RemoteBufs.new RecvBufs.new from_mr
  start-Flat mr rx mem short room = omega arith

  module _ {left right : ℕ} {l : Link Rx} (f : Flat left right l) where
    pub done-le-index : l.sender.done ≤ l.sender.index
    done-le-index = omega (arith, f.reports, f.holds, f.under_way)

    pub send-Flat :
        (m : List ℕ) (b : RemoteBuf) (a : RemoteBufManager)
        → l.sender.index + length m ≤ right
        → alloc (quiet ([] ∷ [])) l.sender (length m) ≡ some (b, a)
        → Flat left right (sent_on l m b a)
    send-Flat m b a room e = ground (
      arith,
      alloc-room l.sender (length m),
      done-le-index,
      sum-lengths-snoc l.wire m,
      sum-lengths-snoc l.sent m,
    )

    pub recv-Flat :
        (m : List ℕ) (w : List (List ℕ)) → l.wire ≡ m ∷ w → Flat left right (received_on l m w)
    unfolding read
    recv-Flat m w e = ground (arith, sum-append l.held (length m ∷ []))

    pub release-Flat : (n : ℕ) (h : List ℕ) → l.held ≡ n ∷ h → Flat left right (released_on l n h)
    unfolding notify_release
    release-Flat n h e =
        ground (arith, sum-append l.notes ((l.receiver.released + n) ∷ []), sum-append l.notes [])

    pub report-Flat :
        (k : ℕ) (ks : List ℕ) → l.notes ≡ k ∷ ks → Flat left right (reported_on l k ks)
    unfolding acknowledge update
    report-Flat k ks e = ground arith
