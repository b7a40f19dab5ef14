-- ===== src/Link/Tests.antt =====
-- Runs of a link with a buffer of 16 bytes, and the theorems about links at concrete states.
use ibv.Prelude.{ℕ, ◌+◌, ◌*◌, ◌≡◌, refl, none, some, List, [], ◌∷◌, arith, All}
use ibv.Memory.{Memory, store, load}
use ibv.Ring.{Apart, pieces}
use ibv.Mr.Region.{Mr, RemoteBuf, from_mr}
use ibv.Mr.RemoteBufs
use ibv.Mr.RemoteBufs.{RemoteBufManager, update, alloc}
use ibv.Mr.RemoteBufs.Waiting.{quiet}
use ibv.Mr.RecvBufs
use ibv.Mr.RecvBufs.{RecvBuffer, slice, read, notify_release}
use ibv.Link.{Link, start, send, recv, Reach, here, later, acknowledge}
use ibv.Link.Delivery.{got-sent, alloc-unread-Apart}
use ibv.Link.Stall.{idle, withheld_stall}

abbrev region : Mr
region = record { inner = 7; addr = 1000; length = 16; lkey = 1; rkey = 2 }

abbrev blank : Memory
blank x = 0

abbrev fresh : Link (Unit {0})
fresh = start region tt blank

abbrev manager_at : ℕ → ℕ → RemoteBufManager
manager_at done index = record {
  done = done;
  index = index;
  left = 1000;
  right = 1016;
  mr = record { addr = 1000; length = 16; rkey = 2 };
}

abbrev greeting : List ℕ
greeting = 104 ∷ 105 ∷ 33 ∷ []

abbrev buffer_at : ℕ → ℕ → RemoteBuf
buffer_at addr n = record { addr = addr; length = n; rkey = 2 }

-- one message written, none read
abbrev written : Link (Unit {0})
written = record fresh {
  mem = store blank 1000 greeting;
  sender = manager_at 1000 1003;
  wire = greeting ∷ [];
  sent = greeting ∷ [];
}

written_reached : Reach fresh written
unfolding alloc RemoteBufs.new RecvBufs.new from_mr
written_reached =
    later here (send greeting (buffer_at 1000 3) (manager_at 1000 1003) (omega arith) refl)

-- the message read
read_reached : Reach fresh (record written {
  receiver = (read written.mem written.receiver 3).1;
  wire = [];
  held = 3 ∷ [];
  got = (read written.mem written.receiver 3).0 ∷ [];
})
read_reached = later written_reached (recv greeting [] refl)

greeting-read : (read written.mem written.receiver 3).0 ≡ some greeting
unfolding read slice load store RecvBufs.new
greeting-read = refl

got-sent_example : (read written.mem written.receiver 3).0 ∷ [] ≡ some greeting ∷ []
got-sent_example = got-sent region tt blank (omega arith) read_reached

alloc-unread-Apart_example :
    All
      (Apart (record { start = 1003; size = 5 }))
      (pieces 1000 1016 (written.receiver.done + written.receiver.released) (3 ∷ []))
unfolding alloc RecvBufs.new
alloc-unread-Apart_example =
    alloc-unread-Apart region tt blank (omega arith) 5 {b = buffer_at 1003 5}
      {m' = manager_at 1000 1008} written_reached (omega arith) refl

-- The buffers of src/types/default.rs, with both ends drained 60 MiB in.
abbrev mib : ℕ
mib = 1024 * 1024

abbrev big_sender : RemoteBufManager
big_sender = record {
  done = 60 * mib;
  index = 60 * mib;
  left = 0;
  right = 64 * mib;
  mr = record { addr = 0; length = 64 * mib; rkey = 2 };
}

abbrev big_receiver : RecvBuffer (Unit {0})
big_receiver = record {
  mr = record { inner = 7; addr = 0; length = 64 * mib; lkey = 1; rkey = 2 };
  rx = tt;
  recv_buffer = record { ptr = 0; len = 64 * mib };
  released = 0;
  done = 60 * mib;
  index = 60 * mib;
  left = 0;
  right = 64 * mib;
}

-- Two messages of 30 MiB, the first of them released, and the second has no end of waiting.
withheld_stall_example :
    (b : RemoteBuf) × (m' : RemoteBufManager) × (alloc (quiet ([] ∷ [])) big_sender (30 * mib)
      ≡ some (b, m'))
    × ((notify_release big_receiver (30 * mib)).0 ≡ some 0)
    × (acknowledge m' 0 ≡ m')
    × (alloc (quiet (idle 9)) m' (30 * mib) ≡ none)
withheld_stall_example =
    withheld_stall big_sender big_receiver (30 * mib) (30 * mib) 9 (omega arith) (omega arith)
      (omega arith) (omega arith) (omega arith) (omega arith)
