-- ===== src/Link/Delivery.antt =====
-- The states that a link can reach.
use ibv.Prelude.{
  ℕ, ◌+◌, ◌≤◌, ◌<◌, ◌≡◌, ap, some, List, [], ◌∷◌, ◌++◌, map, length, All, u32_mod, u64_mod,
}
use ibv.Memory.{Memory}
use ibv.Ring.{Apart, pieces}
use ibv.Mr.Region.{Mr, RemoteBuf}
use ibv.Mr.RemoteBufs.{RemoteBufManager, alloc}
use ibv.Mr.RemoteBufs.Waiting.{quiet}
use ibv.Mr.RecvBufs.{read}
use ibv.Link.{Link, Step, send, recv, release, deliver, Reach, here, later, start}
use ibv.Link.Invariant.{lengths, Inv, start-Inv}
use ibv.Link.Sending.{send-Inv, send-Apart}
use ibv.Link.Receiving.{recv-Inv, read-wire}
use ibv.Link.Releasing.{release-Inv, deliver-Inv}

Step-Inv :
    {Rx : Type 0} {left right : ℕ} {l k : Link Rx} → Step l k → Inv left right l → Inv left right k
Step-Inv (send bytes b m' short h) inv = send-Inv inv bytes b m' short h
Step-Inv (recv bytes w e) inv = recv-Inv inv bytes w e
Step-Inv (release n h e) inv = release-Inv inv n h e
Step-Inv (deliver k ks e) inv = deliver-Inv inv k ks e

Reach-Inv :
    {Rx : Type 0} {left right : ℕ} {l k : Link Rx} → Inv left right l → Reach l k → Inv left right k
Reach-Inv inv here = inv
Reach-Inv inv (later r s) = Step-Inv s (Reach-Inv inv r)

-- The region that the receiver registers is shorter than 2 ^ 32 bytes, and does not end within
-- 2 ^ 32 bytes of the end of the address space.
abbrev pub Registered : Mr → Type 0
Registered mr = (mr.length < u32_mod) × (mr.addr + mr.length + u32_mod ≤ u64_mod)

module _ {Rx : Type 0} (mr : Mr) (rx : Rx) (mem : Memory) (reg : Registered mr) where
  pub reached : {l : Link Rx} → Reach (start mr rx mem) l → Inv mr.addr (mr.addr + mr.length) l
  reached r = Reach-Inv (start-Inv mr rx mem reg.0 reg.1) r

  -- If the receiver's region is shorter than 2 ^ 32 bytes and ends 2 ^ 32 bytes below the end of
  -- the address space, every message is shorter than 2 ^ 32 bytes, and nothing runs between the
  -- two loads of a test of `alloc`, then in every state that a link reaches, the answers of
  -- `read` so far, followed by the messages on the wire, are the messages given to `send_msg`,
  -- in order and byte for byte; no `read` has panicked.
  pub got-sent :
      {l : Link Rx} → Reach (start mr rx mem) l → l.got ++ map some l.wire ≡ map some l.sent
  got-sent r = (reached r).received

  -- If the receiver's region is shorter than 2 ^ 32 bytes and ends 2 ^ 32 bytes below the end of
  -- the address space, every message is shorter than 2 ^ 32 bytes, and nothing runs between the
  -- two loads of a test of `alloc`, then in every state that a link reaches, `read` with the
  -- length of the oldest message on the wire gives that message as it was sent.
  read-oldest :
      {l : Link Rx} (bytes : List ℕ) (w : List (List ℕ))
      → Reach (start mr rx mem) l
      → l.wire ≡ bytes ∷ w
      → (read l.mem l.receiver (length bytes)).0 ≡ some bytes
  read-oldest bytes w r e = ap (λ x. x.0) (read-wire (reached r) bytes w e)

  -- If the receiver's region is shorter than 2 ^ 32 bytes and ends 2 ^ 32 bytes below the end of
  -- the address space, every message is shorter than 2 ^ 32 bytes, and nothing runs between the
  -- two loads of a test of `alloc`, then in every state that a link reaches, a buffer for fewer
  -- than 2 ^ 32 bytes that `alloc` gives in its first test overlaps no message that the receiver
  -- holds or has still to read.
  pub alloc-unread-Apart :
      {l : Link Rx} (n : ℕ) {b : RemoteBuf} {m' : RemoteBufManager}
      → Reach (start mr rx mem) l
      → n < u32_mod
      → alloc (quiet ([] ∷ [])) l.sender n ≡ some (b, m')
      → All (Apart (record { start = b.addr; size = n })) (
          pieces mr.addr
            (mr.addr + mr.length)
            (l.receiver.done + l.receiver.released)
            (l.held ++ lengths l.wire))
  alloc-unread-Apart n r short h = send-Apart (reached r) n short h
