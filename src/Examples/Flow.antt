-- ===== src/Examples/Flow.antt =====
-- One direction of the examples' connection with the task that receives from it (`recv_msg`, the count and
-- `release` of examples/client.rs and examples/server.rs).
use ibv.Prelude.{
  ℕ, ◌+◌, ◌≤◌, ◌<◌, ◌≡◌, refl, ap, ◌∙◌, Option, none, some, List, [], ◌∷◌, ◌++◌, map, length,
  length-append, length-map, add32, u32_mod, arith,
}
use ibv.Memory.{Memory}
use ibv.Mr.Region.{Mr, RemoteBuf}
use ibv.Mr.RemoteBufs.{RemoteBufManager, alloc}
use ibv.Mr.RemoteBufs.Waiting.{quiet}
use ibv.Mr.RecvBufs.{read}
use ibv.Link
use ibv.Link.{Link, start}
use ibv.Link.Delivery.{Registered, reached, got-sent}
use ibv.Link.Receiving.{read-wire}
use ibv.Examples.{sent_on, received_on, released_on, reported_on}
use ibv.Examples.Flat.{
  Flat, start-Flat, alloc-room, done-le-index, send-Flat, recv-Flat, release-Flat, report-Flat,
}

abbrev pub held_of : Option (List ℕ) → List ℕ
held_of none = []
held_of (some msg) = length msg ∷ []

module _ {Rx : Type 0} (mr : Mr) (rx : Rx) (mem : Memory) where
  -- `count` and `holding` are the variables of the receiving task.
  pub record Flow (count : ℕ) (holding : Option (List ℕ)) (l : Link Rx) : Type 0 where
    pub reach : Link.Reach (start mr rx mem) l
    pub flat : Flat mr.addr (mr.addr + mr.length) l
    pub counted : count ≡ length l.got
    pub held : l.held ≡ held_of holding

  pub start-Flow : Registered mr → Flow 0 none (start mr rx mem)
  start-Flow reg = record {
    reach = Link.here;
    flat = start-Flat mr rx mem reg.0 reg.1;
    counted = refl;
    held = refl;
  }

  module _ {count : ℕ} {holding : Option (List ℕ)} {l : Link Rx} (reg : Registered mr)
      (f : Flow count holding l) where
    pub answers : l.got ++ map some l.wire ≡ map some l.sent
    answers = got-sent mr rx mem reg f.reach

    pub arrivals : count + length l.wire ≡ length l.sent
    arrivals =
        rw (f.counted, ← length-map {B = Option (List ℕ)} some l.wire, ← length-append)
          (ap length answers ∙ length-map some l.sent)

    pub read-oldest :
        (m : List ℕ) (w : List (List ℕ))
        → l.wire ≡ m ∷ w
        → (read l.mem l.receiver (length m)).0 ≡ some m
    read-oldest m w e = ap (λ x. x.0) (read-wire (reached mr rx mem reg f.reach) m w e)

    -- A message for which there is room behind the index is sent at once.
    pub can_send :
        (n : ℕ)
        → l.sender.index + n ≤ mr.addr + mr.length
        → (b : RemoteBuf) × (a : RemoteBufManager) × (alloc (quiet ([] ∷ [])) l.sender n
            ≡ some (b, a))
    can_send n room = (
      _,
      _,
      alloc-room l.sender n (done-le-index f.flat) (omega (arith, f.flat.sender_right))
          (omega (arith, f.flat.sender_right, f.flat.headroom)),
    )

    pub send-Flow :
        (m : List ℕ) (b : RemoteBuf) (a : RemoteBufManager)
        → length m < u32_mod
        → l.sender.index + length m ≤ mr.addr + mr.length
        → alloc (quiet ([] ∷ [])) l.sender (length m) ≡ some (b, a)
        → Flow count holding (sent_on l m b a)
    send-Flow m b a small room e = record {
      reach = Link.later f.reach (Link.send m b a small e);
      flat = send-Flat f.flat m b a room e;
      counted = f.counted;
      held = f.held;
    }

    pub recv-Flow :
        (m : List ℕ) (w : List (List ℕ)) (msg : List ℕ)
        → holding ≡ none
        → l.wire ≡ m ∷ w
        → (read l.mem l.receiver (length m)).0 ≡ some msg
        → count + 1 < u32_mod
        → Flow (add32 count 1) (some msg) (received_on l m w)
    recv-Flow m w msg idle e answer small = record {
      reach = Link.later f.reach (Link.recv m w e);
      flat = recv-Flat f.flat m w e;
      counted =
          omega (arith, f.counted, length-append l.got ((read l.mem l.receiver (length m)).0 ∷ []));
      held = rw (f.held, idle) (ap (λ n. n ∷ []) (ap length same));
    }
      where
        same : m ≡ msg
        same = cc (read-oldest m w e)

    pub release-Flow :
        (msg : List ℕ) (h : List ℕ)
        → holding ≡ some msg
        → l.held ≡ length msg ∷ h
        → Flow count none (released_on l (length msg) h)
    release-Flow msg h held e = record {
      reach = Link.later f.reach (Link.release (length msg) h e);
      flat = release-Flat f.flat (length msg) h e;
      counted = f.counted;
      held = cc (f.held, ap held_of held);
    }

    pub report-Flow :
        (k : ℕ) (ks : List ℕ) → l.notes ≡ k ∷ ks → Flow count holding (reported_on l k ks)
    report-Flow k ks e = record {
      reach = Link.later f.reach (Link.deliver k ks e);
      flat = report-Flat f.flat k ks e;
      counted = f.counted;
      held = f.held;
    }
