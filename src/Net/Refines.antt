-- ===== src/Net/Refines.antt =====
-- Two connections and the network from the time when `Conn::new` has run on both sides
-- (src/connection/conn.rs, src/connection/daemon.rs, src/types/mr.rs).
use ibv.Prelude.{ℕ, ◌≡◌, refl, sym, ap, ◌∙◌, List, [], ◌∷◌, ◌++◌, some, map, All, append-nil, arith}
use ibv.Channel.{Mpsc}
use ibv.Verbs.{Verbs}
use ibv.Mr.Region.{Mr, from_mr}
use ibv.Mr.RemoteBufs
use ibv.Mr.SendBufs.{Entry, Inv}
use ibv.Mr.RecvBufs
use ibv.Link
use ibv.Link.{Link, start}
use ibv.Link.Delivery.{Registered, got-sent}
use ibv.Net.{
  Net, Side, Posted, Step, Reach, here, later, reserve_step, post_step, transfer, complete_step,
  task_step, poll_step, recv_step, release_step, carry_step, report_step, other_step, bytes_of,
  request, gather,
}
use ibv.Net.Outgoing.{Holds}
use ibv.Net.Simulation.{Sim, messages}
use ibv.Net.Local.{Sim-task, Sim-complete, Sim-reserve, Sim-poll, Sim-carry, Sim-other}
use ibv.Net.Posting.{Sim-post}
use ibv.Net.Transfer.{Sim-transfer}
use ibv.Conn.{recv_msg}
use ibv.Net.Reading.{recv_msg-takes}
use ibv.Net.Receiving.{Sim-recv}
use ibv.Net.Returning.{Sim-release, Sim-report}

module _ (V : Verbs) (Q : Mpsc (ℕ × ℕ)) (QE : Mpsc Entry) (QR : Mpsc ℕ) where
  -- Nothing is under way.
  abbrev pub begin : Side V Q QE QR → Side V Q QE QR → Net V Q QE QR
  begin a b = record {
    a = a;
    b = b;
    waiting = [];
    posted = [];
    completions = [];
    arrivals = [];
    written = [];
    held = [];
    carried = [];
    sent = [];
    got = [];
  }

  -- `a` has sent nothing, and its allocator is for the region `mr` of the fresh receive buffer of `b`.
  pub record IsReady (mr : Mr) (rx : Q.Chan) (a b : Side V Q QE QR) : Type 0 where
    pub valid : Inv QE a.send_buf
    pub unsent : V.send_queue a.dev ≡ []
    pub allocator : a.allocator ≡ RemoteBufs.new (from_mr mr)
    pub recv_buf : b.recv_buf ≡ RecvBufs.new mr (record { ptr = mr.addr; len = mr.length }) rx
    pub unread : Q.queued rx ≡ []
    pub unreported : QR.queued b.release ≡ []

  module _ (mr : Mr) (rx : Q.Chan) (a b : Side V Q QE QR) (reg : Registered mr)
      (ready : IsReady mr rx a b) where
    begin-Sim : Sim V Q QE QR mr rx b.mem (begin a b) (start mr rx b.mem)
    unfolding RecvBufs.new
    begin-Sim = record {
      reach = Link.here;
      sends = record {
        sound = record {
          valid = ready.valid;
          waiting_hold = tt;
          posted_hold = tt;
          once = λ f. omega arith;
        };
        queue = ready.unsent;
        allocator = sym ready.allocator;
      };
      lands = record {
        receiver = rw ready.recv_buf refl;
        bytes = λ x low high. refl;
        wire = refl;
        queued = rw (ap (λ r. r.rx) ready.recv_buf, ready.unread) refl;
        placed = refl;
      };
      logs = record { held = refl; notes = sym ready.unreported; sent = refl; got = refl };
    }

    Step-Sim :
        {n k : Net V Q QE QR} {l : Link Q.Chan}
        → Step V Q QE QR n k
        → Sim V Q QE QR mr rx b.mem n l
        → (l' : Link Q.Chan) × Sim V Q QE QR mr rx b.mem k l'
    Step-Sim {n} {k} {l} (reserve_step flag msg p wr_id a' short fresh h) m =
        (l, Sim-reserve V Q QE QR mr rx b.mem m flag msg p wr_id a' short fresh h)
    Step-Sim (post_step xs ys t imm r k a' e given done accepted) m =
        (_, Sim-post V Q QE QR mr rx b.mem reg m xs ys t imm r k a' e given done accepted)
    Step-Sim {l = l} (transfer p ps wr rest dev e q moved) m =
        (l, Sim-transfer V Q QE QR mr rx b.mem reg m p ps wr rest dev e q moved)
    Step-Sim {l = l} (complete_step f fs e) m = (l, Sim-complete V Q QE QR mr rx b.mem m f fs e)
    Step-Sim {l = l} task_step m = (l, Sim-task V Q QE QR mr rx b.mem m)
    Step-Sim {l = l} (poll_step wc wcs dev tx flags e h) m =
        (l, Sim-poll V Q QE QR mr rx b.mem m wc wcs dev tx flags e h)
    Step-Sim (recv_step bytes w answer b' e h) m =
        (_, Sim-recv V Q QE QR mr rx b.mem reg m bytes w answer b' e h)
    Step-Sim (release_step k h b' e done) m =
        (_, Sim-release V Q QE QR mr rx b.mem reg m k h b' e done)
    Step-Sim {l = l} (carry_step k ks b' e h) m = (l, Sim-carry V Q QE QR mr rx b.mem m k ks b' e h)
    Step-Sim (report_step k ks a' e s at) m =
        (_, Sim-report V Q QE QR mr rx b.mem reg m k ks a' e s at)
    Step-Sim {l = l} (other_step a' b' s at r) m =
        (l, Sim-other V Q QE QR mr rx b.mem m reg a' b' s at r)

    pub Reach-Sim :
        {n : Net V Q QE QR}
        → Reach V Q QE QR (begin a b) n
        → (l : Link Q.Chan) × Sim V Q QE QR mr rx b.mem n l
    Reach-Sim here = (start mr rx b.mem, begin-Sim)
    Reach-Sim (later r s) = Step-Sim s (Reach-Sim r).1

    -- If the receiver's region is shorter than 2 ^ 32 bytes and ends 2 ^ 32 bytes below the end
    -- of the address space, nothing is under way at first, every message is shorter than 2 ^ 32
    -- bytes, the device takes each write, a new flag stands at an address not in use, and
    -- nothing runs between the two loads of a test of either allocator, then for every state
    -- that the calls and tasks of two connections and the transfers of the cards reach, the
    -- abstract link reaches a state with the same messages sent, answers got, lengths held,
    -- reports under way and sender's allocator, and with the arrived and the posted messages on
    -- its wire.
    pub Reach-Link :
        {n : Net V Q QE QR}
        → Reach V Q QE QR (begin a b) n
        → (l : Link Q.Chan) × Link.Reach (start mr rx b.mem) l
          × (l.sent ≡ n.sent)
          × (l.got ≡ n.got)
          × (l.held ≡ n.held)
          × (l.wire ≡ n.written ++ messages n.posted)
          × (l.notes ≡ n.carried ++ QR.queued n.b.release)
          × (l.sender ≡ n.a.allocator)
    Reach-Link r =
        let (l, m) = Reach-Sim r in
        (
          l, m.reach, m.logs.sent, m.logs.got, m.logs.held, m.lands.wire, m.logs.notes,
          m.sends.allocator,
        )

    -- If the receiver's region is shorter than 2 ^ 32 bytes and ends 2 ^ 32 bytes below the end
    -- of the address space, nothing is under way at first, every message is shorter than 2 ^ 32
    -- bytes, the device takes each write, a new flag stands at an address not in use, and
    -- nothing runs between the two loads of a test of either allocator, then in every state that
    -- two connections and the cards reach, the answers of `recv_msg`, followed by the messages
    -- that have arrived and those that are posted, are the messages that the sender has posted,
    -- in order and byte for byte; no `recv_msg` has panicked.
    pub got-posted :
        {n : Net V Q QE QR}
        → Reach V Q QE QR (begin a b) n
        → n.got ++ map some (n.written ++ messages n.posted) ≡ map some n.sent
    got-posted r =
        let (l, m) = Reach-Sim r in
        rw (← m.logs.got, ← m.logs.sent, ← m.lands.wire) (got-sent mr rx b.mem reg m.reach)

    -- If the receiver's region is shorter than 2 ^ 32 bytes and ends 2 ^ 32 bytes below the end
    -- of the address space, nothing is under way at first, every message is shorter than 2 ^ 32
    -- bytes, the device takes each write, a new flag stands at an address not in use, and
    -- nothing runs between the two loads of a test of either allocator, then in every state that
    -- two connections and the cards reach, the send queue holds the writes of the posted
    -- messages, and the card reads for each the bytes of its message: nothing has been copied
    -- over a message whose write is not made.
    pub gather-bytes :
        {n : Net V Q QE QR}
        → Reach V Q QE QR (begin a b) n
        → (V.send_queue n.a.dev ≡ map request n.posted)
          × All (λ p. gather n.a.mem (request p).sg_list ≡ bytes_of p) n.posted
    gather-bytes {n} r =
        let (l, m) = Reach-Sim r in (m.sends.queue, content n.posted m.sends.sound.posted_hold)
      where
        content :
            (ps : List Posted)
            → All (Holds QE n.a.send_buf n.a.mem) (map (λ p. p.ticket) ps)
            → All (λ p. gather n.a.mem (request p).sg_list ≡ bytes_of p) ps
        content [] h = tt
        content (p ∷ ps) h = (append-nil _ ∙ h.0.content, content ps h.1)

    -- If the receiver's region is shorter than 2 ^ 32 bytes and ends 2 ^ 32 bytes below the end
    -- of the address space, nothing is under way at first, every message is shorter than 2 ^ 32
    -- bytes, the device takes each write, a new flag stands at an address not in use, and
    -- nothing runs between the two loads of a test of either allocator, then in every state that
    -- two connections and the cards reach where a report waits in the receiver's channel,
    -- `recv_msg` returns at once and answers with the oldest message that has arrived.
    pub recv_msg-written :
        {n : Net V Q QE QR} (len imm : ℕ) (rest : List (ℕ × ℕ))
        → Reach V Q QE QR (begin a b) n
        → Q.queued n.b.recv_buf.rx ≡ (len, imm) ∷ rest
        → (m : List ℕ) × (w : List (List ℕ)) × (b' : Side V Q QE QR) × (n.written ≡ m ∷ w)
          × (recv_msg V Q QE QR n.b ≡ some (some m, b'))
    recv_msg-written len imm rest r q =
        let (l, s) = Reach-Sim r in
        let (m, w, b', e, got, _, _) = recv_msg-takes V Q QE QR mr rx b.mem reg s len imm rest q in
        (m, w, b', e, got)
