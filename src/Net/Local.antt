-- ===== src/Net/Local.antt =====
-- The steps that a link does not see (src/connection/conn.rs, src/connection/daemon.rs).
use ibv.Prelude.{
  ℕ, ◌+◌, ◌<◌, ◌≡◌, sym, ap, ◌∙◌, List, [], ◌∷◌, ◌++◌, arith, u32_mod, some, append_assoc, Bool,
}
use ibv.Channel.{Mpsc}
use ibv.Memory.{Memory}
use ibv.Verbs.{Verbs, IbvWc}
use ibv.Mr.Region.{Mr, LocalBuf}
use ibv.Mr.RecvBufs.{RecvBuffer}
use ibv.Mr.SendBufs.{Entry, complete, task, event}
use ibv.Mr.SendBufs.Waiting.{quiet}
use ibv.Daemon.{dispatch}
use ibv.Daemon.Dispatch.{dispatch-Dispatched, arrivals-cons}
use ibv.Link.{Link}
use ibv.Conn.{total_len, reserve, admit, get_release_length}
use ibv.Conn.Sending.{admit-some}
use ibv.Link.Delivery.{Registered, reached}
use ibv.Net.{Net, Side, SameSender, SameReceiver, IsFresh}
use ibv.Net.Writes.{apply-congr}
use ibv.Net.Sender.{IsSound-memory, IsSound-task, IsSound-complete, IsSound-reserve}
use ibv.Net.Reserving.{reserve-Reserved}
use ibv.Net.Simulation.{Sim, writes}

module _ (V : Verbs) (Q : Mpsc (ℕ × ℕ)) (QE : Mpsc Entry) (QR : Mpsc ℕ) (mr : Mr) (rx : Q.Chan)
    (mem : Memory) where
  abbrev SimOf : Net V Q QE QR → Link Q.Chan → Type 0
  SimOf = Sim V Q QE QR mr rx mem

  -- The report that goes with a message of `b`.
  admit-report :
      (b : Side V Q QE QR) (k : ℕ) (ks : List ℕ) {b' : Side V Q QE QR}
      → QR.queued b.release ≡ k ∷ ks
      → admit V Q QE QR b ≡ some (k, b')
      → (QR.queued b'.release ≡ ks) × (b'.recv_buf ≡ b.recv_buf) × (b'.mem ≡ b.mem)
  unfolding get_release_length
  admit-report b k ks e h =
      let (imm, what) = admit-some V Q QE QR b 0 [] b h in
      let (rest, taken, left, _) = QR.try_recv-cons b.release k ks e in
      (
        rw (ap (λ c. c.release) what, get_release_length, taken) left,
        ap (λ c. c.recv_buf) what,
        ap (λ c. c.mem) what,
      )

  module _ {n : Net V Q QE QR} {l : Link Q.Chan} (m : SimOf n l) where
    pub Sim-task : SimOf (record n { a = record n.a { send_buf = event QE n.a.send_buf task } }) l
    Sim-task = record {
      reach = m.reach;
      sends = record {
        sound = IsSound-task QE m.sends.sound;
        queue = m.sends.queue;
        allocator = m.sends.allocator;
      };
      lands = m.lands;
      logs = m.logs;
    }

    pub Sim-complete :
        (f : ℕ) (fs : List ℕ)
        → n.completions ≡ f ∷ fs
        → SimOf
            (record n {
              a = record n.a { send_buf = event QE n.a.send_buf (complete f) };
              completions = fs;
            })
            l
    Sim-complete f fs e = record {
      reach = m.reach;
      sends = record {
        sound = IsSound-complete QE m.sends.sound f fs e;
        queue = m.sends.queue;
        allocator = m.sends.allocator;
      };
      lands = m.lands;
      logs = m.logs;
    }

    pub Sim-reserve :
        (flag : ℕ) (msg : List (List ℕ)) (b : LocalBuf) (wr_id : ℕ) (a' : Side V Q QE QR)
        → total_len msg < u32_mod
        → IsFresh V Q QE QR flag n
        → reserve V Q QE QR (quiet ([] ∷ [])) n.a flag msg ≡ some (b, wr_id, a')
        → SimOf
            (record n {
              a = a';
              waiting = n.waiting ++ record { local_buf = b; flag = wr_id; msg = msg } ∷ [];
            })
            l
    Sim-reserve flag msg b wr_id a' short fresh h =
        let r = reserve-Reserved V Q QE QR n.a flag msg b wr_id m.sends.sound.valid short h in
        rw r.id (record {
          reach = m.reach;
          lands = m.lands;
          logs = m.logs;
          sends = record {
            sound =
                IsSound-reserve QE m.sends.sound a'.send_buf a'.mem
                  (record { local_buf = b; flag = flag; msg = msg }) r.valid r.old r.new fresh;
            queue = rw r.dev m.sends.queue;
            allocator = m.sends.allocator ∙ sym r.allocator;
          };
        })

    pub Sim-poll :
        (wc : IbvWc) (wcs : List IbvWc) (dev : V.Dev) (tx : Q.Chan) (flags : ℕ → Bool)
        → n.arrivals ≡ wc ∷ wcs
        → dispatch V Q
            (record { dev = n.b.dev; tx = n.b.recv_buf.rx; flags = n.b.send_buf.flags })
            wc
          ≡ some (record { dev = dev; tx = tx; flags = flags })
        → SimOf
            (record n {
              b = record n.b {
                dev = dev;
                recv_buf = record n.b.recv_buf { rx = tx };
                send_buf = record n.b.send_buf { flags = flags };
              };
              arrivals = wcs;
            })
            l
    Sim-poll wc wcs dev tx flags e h =
        let d = dispatch-Dispatched V Q _ wc h in
        record {
          reach = m.reach;
          sends = m.sends;
          logs = m.logs;
          lands = record {
            receiver = ap {A = RecvBuffer Q.Chan} (λ r. record r { rx = tx }) m.lands.receiver;
            bytes = m.lands.bytes;
            wire = m.lands.wire;
            placed = m.lands.placed;
            queued =
                rw (d.queue, append_assoc, ← arrivals-cons V Q wc wcs) (rw e at m.lands.queued);
          };
        }

    pub Sim-carry :
        (k : ℕ) (ks : List ℕ) (b' : Side V Q QE QR)
        → QR.queued n.b.release ≡ k ∷ ks
        → admit V Q QE QR n.b ≡ some (k, b')
        → SimOf (record n { b = b'; carried = n.carried ++ k ∷ [] }) l
    Sim-carry k ks b' e h =
        let (rest, recv_buf, same) = admit-report n.b k ks e h in
        record {
          reach = m.reach;
          sends = m.sends;
          lands = record {
            receiver = rw recv_buf m.lands.receiver;
            bytes = rw same m.lands.bytes;
            wire = m.lands.wire;
            placed = m.lands.placed;
            queued = rw recv_buf m.lands.queued;
          };
          logs = record {
            held = m.logs.held;
            notes = rw (rest, append_assoc, ← e) m.logs.notes;
            sent = m.logs.sent;
            got = m.logs.got;
          };
        }

    pub Sim-other :
        Registered mr
        → (a' b' : Side V Q QE QR) → SameSender V Q QE QR n.a a'
        → a'.allocator ≡ n.a.allocator
        → SameReceiver V Q QE QR n.b b'
        → SimOf (record n { a = a'; b = b' }) l
    Sim-other reg a' b' s al r =
        let inv = reached mr rx mem reg m.reach in
        let left : n.b.recv_buf.left ≡ mr.addr = ap (λ r. r.left) m.lands.receiver ∙ inv.ends.2 in
        let right : n.b.recv_buf.right ≡ mr.addr + mr.length =
          ap (λ r. r.right) m.lands.receiver ∙ inv.ends.3 in
        record {
          reach = m.reach;
          sends = record {
            sound = rw s.send_buf (IsSound-memory QE m.sends.sound a'.mem s.mem);
            queue = s.queue ∙ m.sends.queue;
            allocator = m.sends.allocator ∙ sym al;
          };
          lands = record {
            wire = m.lands.wire;
            placed = m.lands.placed;
            receiver = rw r.recv_buf m.lands.receiver;
            bytes = λ x low high.
                m.lands.bytes x low high
                ∙ apply-congr (writes n.posted) n.b.mem b'.mem x
                    (sym (r.mem x (omega arith) (omega arith)));
            queued = rw r.recv_buf m.lands.queued;
          };
          logs = record {
            held = m.logs.held;
            notes = rw r.release m.logs.notes;
            sent = m.logs.sent;
            got = m.logs.got;
          };
        }
