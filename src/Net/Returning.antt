-- ===== src/Net/Returning.antt =====
-- The receiver releases a message, and the report goes to the sender, beside a link
-- (src/connection/conn.rs, lines 104 to 145).
use ibv.Prelude.{
  ℕ, ◌+◌, ◌≤◌, ◌≡◌, refl, sym, ap, ◌∙◌, List, ◌∷◌, ◌++◌, arith, some, append_assoc, as_u32,
}
use ibv.Channel.{Mpsc}
use ibv.Memory.{Memory}
use ibv.Verbs.{Verbs}
use ibv.Mr.Region.{Mr}
use ibv.Mr.SendBufs.{Entry}
use ibv.Mr.RecvBufs.{notify_release}
use ibv.Mr.RecvBufs.Releasing.{notify_release-frame}
use ibv.Link
use ibv.Link.{Link, Reach, start, acknowledge, to_notes}
use ibv.Link.Invariant.{Inv}
use ibv.Link.Delivery.{Registered, reached}
use ibv.Conn.{release}
use ibv.Net.{Net, Side, SameSender}
use ibv.Net.Sender.{IsSound-memory}
use ibv.Net.Simulation.{Sim}
use ibv.Net.Calls.{notify_release-rx, rx_own, release-some}

module _ (V : Verbs) (Q : Mpsc (ℕ × ℕ)) (QE : Mpsc Entry) (QR : Mpsc ℕ) (mr : Mr) (rx : Q.Chan)
    (mem : Memory) where
  abbrev SimOf : Net V Q QE QR → Link Q.Chan → Type 0
  SimOf = Sim V Q QE QR mr rx mem

  module _ (reg : Registered mr) {n : Net V Q QE QR} {l : Link Q.Chan} (m : SimOf n l) where
    inv : Inv mr.addr (mr.addr + mr.length) l
    inv = reached mr rx mem reg m.reach

    -- The link releases the oldest message that is held.
    pub Sim-release :
        (k : ℕ) (h : List ℕ) (b' : Side V Q QE QR)
        → n.held ≡ k ∷ h
        → release V Q QE QR n.b k ≡ some b'
        → SimOf
            (record n { b = b'; held = h })
            (record l {
              receiver = (notify_release l.receiver k).1;
              held = h;
              notes = l.notes ++ to_notes (notify_release l.receiver k).0;
            })
    Sim-release k h b' e done = record {
      reach = Link.later m.reach (Link.release k h (m.logs.held ∙ e));
      sends = m.sends;
      lands = record {
        receiver = rx_own b'.recv_buf (notify_release l.receiver k).1 n.b.recv_buf.rx now;
        bytes = rw mem_kept m.lands.bytes;
        wire = m.lands.wire;
        queued = rw (ap (λ q. q.rx) now) m.lands.queued;
        placed = rw (notify_release-frame l.receiver k).0 m.lands.placed;
      };
      logs = record {
        held = refl;
        notes =
            rw (more, ap (λ x. x.0) same, m.logs.notes)
              (append_assoc n.carried (QR.queued n.b.release)
                (to_notes (notify_release l.receiver k).0));
        sent = m.logs.sent;
        got = m.logs.got;
      };
    }
      where
        fits : mr.addr + k ≤ mr.addr + mr.length
        fits = (rw (m.logs.held, e) at inv.small_held).0

        whole : as_u32 k ≡ k
        whole = omega (arith, fits, reg)

        same : notify_release n.b.recv_buf (as_u32 k) ≡ (
          (notify_release l.receiver k).0,
          record (notify_release l.receiver k).1 { rx = n.b.recv_buf.rx },
        )
        same = rw (whole, m.lands.receiver) (notify_release-rx l.receiver n.b.recv_buf.rx k)

        open (release-some V Q QE QR n.b k done) use {0 as recv_buf, 1 as more, 2 as mem_kept}

        now : b'.recv_buf ≡ record (notify_release l.receiver k).1 { rx = n.b.recv_buf.rx }
        now = recv_buf ∙ ap (λ x. x.1) same

    -- A report arrives.
    pub Sim-report :
        (k : ℕ) (ks : List ℕ) (a' : Side V Q QE QR)
        → n.carried ≡ k ∷ ks
        → SameSender V Q QE QR n.a a'
        → a'.allocator ≡ acknowledge n.a.allocator k
        → SimOf
            (record n { a = a'; carried = ks })
            (record l { sender = acknowledge l.sender k; notes = ks ++ QR.queued n.b.release })
    Sim-report k ks a' e s at = record {
      reach =
          Link.later m.reach (Link.deliver k (ks ++ QR.queued n.b.release) (rw e at m.logs.notes));
      sends = record {
        sound = rw s.send_buf (IsSound-memory QE m.sends.sound a'.mem s.mem);
        queue = s.queue ∙ m.sends.queue;
        allocator = rw m.sends.allocator (sym at);
      };
      lands = record {
        receiver = m.lands.receiver;
        bytes = m.lands.bytes;
        wire = m.lands.wire;
        queued = m.lands.queued;
        placed = m.lands.placed;
      };
      logs = record { held = m.logs.held; notes = refl; sent = m.logs.sent; got = m.logs.got };
    }
