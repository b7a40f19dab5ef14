-- ===== src/Net/Receiving.antt =====
-- The receiver takes a message, beside a link (src/connection/conn.rs, lines 120 to 128).
use mathlib.Core.Option.{some-injective}
use ibv.Prelude.{
  ℕ, ◌+◌, ◌≡◌, refl, sym, ap, ◌∙◌, inl, inr, List, [], ◌∷◌, ◌++◌, some, length, Option,
}
use ibv.Channel.{Mpsc}
use ibv.Channel.Cases.{try_recv-cases}
use ibv.Memory.{Memory}
use ibv.Verbs.{Verbs}
use ibv.Ring.{advance}
use ibv.Mr.Region.{Mr}
use ibv.Mr.SendBufs.{Entry}
use ibv.Mr.RecvBufs.{read}
use ibv.Daemon.Dispatch.{arrivals}
use ibv.Link
use ibv.Link.{Link, Reach, start, acknowledge, to_notes}
use ibv.Link.Invariant.{Inv, lengths}
use ibv.Link.Receiving.{read-wire}
use ibv.Link.Delivery.{Registered, reached}
use ibv.Conn.{recv_msg}
use ibv.Net.{Net, Side}
use ibv.Net.Simulation.{Sim, messages, reported}
use ibv.Net.Calls.{rx_own, recv_msg-none}
use ibv.Net.Reading.{read_on, recv_msg-taken}

module _ (V : Verbs) (Q : Mpsc (ℕ × ℕ)) (QE : Mpsc Entry) (QR : Mpsc ℕ) (mr : Mr) (rx : Q.Chan)
    (mem : Memory) where
  abbrev SimOf : Net V Q QE QR → Link Q.Chan → Type 0
  SimOf = Sim V Q QE QR mr rx mem

  module _ (reg : Registered mr) {n : Net V Q QE QR} {l : Link Q.Chan} (m : SimOf n l) where
    inv : Inv mr.addr (mr.addr + mr.length) l
    inv = reached mr rx mem reg m.reach

    -- `recv_msg` answers with the oldest message.
    recv_msg-oldest :
        (b : List ℕ) (w : List (List ℕ)) (answer : Option (List ℕ)) (b' : Side V Q QE QR)
        → n.written ≡ b ∷ w
        → recv_msg V Q QE QR n.b ≡ some (answer, b')
        → (x : Q.Chan) × (answer ≡ some b)
          × (b'.recv_buf ≡ read_on V Q QE QR mr rx mem reg m b x)
          × (b'.mem ≡ n.b.mem)
          × (b'.release ≡ n.b.release)
          × (reported (Q.queued x ++ arrivals n.arrivals) ≡ lengths w)
    recv_msg-oldest b w answer b' e h = elim (try_recv-cases Q n.b.recv_buf.rx) [
      | inl (_, nil) ↦ cc (recv_msg-none V Q QE QR n.b nil, h)
      | inr ((len, imm), x, taken, q) ↦
          let (answers, left) = recv_msg-taken V Q QE QR mr rx mem reg m b w len imm x e taken q in
          let what = some-injective _ _ (sym h ∙ answers) in
          (
            x,
            ap (λ y. y.0) what,
            ap (λ y. y.1.recv_buf) what,
            ap (λ y. y.1.mem) what,
            ap (λ y. y.1.release) what,
            left,
          )
    ]

    -- The link receives the message.
    pub Sim-recv :
        (b : List ℕ) (w : List (List ℕ)) (answer : Option (List ℕ)) (b' : Side V Q QE QR)
        → n.written ≡ b ∷ w
        → recv_msg V Q QE QR n.b ≡ some (answer, b')
        → SimOf
            (record n {
              b = b';
              written = w;
              held = n.held ++ length b ∷ [];
              got = n.got ++ answer ∷ [];
            })
            (record l {
              receiver = (read l.mem l.receiver (length b)).1;
              wire = w ++ messages n.posted;
              held = l.held ++ length b ∷ [];
              got = l.got ++ (read l.mem l.receiver (length b)).0 ∷ [];
            })
    Sim-recv b w answer b' e h = record {
      reach = Link.later m.reach (Link.recv b (w ++ messages n.posted) wire);
      sends = m.sends;
      lands = rw (ap (λ x. x.1) what) (record {
        receiver =
            rx_own b'.recv_buf
              (record l.receiver {
                index = advance mr.addr (mr.addr + mr.length) l.receiver.index (length b);
              })
              x recv_buf;
        bytes = rw mem_kept m.lands.bytes;
        wire = refl;
        queued = rw recv_buf left;
        placed = rw e at m.lands.placed;
      });
      logs = record {
        held = rw m.logs.held refl;
        notes = rw release_kept m.logs.notes;
        sent = m.logs.sent;
        got = rw (m.logs.got, said, what) refl;
      };
    }
      where
        open (recv_msg-oldest b w answer b' e h) use {
          0 as x, 1 as said, 2 as recv_buf, 3 as mem_kept, 4 as release_kept, 5 as left,
        }

        wire : l.wire ≡ b ∷ w ++ messages n.posted
        wire = rw e at m.lands.wire

        what : read l.mem l.receiver (length b) ≡ (
          some b,
          record l.receiver {
            index = advance mr.addr (mr.addr + mr.length) l.receiver.index (length b);
          },
        )
        what = read-wire inv b (w ++ messages n.posted) wire
