-- ===== src/Net/Reading.antt =====
-- What `recv_msg` finds, beside a link (src/connection/conn.rs, lines 120 to 128; src/types/mr.rs,
-- lines 320 to 333).
use mathlib.Core.List.{map-append}
use ibv.Prelude.{
  List-cases, inl, inr, ℕ, ◌+◌, ◌≤◌, ◌≡◌, refl, sym, ap, ◌∙◌, List, [], ◌∷◌, ◌++◌, arith, All,
  All-imp, some, map, length, add32, ◌-◌, u32_mod,
}
use ibv.Channel.{Mpsc}
use ibv.Memory.{Memory, load}
use ibv.Verbs.{Verbs}
use ibv.Ring.{Piece, Apart, place, advance, pieces}
use ibv.Ring.Overlap.{pieces-suffix}
use ibv.Ring.Pairs.{later-Apart}
use ibv.Mr.Region.{Mr}
use ibv.Mr.SendBufs.{Entry}
use ibv.Mr.RecvBufs.{RecvBuffer, read, IsValid}
use ibv.Mr.RecvBufs.Reading.{read-place}
use ibv.Daemon.Dispatch.{arrivals}
use ibv.Link.{Link, acknowledge}
use ibv.Link.Invariant.{Inv, join, lengths}
use ibv.Link.Sending.{prefix-index}
use ibv.Link.Receiving.{fits_buffer}
use ibv.Link.Delivery.{Registered, reached}
use ibv.Conn.{recv_msg}
use ibv.Net.{Net, Side}
use ibv.Net.Writes.{write_piece, apply, load-congr, load-apply}
use ibv.Net.Simulation.{Sim, writes, messages, reported}
use ibv.Net.Calls.{IsValid-rx, place-Within, recv_msg-some}

module _ (V : Verbs) (Q : Mpsc (ℕ × ℕ)) (QE : Mpsc Entry) (QR : Mpsc ℕ) (mr : Mr) (rx : Q.Chan)
    (mem : Memory) where
  abbrev SimOf : Net V Q QE QR → Link Q.Chan → Type 0
  SimOf = Sim V Q QE QR mr rx mem

  module _ (reg : Registered mr) {n : Net V Q QE QR} {l : Link Q.Chan} (m : SimOf n l) where
    pub inv : Inv mr.addr (mr.addr + mr.length) l
    inv = reached mr rx mem reg m.reach

    -- The writes that the cards have still to make leave the oldest message.
    unwritten-Apart :
        (b : List ℕ) (w : List (List ℕ))
        → n.written ≡ b ∷ w
        → All
            (λ p. Apart p (record {
              start = place mr.addr (mr.addr + mr.length) l.receiver.index (length b);
              size = length b;
            }))
            (map write_piece (writes n.posted))
    unwritten-Apart b w e =
        rw (m.lands.placed, e)
          (All-imp _ _ (λ p h. omega (arith, h)) _
            (pieces-suffix mr.addr (mr.addr + mr.length) (Apart oldest)
              (advance mr.addr (mr.addr + mr.length) l.receiver.index (length b)) (lengths w)
              (lengths (messages n.posted)) behind))
      where
        oldest : Piece
        oldest = record {
          start = place mr.addr (mr.addr + mr.length) l.receiver.index (length b);
          size = length b;
        }

        behind : All (Apart oldest) (
            pieces mr.addr
              (mr.addr + mr.length)
              (advance mr.addr (mr.addr + mr.length) l.receiver.index (length b))
              (lengths w ++ lengths (messages n.posted)))
        behind =
            rw (← map-append, ← prefix-index inv)
              (later-Apart mr.addr (mr.addr + mr.length) (join inv.batches ++ inv.un ++ l.held)
                (length b) (lengths (w ++ messages n.posted)) (rw (m.lands.wire, e) at inv.layout))

    -- `read` gives the same as in the link's memory.
    read-link :
        (b : List ℕ) (w : List (List ℕ)) (x : Q.Chan)
        → n.written ≡ b ∷ w
        → read n.b.mem (record l.receiver { rx = x }) (length b) ≡ (
          some b,
          record l.receiver {
            rx = x;
            index = advance mr.addr (mr.addr + mr.length) l.receiver.index (length b);
          },
        )
    read-link b w x e =
        read-place n.b.mem (record l.receiver { rx = x }) (length b) valid
          (fits_buffer inv (length b) small)
        ∙ rw (inv.ends.2, inv.ends.3, same) refl
      where
        wire : l.wire ≡ b ∷ w ++ messages n.posted
        wire = rw e at m.lands.wire

        small : mr.addr + length b ≤ mr.addr + mr.length
        small = (rw wire at inv.small_wire).0

        valid : IsValid (record l.receiver { rx = x })
        valid = IsValid-rx inv.agrees.valid x

        pos : ℕ
        pos = place mr.addr (mr.addr + mr.length) l.receiver.index (length b)

        bounds : (mr.addr ≤ pos) × (pos + length b ≤ mr.addr + mr.length)
        bounds =
            place-Within mr.addr (mr.addr + mr.length) l.receiver.index (length b)
              (omega (arith, inv.agrees.valid.index_low, inv.ends))
              (omega (arith, inv.agrees.valid.index_high, inv.ends)) small

        same : load n.b.mem pos (length b) ≡ b
        same =
            sym (load-apply (writes n.posted) n.b.mem pos (length b) (unwritten-Apart b w e))
            ∙ sym (
                load-congr l.mem (apply (writes n.posted) n.b.mem) pos (length b)
                  (λ y low high. m.lands.bytes y (omega (arith, bounds)) (omega (arith, bounds))))
            ∙ (rw wire at inv.stored).0

    abbrev pub read_on : List ℕ → Q.Chan → RecvBuffer Q.Chan
    read_on b x = record l.receiver {
      rx = x;
      index = advance mr.addr (mr.addr + mr.length) l.receiver.index (length b);
    }

    abbrev taken_side : List ℕ → ℕ → Q.Chan → Side V Q QE QR
    taken_side b imm x = record n.b {
      sending = add32 n.b.sending (u32_mod - 1);
      allocator = acknowledge n.b.allocator imm;
      recv_buf = read_on b x;
    }

    -- The oldest report is that of the oldest message, which `recv_msg` answers with.
    pub recv_msg-taken :
        (b : List ℕ) (w : List (List ℕ)) (len imm : ℕ) (x : Q.Chan)
        → n.written ≡ b ∷ w
        → Q.try_recv n.b.recv_buf.rx ≡ some ((len, imm), x)
        → Q.queued n.b.recv_buf.rx ≡ (len, imm) ∷ Q.queued x
        → (recv_msg V Q QE QR n.b ≡ some (some b, taken_side b imm x))
          × (reported (Q.queued x ++ arrivals n.arrivals) ≡ lengths w)
    recv_msg-taken b w len imm x e taken q =
        let ends : reported ((len, imm) ∷ Q.queued x ++ arrivals n.arrivals)
            ≡ length b ∷ lengths w =
          rw (q, e) at m.lands.queued in
        let same : len ≡ length b = cc ends in
        let base : record n.b.recv_buf { rx = x } ≡ record l.receiver { rx = x } =
          ap {A = RecvBuffer Q.Chan} (λ r. record r { rx = x }) m.lands.receiver in
        (
          recv_msg-some V Q QE QR n.b len imm x (some b) (read_on b x) taken
              (rw (same, base) (read-link b w x e)),
          cc ends,
        )

    -- Where a report waits, `recv_msg` returns and takes it off the channel.
    pub recv_msg-takes :
        (len imm : ℕ) (rest : List (ℕ × ℕ))
        → Q.queued n.b.recv_buf.rx ≡ (len, imm) ∷ rest
        → (b : List ℕ) × (w : List (List ℕ)) × (b' : Side V Q QE QR) × (n.written ≡ b ∷ w)
          × (recv_msg V Q QE QR n.b ≡ some (some b, b'))
          × (Q.queued b'.recv_buf.rx ≡ rest)
          × (Q.bound b'.recv_buf.rx ≡ Q.bound n.b.recv_buf.rx)
    recv_msg-takes len imm rest q = elim (List-cases n.written) [
      | inl e ↦
          let ends : reported ((len, imm) ∷ rest ++ arrivals n.arrivals) ≡ [] =
            rw (q, e) at m.lands.queued in
          cc ends
      | inr (b, w, e) ↦
          let (x, taken, left, kept) = Q.try_recv-cons n.b.recv_buf.rx (len, imm) rest q in
          (
            b,
            w,
            taken_side b imm x,
            e,
            (recv_msg-taken b w len imm x e taken (rw left q)).0,
            left,
            kept,
          )
    ]
