-- ===== src/Net/Transfer.antt =====
-- The cards' transfer of a write (src/types/qp.rs, lines 242 to 255), beside a link.
use mathlib.Core.List.{map-append}
use ibv.Prelude.{
  ℕ, ◌+◌, ◌≤◌, ◌<◌, ◌≡◌, refl, ap, List, [], ◌∷◌, ◌++◌, arith, map, length, append_assoc,
  append-nil,
}
use ibv.Channel.{Mpsc}
use ibv.Memory.{Memory, store}
use ibv.Verbs.{Verbs, IbvWc, IbvSendWr}
use ibv.Ring.{place, advance, advance_all, pieces}
use ibv.Ring.Moves.{advance_all-append}
use ibv.Mr.Region.{Mr}
use ibv.Mr.SendBufs.{Entry}
use ibv.Daemon.Dispatch.{arrivals}
use ibv.Link.{Link}
use ibv.Link.Invariant.{lengths}
use ibv.Link.Delivery.{Registered}
use ibv.Conn.Copying.{length-joined}
use ibv.Net.{Net, Posted, bytes_of, request, gather, arrival_of}
use ibv.Net.Writes.{write_piece, apply}
use ibv.Net.Outgoing.{Holds}
use ibv.Net.Sender.{IsSound-transfer}
use ibv.Net.Simulation.{Sim, writes, messages, write_of}

arrivals-append : (xs ys : List IbvWc) → arrivals (xs ++ ys) ≡ arrivals xs ++ arrivals ys
arrivals-append [] ys = refl
arrivals-append (x ∷ xs) ys = ground (arith, arrivals-append xs ys)

module _ (V : Verbs) (Q : Mpsc (ℕ × ℕ)) (QE : Mpsc Entry) (QR : Mpsc ℕ) (mr : Mr) (rx : Q.Chan)
    (mem : Memory) where
  abbrev SimOf : Net V Q QE QR → Link Q.Chan → Type 0
  SimOf = Sim V Q QE QR mr rx mem

  module _ (reg : Registered mr) {n : Net V Q QE QR} {l : Link Q.Chan} (m : SimOf n l) where
    -- The transfer of the oldest request.
    pub Sim-transfer :
        (p : Posted) (ps : List Posted) (wr : IbvSendWr) (rest : List IbvSendWr) (dev : V.Dev)
        → n.posted ≡ p ∷ ps
        → V.send_queue n.a.dev ≡ wr ∷ rest
        → V.send_queue dev ≡ rest
        → SimOf
            (record n {
              a = record n.a { dev = dev };
              b = record n.b { mem = store n.b.mem wr.remote_addr (gather n.a.mem wr.sg_list) };
              posted = ps;
              completions = n.completions ++ wr.wr_id ∷ [];
              arrivals = n.arrivals ++ arrival_of wr ∷ [];
              written = n.written ++ bytes_of p ∷ [];
            })
            l
    Sim-transfer p ps wr rest dev e q moved = rw oldest (record {
      reach = m.reach;
      sends = record {
        sound = IsSound-transfer QE m.sends.sound p ps e;
        queue = cc (q, queue, moved);
        allocator = m.sends.allocator;
      };
      lands = record {
        receiver = m.lands.receiver;
        bytes = λ x low high. rw (append-nil, h.content) (bytes x low high);
        wire = rw append_assoc (rw e at m.lands.wire);
        queued =
            rw (arrivals-append, ← append_assoc, map-append, m.lands.queued, map-append)
              (ap (λ k. lengths n.written ++ k ∷ []) size);
        placed = rw (map-append, advance_all-append) (cc placed);
      };
      logs = m.logs;
    })
      where
        h : Holds QE n.a.send_buf n.a.mem p.ticket
        h = (rw e at m.sends.sound.posted_hold).0

        size : p.ticket.local_buf.length + 0 ≡ length (bytes_of p)
        size = omega (arith, h.size, length-joined p.ticket.msg)

        queue : V.send_queue n.a.dev ≡ request p ∷ map request ps
        queue = rw e at m.sends.queue

        oldest : wr ≡ request p
        oldest = cc (q, queue)

        bytes :
            (x : ℕ)
            → mr.addr ≤ x
            → x < mr.addr + mr.length
            → l.mem x ≡ apply (writes ps) (store n.b.mem p.remote.addr (bytes_of p)) x
        bytes = rw e at m.lands.bytes

        placed :
            let left = mr.addr in
            let right = mr.addr + mr.length in
            let pos = advance_all left right l.receiver.index (lengths n.written) in
            write_piece (write_of p) ∷ map write_piece (writes ps)
            ≡ record {
              start = place left right pos (length (bytes_of p));
              size = length (bytes_of p);
            }
              ∷ pieces left right
                  (advance left right pos (length (bytes_of p)))
                  (lengths (messages ps))
        placed = rw e at m.lands.placed
