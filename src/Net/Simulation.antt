-- ===== src/Net/Simulation.antt =====
-- Two connections and the network beside a link (src/connection/conn.rs, src/connection/daemon.rs):
-- the relation between their states.
use ibv.Prelude.{Option, ℕ, ◌+◌, ◌≤◌, ◌<◌, ◌≡◌, List, ◌++◌, map}
use ibv.Channel.{Mpsc}
use ibv.Memory.{Memory}
use ibv.Verbs.{Verbs, IbvWc}
use ibv.Ring.{advance_all, pieces}
use ibv.Mr.Region.{Mr}
use ibv.Mr.RemoteBufs.{RemoteBufManager}
use ibv.Mr.SendBufs.{Entry}
use ibv.Daemon.Dispatch.{arrivals}
use ibv.Link.{Link, Reach, start}
use ibv.Link.Invariant.{lengths}
use ibv.Net.{Net, Side, Posted, Ticket, bytes_of, request}
use ibv.Net.Writes.{Write, write_piece, apply}
use ibv.Net.Sender.{IsSound}

-- where a card writes a message
abbrev pub write_of : Posted → Write
write_of p = (p.remote.addr, bytes_of p)

abbrev pub writes : List Posted → List Write
writes = map write_of

abbrev pub messages : List Posted → List (List ℕ)
messages = map bytes_of

abbrev pub reported : List (ℕ × ℕ) → List ℕ
reported = map (λ x. x.0)

module _ (V : Verbs) (Q : Mpsc (ℕ × ℕ)) (QE : Mpsc Entry) (QR : Mpsc ℕ) (mr : Mr) (rx : Q.Chan)
    (mem : Memory) where
  abbrev NetOf : Type 0
  NetOf = Net V Q QE QR

  -- The sender, with its messages under way.
  pub record Sends (a : Side V Q QE QR) (waiting : List Ticket) (posted : List Posted)
      (completions : List ℕ) (sender : RemoteBufManager) : Type 0 where
    pub sound : IsSound QE a.send_buf a.mem waiting posted completions
    pub queue : V.send_queue a.dev ≡ map request posted
    pub allocator : sender ≡ a.allocator

  -- The link has all posted messages on its wire and in its memory; the cards have still to write
  -- those in the send queue.
  pub record Lands (b : Side V Q QE QR) (posted : List Posted) (arrived : List IbvWc)
      (written : List (List ℕ)) (l : Link Q.Chan) : Type 0 where
    pub receiver : b.recv_buf ≡ record l.receiver { rx = b.recv_buf.rx }
    pub bytes :
        (x : ℕ) → mr.addr ≤ x → x < mr.addr + mr.length → l.mem x ≡ apply (writes posted) b.mem x
    pub wire : l.wire ≡ written ++ messages posted
    pub queued : reported (Q.queued b.recv_buf.rx ++ arrivals arrived) ≡ lengths written
    pub placed :
        map write_piece (writes posted)
        ≡ pieces mr.addr
            (mr.addr + mr.length)
            (advance_all mr.addr (mr.addr + mr.length) l.receiver.index (lengths written))
            (lengths (messages posted))

  pub record Logs (lens carried : List ℕ) (release : QR.Chan) (messages : List (List ℕ))
      (answers : List (Option (List ℕ))) (l : Link Q.Chan) : Type 0 where
    pub held : l.held ≡ lens
    pub notes : l.notes ≡ carried ++ QR.queued release
    pub sent : l.sent ≡ messages
    pub got : l.got ≡ answers

  pub record Sim (n : NetOf) (l : Link Q.Chan) : Type 0 where
    pub reach : Reach (start mr rx mem) l
    pub sends : Sends n.a n.waiting n.posted n.completions l.sender
    pub lands : Lands n.b n.posted n.arrivals n.written l
    pub logs : Logs n.held n.carried n.b.release n.sent n.got l
