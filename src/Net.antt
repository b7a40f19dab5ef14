-- ===== src/Net.antt =====
-- Two connections and the network between them (src/connection/conn.rs, src/connection/daemon.rs,
-- src/types/qp.rs), as far as the messages from `a` to `b` and the reports back concern. A step is a
-- call of one side that does not wait, a step of a task, or a transfer by the network cards. A message is
-- shorter than 2 ^ 32 bytes, the device takes each write, and a call of an allocator returns in its first
-- test, with nothing run between the two loads of this test.
pub mod Writes
pub mod Outgoing
pub mod Reserving
pub mod Sender
pub mod Simulation
pub mod Local
pub mod Posting
pub mod Transfer
pub mod Calls
pub mod Reading
pub mod Receiving
pub mod Returning
pub mod Refines
pub mod Refused
pub mod Draining
mod Tests
use ibv.Prelude.{
  ℕ, ◌+◌, ◌≤◌, ◌<◌, ◌≡◌, Option, none, some, List, [], ◌∷◌, ◌++◌, map, ◌==◌, if◌then◌else◌, length,
  sum, u32_mod, Bool,
}
use ibv.Memory.{Memory, load, store}
use ibv.Channel.{Mpsc}
use ibv.Verbs.{IbvSendWr, IbvWc, Verbs}
use ibv.Mr.Region.{IbvSge, LocalBuf, RemoteBuf}
use ibv.Mr.RemoteBufs
use ibv.Mr.RemoteBufs.{RemoteBufManager}
use ibv.Mr.RemoteBufs.Waiting
use ibv.Mr.SendBufs.{Entry, complete, task, event}
use ibv.Mr.SendBufs.Waiting.{quiet}
use ibv.Qp.Requests.{write_request}
use ibv.Link.{acknowledge}
use ibv.Daemon.{dispatch}
use ibv.Conn.{Conn, ConnOf, total_len, reserve, post, admit, recv_msg, release}
use ibv.Conn.Copying.{joined}

-- A message of `send_msg` behind `reserve`: its piece of the send buffer and its flag.
pub record Ticket : Type 0 where
  pub local_buf : LocalBuf
  pub flag : ℕ
  pub msg : List (List ℕ)

-- A message behind `post`.
pub record Posted : Type 0 where
  pub ticket : Ticket
  pub remote : RemoteBuf
  pub imm : ℕ

abbrev pub bytes_of : Posted → List ℕ
bytes_of p = joined p.ticket.msg

abbrev pub request : Posted → IbvSendWr
request p = write_request p.ticket.local_buf p.remote p.imm p.ticket.flag

abbrev pub tickets_of : List Posted → List Ticket
tickets_of = map (λ p. p.ticket)

-- How often a flag stands in a list, and among messages.
abbrev pub count : ℕ → List ℕ → ℕ
count f [] = 0
count f (x ∷ xs) = (if f == x then 1 else 0) + count f xs

abbrev pub ticket_count : ℕ → List Ticket → ℕ
ticket_count f [] = 0
ticket_count f (t ∷ ts) = (if f == t.flag then 1 else 0) + ticket_count f ts

-- The bytes that a card reads for a request, and the completion that its write raises at the peer.
abbrev pub gather : Memory → List IbvSge → List ℕ
gather mem [] = []
gather mem (s ∷ sges) = load mem s.addr s.length ++ gather mem sges

abbrev pub sge_sum : List IbvSge → ℕ
sge_sum [] = 0
sge_sum (s ∷ sges) = s.length + sge_sum sges

abbrev pub arrival_of : IbvSendWr → IbvWc
arrival_of wr = record {
  wr_id = 0;
  status = 0;
  opcode = 129;
  imm_data = wr.imm_data;
  wc_flags = 3;
  byte_len = sge_sum wr.sg_list;
}

module _ (V : Verbs) (Q : Mpsc (ℕ × ℕ)) (QE : Mpsc Entry) (QR : Mpsc ℕ) where
  abbrev pub Side : Type 0
  Side = ConnOf V Q QE QR

  -- `waiting` are the messages between `reserve` and `post`, `posted` those in the send queue of
  -- `a`, `arrivals` the completions in the queue of `b`, `completions` the flags of the writes that
  -- are transferred and whose completion `a` has not taken, `carried` the reports on their way to `a`.
  -- `written` are the messages in the buffer of `b` that it has not received, `held` the lengths of
  -- those that it has received and not released; `sent` and `got` record the messages that `a` has
  -- posted and the answers that `b` has got.
  pub record Net : Type 0 where
    pub a : Side
    pub b : Side
    pub waiting : List Ticket
    pub posted : List Posted
    pub completions : List ℕ
    pub arrivals : List IbvWc
    pub written : List (List ℕ)
    pub held : List ℕ
    pub carried : List ℕ
    pub sent : List (List ℕ)
    pub got : List (Option (List ℕ))

  -- The flag is none of those that are in use: `Arc::new` gives a new address.
  abbrev pub IsFresh : ℕ → Net → Type 0
  IsFresh f n =
      ticket_count f n.waiting + ticket_count f (tickets_of n.posted) + count f n.completions ≡ 0

  -- What the rest of the program does to `a`: all that the sending of messages rests on stays. The
  -- reports that `recv_msg` gets may move the allocator.
  pub record SameSender (a a' : Side) : Type 0 where
    pub send_buf : a'.send_buf ≡ a.send_buf
    pub queue : V.send_queue a'.dev ≡ V.send_queue a.dev
    pub mem : (x : ℕ) → a.send_buf.left ≤ x → x < a.send_buf.right → a'.mem x ≡ a.mem x

  -- What it does to `b`: the receive buffer stays as it is.
  pub record SameReceiver (b b' : Side) : Type 0 where
    pub recv_buf : b'.recv_buf ≡ b.recv_buf
    pub release : b'.release ≡ b.release
    pub mem : (x : ℕ) → b.recv_buf.left ≤ x → x < b.recv_buf.right → b'.mem x ≡ b.mem x

  pub data Step (n : Net) : Net → Type 0 where
    -- `reserve` with a new flag, where its allocator need not wait
    reserve_step :
        (flag : ℕ) (msg : List (List ℕ)) (l : LocalBuf) (wr_id : ℕ) (a' : Side)
        → total_len msg < u32_mod
        → IsFresh flag n
        → reserve V Q QE QR (quiet ([] ∷ [])) n.a flag msg ≡ some (l, wr_id, a')
        → Step n (record n {
          a = a';
          waiting = n.waiting ++ record { local_buf = l; flag = wr_id; msg = msg } ∷ [];
        })
    -- `post` where its allocator need not wait and the device takes the write
    post_step :
        (xs ys : List Ticket) (t : Ticket) (imm : ℕ) (r : RemoteBuf) (m : RemoteBufManager)
        (a' : Side)
        → n.waiting ≡ xs ++ t ∷ ys
        → RemoteBufs.alloc (Waiting.quiet ([] ∷ [])) n.a.allocator (total_len t.msg) ≡ some (r, m)
        → post V Q QE QR (Waiting.quiet ([] ∷ [])) n.a t.local_buf t.flag imm t.msg ≡ some a'
        → (V.post_send n.a.dev (write_request t.local_buf r imm t.flag)).0 ≡ 0
        → Step n (record n {
          a = a';
          waiting = xs ++ ys;
          posted = n.posted ++ record { ticket = t; remote = r; imm = imm } ∷ [];
          sent = n.sent ++ joined t.msg ∷ [];
        })
    -- the cards transfer the oldest request
    transfer :
        (p : Posted) (ps : List Posted) (wr : IbvSendWr) (rest : List IbvSendWr) (dev : V.Dev)
        → n.posted ≡ p ∷ ps
        → V.send_queue n.a.dev ≡ wr ∷ rest
        → V.send_queue dev ≡ rest
        → Step n (record n {
          a = record n.a { dev = dev };
          b = record n.b { mem = store n.b.mem wr.remote_addr (gather n.a.mem wr.sg_list) };
          posted = ps;
          completions = n.completions ++ wr.wr_id ∷ [];
          arrivals = n.arrivals ++ arrival_of wr ∷ [];
          written = n.written ++ bytes_of p ∷ [];
        })
    -- the polling task of `a` takes the completion of a write
    complete_step :
        (f : ℕ) (fs : List ℕ)
        → n.completions ≡ f ∷ fs
        → Step n (record n {
          a = record n.a { send_buf = event QE n.a.send_buf (complete f) };
          completions = fs;
        })
    task_step : Step n (record n { a = record n.a { send_buf = event QE n.a.send_buf task } })
    -- the polling task of `b` takes an arrival
    poll_step :
        (wc : IbvWc) (wcs : List IbvWc) (dev : V.Dev) (tx : Q.Chan) (flags : ℕ → Bool)
        → n.arrivals ≡ wc ∷ wcs
        → dispatch V Q
            (record { dev = n.b.dev; tx = n.b.recv_buf.rx; flags = n.b.send_buf.flags })
            wc
          ≡ some (record { dev = dev; tx = tx; flags = flags })
        → Step n (record n {
          b = record n.b {
            dev = dev;
            recv_buf = record n.b.recv_buf { rx = tx };
            send_buf = record n.b.send_buf { flags = flags };
          };
          arrivals = wcs;
        })
    recv_step :
        (m : List ℕ) (w : List (List ℕ)) (answer : Option (List ℕ)) (b' : Side)
        → n.written ≡ m ∷ w
        → recv_msg V Q QE QR n.b ≡ some (answer, b')
        → Step n (record n {
          b = b';
          written = w;
          held = n.held ++ length m ∷ [];
          got = n.got ++ answer ∷ [];
        })
    release_step :
        (k : ℕ) (h : List ℕ) (b' : Side)
        → n.held ≡ k ∷ h
        → release V Q QE QR n.b k ≡ some b'
        → Step n (record n { b = b'; held = h })
    -- a message of `b` takes a report with it
    carry_step :
        (k : ℕ) (ks : List ℕ) (b' : Side)
        → QR.queued n.b.release ≡ k ∷ ks
        → admit V Q QE QR n.b ≡ some (k, b')
        → Step n (record n { b = b'; carried = n.carried ++ k ∷ [] })
    -- `a` receives this message
    report_step :
        (k : ℕ) (ks : List ℕ) (a' : Side)
        → n.carried ≡ k ∷ ks
        → SameSender n.a a'
        → a'.allocator ≡ acknowledge n.a.allocator k
        → Step n (record n { a = a'; carried = ks })
    other_step :
        (a' b' : Side)
        → SameSender n.a a'
        → a'.allocator ≡ n.a.allocator
        → SameReceiver n.b b'
        → Step n (record n { a = a'; b = b' })

  pub data Reach (n : Net) : Net → Type 0 where
    here : Reach n n
    later : {k j : Net} → Reach n k → Step k j → Reach n j
