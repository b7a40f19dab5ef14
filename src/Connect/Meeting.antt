-- ===== src/Connect/Meeting.antt =====
-- Two connections that have come up for each other (src/connection/conn.rs).
use ibv.Prelude.{ℕ, Bool, ◌≡◌, [], ◌++◌, map, some}
use ibv.Channel.{Mpsc}
use ibv.Defaults.{default_rqe_count}
use ibv.Verbs.{Verbs}
use ibv.Mr.Region.{Mr, RemoteMr, from_mr}
use ibv.Mr.RemoteBufs
use ibv.Mr.RecvBufs
use ibv.Mr.SendBufs.{Entry}
use ibv.Link.Delivery.{Registered}
use ibv.Net.{Net, Reach}
use ibv.Net.Simulation.{messages}
use ibv.Net.Refines.{begin, IsReady, got-posted}
use ibv.Conn.{ConnOf}
use ibv.Connect.Coming.{IsUp}

module _ (V : Verbs) (Q : Mpsc (ℕ × ℕ)) (QE : Mpsc Entry) (QR : Mpsc ℕ) where
  IsUp-IsReady :
      (own_a send_a own_b send_b : Mr) (flags_a flags_b : ℕ → Bool) (peer : RemoteMr)
      (a b : ConnOf V Q QE QR)
      → IsUp V Q QE QR own_a send_a flags_a (from_mr own_b) a
      → IsUp V Q QE QR own_b send_b flags_b peer b
      → V.send_queue a.dev ≡ []
      → IsReady V Q QE QR own_b (Q.channel default_rqe_count) a b
  unfolding RemoteBufs.new RecvBufs.new
  IsUp-IsReady own_a send_a own_b send_b flags_a flags_b peer a b up_a up_b unsent = record {
    valid = up_a.valid;
    unsent = unsent;
    allocator = up_a.allocator;
    recv_buf = up_b.recv_buf;
    unread = Q.queued-channel default_rqe_count;
    unreported = up_b.unreported;
  }

  -- If two connections have come up for each other with nothing in the send queue of the first,
  -- and the region of the second is shorter than 2 ^ 32 bytes and ends 2 ^ 32 bytes below the
  -- end of the address space, then in every state that they and the cards reach with messages
  -- shorter than 2 ^ 32 bytes, each write taken by the device and nothing run between the two
  -- loads of a test of an allocator, the second has got the messages that the first has posted,
  -- in order and byte for byte, but for those that it has still to receive.
  pub met-got_posted :
      (own_a send_a own_b send_b : Mr) (flags_a flags_b : ℕ → Bool) (peer : RemoteMr)
      (a b : ConnOf V Q QE QR) {n : Net V Q QE QR}
      → Registered own_b
      → IsUp V Q QE QR own_a send_a flags_a (from_mr own_b) a
      → IsUp V Q QE QR own_b send_b flags_b peer b
      → V.send_queue a.dev ≡ []
      → Reach V Q QE QR (begin V Q QE QR a b) n
      → n.got ++ map some (n.written ++ messages n.posted) ≡ map some n.sent
  met-got_posted own_a send_a own_b send_b flags_a flags_b peer a b reg up_a up_b unsent r =
      got-posted V Q QE QR own_b (Q.channel default_rqe_count) a b reg
        (IsUp-IsReady own_a send_a own_b send_b flags_a flags_b peer a b up_a up_b unsent) r
