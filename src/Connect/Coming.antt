-- ===== src/Connect/Coming.antt =====
-- What a connection is when it comes up (src/connection/conn.rs, lines 55 to 83 and 154 to 203).
use mathlib.Core.Path.{ap₂}
use ibv.Prelude.{
  sym, ℕ, ◌+◌, ◌*◌, ◌≤◌, ◌≡◌, refl, Bool, true, false, Option, some, List, [], ◌++◌, arith, u32_mod,
  u64_mod, as_u32, add64, none,
}
use ibv.Defaults.{
  max_sending, default_rqe_count, default_recv_buffer_size, default_send_buffer_size,
}
use ibv.Channel.{Mpsc}
use ibv.Memory.{Memory}
use ibv.Verbs.{Verbs}
use ibv.Ring.{flat}
use ibv.Mr.Region.{IbvMr, IbvAccessFlags, Mr, RemoteMr, mr_access, new_mr, from_mr, local_of_mr}
use ibv.Mr.RemoteBufs
use ibv.Mr.RemoteBufs.{RemoteBufManager}
use ibv.Mr.SendBufs
use ibv.Mr.SendBufs.{Entry, SendBuffer, Inv}
use ibv.Mr.RecvBufs
use ibv.Mr.RecvBufs.{RecvBuffer}
use ibv.Qp.Attributes.{EndPoint, QpVerbs, Tcp, Bincode}
use ibv.Qp.Setup.{init, endpoint, size_of_remote_mr, exchange, ready_to_send, ready_to_receive}
use ibv.Qp.Handshake.{exchange-handshake}
use ibv.Conn
use ibv.Conn.{ConnOf}
use ibv.Conn.Returning.{post_null_recvs-total}
use ibv.Connect.{Places, exchange_recv_buf, new_send_buf, establish}

-- `ibv_reg_mr` has registered the buffer of `len` bytes at `at`.
pub record IsRegion (at len : ℕ) (m : IbvMr) : Type 0 where
  pub addr : m.addr ≡ at
  pub length : m.length ≡ len

-- the program's view of a region
abbrev pub region_of : IbvMr → Mr
region_of m = record {
  inner = m.handle;
  addr = m.addr;
  length = as_u32 m.length;
  lkey = m.lkey;
  rkey = m.rkey;
}

new_mr-some :
    (reg_mr : ℕ → ℕ → ℕ → List IbvAccessFlags → Option IbvMr) (pd at len : ℕ) (m : IbvMr)
    → reg_mr pd at len mr_access ≡ some m
    → new_mr reg_mr pd at len ≡ some (region_of m)
unfolding new_mr
new_mr-some reg_mr pd at len m e = rw (e, new_mr) refl

-- A send buffer that nothing has used.
new-Inv :
    (Q : Mpsc Entry) (at : ℕ) (m : IbvMr) (flags : ℕ → Bool)
    → IsRegion at default_send_buffer_size m
    → at + default_send_buffer_size + u32_mod ≤ u64_mod
    → Inv Q (SendBufs.new Q (region_of m) flags)
unfolding SendBufs.new local_of_mr
new-Inv Q at m flags r room = record {
  layout =
      rw (Q.queued-channel _) (flat (omega arith) (omega arith) (ground (arith, r.addr, r.length)));
  headroom = ground (arith, r.addr, r.length);
  short = ground (arith, r.addr, r.length);
}

module _ (V : Verbs) (Q : Mpsc (ℕ × ℕ)) (QE : Mpsc Entry) (QR : Mpsc ℕ) where
  -- A connection that has come up, beside its regions, the flags of its process and the region
  -- of its peer: all counters stand at the starts of the buffers, and nothing is in use.
  pub record IsUp (own send : Mr) (flags : ℕ → Bool) (peer : RemoteMr) (c : ConnOf V Q QE QR)
      : Type 0 where
    pub valid : Inv QE c.send_buf
    pub send_buf : c.send_buf ≡ record {
      mr = send;
      done = send.addr;
      index = send.addr;
      left = send.addr;
      right = add64 send.addr send.length;
      to_release = QE.channel (2 * max_sending);
      holding = none;
      flags = flags;
    }
    pub no_entry : QE.queued c.send_buf.to_release ≡ []
    pub allocator : c.allocator ≡ record {
      done = peer.addr;
      index = peer.addr;
      left = peer.addr;
      right = add64 peer.addr peer.length;
      mr = peer;
    }
    pub recv_buf : c.recv_buf ≡ record {
      mr = own;
      rx = Q.channel default_rqe_count;
      recv_buffer = record { ptr = own.addr; len = own.length };
      released = 0;
      done = own.addr;
      index = own.addr;
      left = own.addr;
      right = add64 own.addr own.length;
    }
    pub unreported : QR.queued c.release ≡ []
    pub unlocked : c.lock ≡ false
    pub uncounted : c.sending ≡ 0

module _ (V : Verbs) (W : QpVerbs) (T : Tcp) (E : Bincode EndPoint) (B : Bincode RemoteMr)
    (Q : Mpsc (ℕ × ℕ)) (QE : Mpsc Entry) (QR : Mpsc ℕ) (data_path : W.Dev → V.Dev)
    (reg_mr : ℕ → ℕ → ℕ → List IbvAccessFlags → Option IbvMr) where
  exchange_recv_buf-some :
      (pd at : ℕ) (s s2 : T.Stream) (m : IbvMr) (peer : RemoteMr)
      → reg_mr pd at default_recv_buffer_size mr_access ≡ some m
      → exchange W T E B s (from_mr (region_of m)) ≡ some (peer, s2)
      → exchange_recv_buf V W T E B Q QE QR data_path reg_mr pd at s
        ≡ some (
          RecvBufs.new
              (region_of m)
              (record { ptr = at; len = default_recv_buffer_size })
              (Q.channel default_rqe_count),
          peer,
          s2,
        )
  unfolding exchange_recv_buf
  exchange_recv_buf-some pd at s s2 m peer e f =
      rw (new_mr-some reg_mr pd at default_recv_buffer_size m e, f, exchange_recv_buf) refl

  new_send_buf-some :
      (pd at : ℕ) (flags : ℕ → Bool) (m : IbvMr)
      → reg_mr pd at default_send_buffer_size mr_access ≡ some m
      → new_send_buf V W T E B Q QE QR data_path reg_mr pd at flags
        ≡ some (SendBufs.new QE (region_of m) flags)
  unfolding new_send_buf
  new_send_buf-some pd at flags m e =
      rw (new_mr-some reg_mr pd at default_send_buffer_size m e, new_send_buf) refl

  abbrev fresh_conn :
      V.Dev → RecvBuffer Q.Chan → RemoteBufManager → SendBuffer QE.Chan → Memory → ConnOf V Q QE QR
  fresh_conn dev r a s mem = record {
    recv_buf = r;
    sending = 0;
    lock = false;
    allocator = a;
    send_buf = s;
    dev = dev;
    release = QR.channel default_rqe_count;
    mem = mem;
  }

  new-some :
      (dev : V.Dev) (r : RecvBuffer Q.Chan) (a : RemoteBufManager) (s : SendBuffer QE.Chan)
      (mem : Memory)
      → (dev' : V.Dev) × (Conn.new V Q QE QR dev r a s mem ≡ some (fresh_conn dev' r a s mem))
  unfolding Conn.new
  new-some dev r a s mem =
      let (dev', posted, _) = post_null_recvs-total V default_rqe_count dev in
      (dev', rw (posted, Conn.new) refl)

  own_buffer :
      (at : ℕ) (m : IbvMr) (x : Q.Chan)
      → IsRegion at default_recv_buffer_size m
      → RecvBufs.new (region_of m) (record { ptr = at; len = default_recv_buffer_size }) x
        ≡ RecvBufs.new (region_of m) (record { ptr = m.addr; len = as_u32 m.length }) x
  own_buffer at m x r =
      ap₂ (λ a n. RecvBufs.new (region_of m) (record { ptr = a; len = n }) x) (sym r.addr)
        (omega (arith, r.length))

  -- If both buffers are registered where they stand, the send buffer ends 2 ^ 32 bytes below the
  -- end of the address space, the own endpoint, the peer's endpoint and its region fit their
  -- types, a region takes 16 bytes, writes succeed, and the peer has written its endpoint and
  -- then its region, then what `connect` and `run` do with a new queue pair gives a connection:
  -- the counters of its send buffer, of its receive buffer and of the allocator stand at the
  -- starts of its two regions and of the peer's region, with the ends of these as right ends;
  -- the queue to the release task is empty, and nothing is counted, locked or to be reported.
  pub establish-IsUp :
      (pd : ℕ) (p : Places) (dev : W.Dev) (s : T.Stream) (remote : EndPoint) (peer : RemoteMr)
      (m k : IbvMr) (rest : List ℕ)
      → reg_mr pd p.recv_at default_recv_buffer_size mr_access ≡ some m
      → IsRegion p.recv_at default_recv_buffer_size m
      → reg_mr pd p.send_at default_send_buffer_size mr_access ≡ some k
      → IsRegion p.send_at default_send_buffer_size k
      → p.send_at + default_send_buffer_size + u32_mod ≤ u64_mod
      → E.Fits (endpoint W (init W dev).1)
      → E.Fits remote
      → B.size ≡ size_of_remote_mr
      → B.Fits peer
      → ((t : T.Stream) → (T.write_all t (B.serialize (from_mr (region_of m)))).0 ≡ true)
      → T.incoming s ≡ E.serialize remote ++ (B.serialize peer ++ rest)
      → (c : ConnOf V Q QE QR) × (establish V W T E B Q QE QR data_path reg_mr pd p dev s ≡ some c)
        × IsUp V Q QE QR (region_of m) (region_of k) p.flags peer c
  unfolding establish RemoteBufs.new SendBufs.new RecvBufs.new local_of_mr
  establish-IsUp pd p dev s remote peer m k rest got is_m sent is_k room own_fits fits sized
        peer_fits writes e =
      let (s1, s2, shaken, exchanged, left) =
        exchange-handshake W T E B (init W dev).1 s remote (from_mr (region_of m)) peer rest
          own_fits fits sized peer_fits writes e in
      let own : RecvBuffer Q.Chan =
        RecvBufs.new (region_of m) (record { ptr = p.recv_at; len = default_recv_buffer_size })
          (Q.channel default_rqe_count) in
      let (d, made) =
        new-some (data_path (ready_to_send W (ready_to_receive W (init W dev).1 remote).1).1)
          (RecvBufs.new (region_of m) (record { ptr = p.recv_at; len = default_recv_buffer_size })
            (Q.channel default_rqe_count))
          (RemoteBufs.new peer) (SendBufs.new QE (region_of k) p.flags) p.mem in
      (
        fresh_conn d own (RemoteBufs.new peer) (SendBufs.new QE (region_of k) p.flags) p.mem,
        rw
            (
              shaken,
              exchange_recv_buf-some pd p.recv_at s1 s2 m peer got exchanged,
              new_send_buf-some pd p.send_at p.flags k sent,
              establish,
            )
            made,
        record {
          valid = new-Inv QE p.send_at k p.flags is_k room;
          send_buf = refl;
          no_entry = QE.queued-channel (2 * max_sending);
          allocator = refl;
          recv_buf = own_buffer p.recv_at m (Q.channel default_rqe_count) is_m;
          unreported = QR.queued-channel default_rqe_count;
          unlocked = refl;
          uncounted = refl;
        },
      )
