-- ===== src/Connect.antt =====
-- How a connection comes up: `QP::exchange_recv_buf` (src/types/qp.rs, lines 212 to 228), `connect`,
-- `run` (src/connection/conn.rs, lines 154 to 203) and `Server` (src/connection/server.rs). Where the
-- buffers and the flags stand is an argument, and so is what TCP answers. `QpVerbs` and `Verbs` are two
-- views of one queue pair: `qp_dev` is the first view of a new one, `data_path` the second of one that
-- is connected. A panic is `none`.
pub mod Coming
pub mod Meeting
pub mod Accepting
mod Tests
use ibv.Prelude.{ℕ, Bool, Option, none, some, List, [], ◌∷◌, ◌≡◌}
use ibv.Defaults.{max_qp_wr, default_rqe_count, default_recv_buffer_size, default_send_buffer_size}
use ibv.Memory.{Memory}
use ibv.Channel.{Mpsc}
use ibv.Verbs.{Verbs}
use ibv.Mr.Region.{IbvMr, IbvAccessFlags, RemoteMr, new_mr, from_mr}
use ibv.Mr.RemoteBufs
use ibv.Mr.SendBufs
use ibv.Mr.SendBufs.{SendBuffer, Entry}
use ibv.Mr.RecvBufs
use ibv.Mr.RecvBufs.{RecvBuffer}
use ibv.Wr.{IoResult, ok, err}
use ibv.Qp.Attributes.{EndPoint, QpVerbs, Tcp, Bincode}
use ibv.Qp.Setup.{init, handshake, exchange}
use ibv.Conn
use ibv.Conn.{ConnOf}
use ibv.Life.{Host, Heap, Qp, new_cap, clone_device, drop_device, default_device, new_qp}

-- Where the two buffers of a connection stand, and what the process has in its memory.
pub record Places : Type 0 where
  pub recv_at : ℕ
  pub send_at : ℕ
  pub flags : ℕ → Bool
  pub mem : Memory

-- How `run` stands behind a number of answers of `accept`.
pub data Serving (Conns : Type 0) : Type 0 where
  going : Heap → Conns → Serving Conns
  ended : Heap → Conns → Serving Conns
  waits : Serving Conns
  panics : Serving Conns

module _ (V : Verbs) (W : QpVerbs) (T : Tcp) (E : Bincode EndPoint) (B : Bincode RemoteMr)
    (Q : Mpsc (ℕ × ℕ)) (QE : Mpsc Entry) (QR : Mpsc ℕ) (data_path : W.Dev → V.Dev)
    (reg_mr : ℕ → ℕ → ℕ → List IbvAccessFlags → Option IbvMr) where
  -- `exchange_recv_buf`
  unfoldable pub exchange_recv_buf :
      ℕ → ℕ → T.Stream → Option (RecvBuffer Q.Chan × RemoteMr × T.Stream)
  exchange_recv_buf pd at stream = elim (new_mr reg_mr pd at default_recv_buffer_size) [
    | none ↦ none
    | some mr ↦ elim (exchange W T E B stream (from_mr mr)) [
      | none ↦ none
      | some (remote_mr, s) ↦ some (
        RecvBufs.new mr (record { ptr = at; len = default_recv_buffer_size })
            (Q.channel default_rqe_count),
        remote_mr,
        s,
      )
    ]
  ]

  -- the registration at the start of `SendBuffer::new`
  unfoldable pub new_send_buf : ℕ → ℕ → (ℕ → Bool) → Option (SendBuffer QE.Chan)
  new_send_buf pd at flags = elim (new_mr reg_mr pd at default_send_buffer_size) [
    | none ↦ none
    | some mr ↦ some (SendBufs.new QE mr flags)
  ]

  -- what `connect` and `run` do with a new queue pair and its stream
  unfoldable pub establish : ℕ → Places → W.Dev → T.Stream → Option (ConnOf V Q QE QR)
  unfolding exchange_recv_buf new_send_buf
  establish pd p dev stream =
      let (result, d1) = init W dev in
      elim (handshake W T E B d1 stream) [
        | none ↦ none
        | some (d2, s1) ↦ elim (exchange_recv_buf pd p.recv_at s1) [
          | none ↦ none
          | some (recv_buf, remote_mr, s2) ↦ elim (new_send_buf pd p.send_at p.flags) [
            | none ↦ none
            | some send_buf ↦
                Conn.new V Q QE QR (data_path d2) recv_buf (RemoteBufs.new remote_mr) send_buf p.mem
          ]
        ]
      ]

  module _ (L : Host) (qp_dev : Qp → W.Dev) where
    -- `connect`, with the answer of `TcpStream::connect`
    unfoldable pub connect :
        Heap → Places → IoResult T.Stream → Option (IoResult (ConnOf V Q QE QR) × Heap)
    unfolding establish
    connect h p answer = elim answer [
      | err e ↦ some (err e, h)
      | ok stream ↦ elim (default_device L h) [
        | none ↦ none
        | some (device, h1) ↦ elim (new_qp L h1 device (new_cap max_qp_wr max_qp_wr 5 5)) [
          | none ↦ none
          | some (qp, h2) ↦ elim (establish qp.pd.inner p (qp_dev qp) stream) [
            | none ↦ none
            | some conn ↦ some (ok conn, h2)
          ]
        ]
      ]
    ]

    module _ (C : Mpsc (ConnOf V Q QE QR)) where
      -- one turn of the loop of `run`, with the answer of `accept`
      unfoldable pub serve_one : ℕ → Heap → C.Chan → Places → IoResult T.Stream → Serving C.Chan
      unfolding establish
      serve_one device h sender p answer = elim answer [
        | err e ↦ ended (drop_device h device) sender
        | ok stream ↦ elim (new_qp L (clone_device h device) device (new_cap 16384 16384 5 5)) [
          | none ↦ panics
          | some (qp, h1) ↦ elim (establish qp.pd.inner p (qp_dev qp) stream) [
            | none ↦ panics
            | some conn ↦ elim (C.try_send sender conn) [ none ↦ waits | some rest ↦ going h1 rest ]
          ]
        ]
      ]

      unfoldable pub run : ℕ → Serving C.Chan → List (Places × IoResult T.Stream) → Serving C.Chan
      unfolding serve_one
      run device (going h sender) ((p, answer) ∷ more) =
          run device (serve_one device h sender p answer) more
      run device s _ = s

      -- the channel of `Server::new`, and `Server::accept`
      unfoldable pub incoming : C.Chan
      incoming = C.channel 10

      unfoldable pub accept : C.Chan → Option (ConnOf V Q QE QR × C.Chan)
      accept c = C.try_recv c
