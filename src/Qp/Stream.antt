-- ===== src/Qp/Stream.antt =====
-- The stream of a queue pair (src/types/qp.rs, lines 66 to 90): `set_stream`, `tcp_recv` and `tcp_send`.
-- The outer `none` is the panic of `unwrap` where no stream is set; `true` is `Ok`.
use ibv.Prelude.{ℕ, ◌≡◌, refl, ◌∙◌, Bool, true, Option, none, some, List, ◌++◌, length, arith}
use ibv.Qp.Attributes.{Tcp}

module _ (T : Tcp) where
  unfoldable set_stream : Option T.Stream → T.Stream → Option T.Stream
  set_stream old stream = some stream

  unfoldable tcp_recv : Option T.Stream → List ℕ → Option (Bool × List ℕ × Option T.Stream)
  tcp_recv none buf = none
  tcp_recv (some stream) buf =
      let (received, bytes, rest) = T.read_exact stream buf in some (received, bytes, some rest)

  unfoldable tcp_send : Option T.Stream → List ℕ → Option (Bool × Option T.Stream)
  tcp_send none buf = none
  tcp_send (some stream) buf = let (sent, rest) = T.write_all stream buf in some (sent, some rest)

  -- What the peer has written is still received behind a send, if it fills the buffer.
  tcp_recv-send :
      (old : Option T.Stream) (stream : T.Stream) (own buf bytes rest : List ℕ)
      → T.incoming stream ≡ bytes ++ rest
      → length bytes ≡ length buf
      → (sent : Bool) × (behind : T.Stream) × (final : T.Stream) × (tcp_send
            (set_stream old stream)
            own
          ≡ some (sent, some behind))
        × (tcp_recv (some behind) buf ≡ some (true, bytes, some final))
        × (T.incoming final ≡ rest)
  unfolding set_stream tcp_recv tcp_send
  tcp_recv-send old stream own buf bytes rest written same =
      let s = (T.write_all stream own).1 in
      let (got, filled, left) =
        T.read_exact-enough s buf bytes rest (T.write_all-incoming stream own ∙ written) same in
      (
        (T.write_all stream own).0,
        s,
        (T.read_exact s buf).2,
        refl,
        ground (arith, got, filled),
        left,
      )
