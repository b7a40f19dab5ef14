-- ===== src/Qp/Handshake.antt =====
-- What `handshake` and the exchange of regions come to (src/types/qp.rs, lines 134 to 240).
use ibv.Prelude.{
  ℕ, zero, suc, ◌≡◌, ◌≢◌, ◌⊎◌, refl, ap, sym, ◌∙◌, true, some, List, ◌∷◌, ◌++◌, length, arith,
}
use ibv.Mr.Region.{RemoteMr}
use ibv.Wr.{ok}
use ibv.Qp.Attributes.{IbvQpState, EndPoint, qp_state, QpVerbs, Tcp, Bincode}
use ibv.Qp.Setup.{
  zeroed_vec, size_of_remote_mr, endpoint, receive_attr, receive_mask, ready_to_receive, send_attr,
  send_mask, ready_to_send, handshake, send_mr, recv_mr, exchange,
}

length-zeroed_vec : (n : ℕ) → length (zeroed_vec n) ≡ n
unfolding zeroed_vec
length-zeroed_vec zero = refl
length-zeroed_vec (suc n) = ap suc (length-zeroed_vec n)

module _ (V : QpVerbs) where
  -- A queue pair in the state INIT that is made ready to receive and then ready to send is in
  -- RTS where both calls succeed, in RTR where only the second is refused, and else still in
  -- INIT, as the second is refused with the first.
  pub ready-state :
      (dev : V.Dev) (remote : EndPoint)
      → V.state dev ≡ IbvQpState.init
      → let (received, d1) = ready_to_receive V dev remote in
        let (sent, d2) = ready_to_send V d1 in
        ((received ≡ ok tt) × (sent ≡ ok tt) × (V.state d2 ≡ IbvQpState.rts))
        ⊎ ((received ≡ ok tt) × (sent ≢ ok tt) × (V.state d2 ≡ IbvQpState.rtr))
        ⊎ ((received ≢ ok tt) × (sent ≢ ok tt) × (V.state d2 ≡ IbvQpState.init))
  unfolding ready_to_receive ready_to_send
  ready-state dev remote start =
      let d1 = (V.modify_qp dev (receive_attr V remote) (qp_state ∷ receive_mask V)).1 in
      ground (
        arith,
        V.modify_qp-ok dev (receive_attr V remote) (receive_mask V),
        V.modify_qp-fails dev (receive_attr V remote) (receive_mask V),
        V.modify_qp-ok d1 (send_attr V) (send_mask V),
        V.modify_qp-fails d1 (send_attr V) (send_mask V),
        V.modify_qp-order d1 (send_attr V) (send_mask V),
      )

module _ (V : QpVerbs) (T : Tcp) (E : Bincode EndPoint) (B : Bincode RemoteMr) where
  handshake-remote :
      (dev : V.Dev) (s : T.Stream) (remote : EndPoint) (rest : List ℕ)
      → E.Fits (endpoint V dev)
      → E.Fits remote
      → T.incoming s ≡ E.serialize remote ++ rest
      → (s1 : T.Stream) × (handshake V T E B dev s
          ≡ some ((ready_to_send V (ready_to_receive V dev remote).1).1, s1))
        × (T.incoming s1 ≡ rest)
  unfolding handshake
  handshake-remote dev s remote rest own fits e =
      let bytes = E.serialize (endpoint V dev) in
      let (got, buf, left) =
        T.read_exact-enough (T.write_all s bytes).1 (zeroed_vec (length bytes)) (E.serialize remote)
          rest (T.write_all-incoming s bytes ∙ e) same in
      (
        (T.read_exact (T.write_all s bytes).1 (zeroed_vec (length bytes))).2,
        rw (handshake, buf, E.deserialize-serialize remote fits) refl,
        left,
      )
    where
      same :
          length (E.serialize remote) ≡ length (zeroed_vec (length (E.serialize (endpoint V dev))))
      same =
          E.length-serialize remote fits
          ∙ sym (length-zeroed_vec _ ∙ E.length-serialize (endpoint V dev) own)

  exchange-remote :
      (s : T.Stream) (own mr : RemoteMr) (rest : List ℕ)
      → (T.write_all s (B.serialize own)).0 ≡ true
      → B.size ≡ size_of_remote_mr
      → B.Fits mr
      → T.incoming s ≡ B.serialize mr ++ rest
      → (s2 : T.Stream) × (exchange V T E B s own ≡ some (mr, s2)) × (T.incoming s2 ≡ rest)
  unfolding exchange send_mr recv_mr
  exchange-remote s own mr rest sent sized fits e =
      let s1 = (T.write_all s (B.serialize own)).1 in
      let (got, buf, left) =
        T.read_exact-enough s1 (zeroed_vec size_of_remote_mr) (B.serialize mr) rest
          (T.write_all-incoming s (B.serialize own) ∙ e) same in
      (
        (T.read_exact s1 (zeroed_vec size_of_remote_mr)).2,
        rw (exchange, send_mr, recv_mr, sent, got, buf, B.deserialize-serialize mr fits) refl,
        left,
      )
    where
      same : length (B.serialize mr) ≡ length (zeroed_vec size_of_remote_mr)
      same = B.length-serialize mr fits ∙ sized ∙ sym (length-zeroed_vec _)

  -- If the peer has written its endpoint and then its region, both fit their types, a region
  -- takes 16 bytes, and writes succeed, `handshake` moves the queue pair with the peer's
  -- endpoint, the exchange behind it gives the peer's region, and what the peer writes next is
  -- left on the stream.
  pub exchange-handshake :
      (dev : V.Dev) (s : T.Stream) (remote : EndPoint) (own mr : RemoteMr) (rest : List ℕ)
      → E.Fits (endpoint V dev)
      → E.Fits remote
      → B.size ≡ size_of_remote_mr
      → B.Fits mr
      → ((t : T.Stream) → (T.write_all t (B.serialize own)).0 ≡ true)
      → T.incoming s ≡ E.serialize remote ++ (B.serialize mr ++ rest)
      → (s1 : T.Stream) × (s2 : T.Stream) × (handshake V T E B dev s
          ≡ some ((ready_to_send V (ready_to_receive V dev remote).1).1, s1))
        × (exchange V T E B s1 own ≡ some (mr, s2))
        × (T.incoming s2 ≡ rest)
  exchange-handshake dev s remote own mr rest own_fits fits sized mr_fits sent e =
      let (s1, shaken, left) =
        handshake-remote dev s remote (B.serialize mr ++ rest) own_fits fits e in
      let (s2, exchanged, left2) = exchange-remote s1 own mr rest (sent s1) sized mr_fits left in
      (s1, s2, shaken, exchanged, left2)
