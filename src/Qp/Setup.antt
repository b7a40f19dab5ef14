-- ===== src/Qp/Setup.antt =====
-- The states of a queue pair and the exchange at the start of a connection (src/types/qp.rs, lines
-- 96 to 240). `none` is a panic.
use ibv.Prelude.{ℕ, zero, suc, Option, none, some, List, [], ◌∷◌, ◌==◌, if◌then◌else◌, length}
use ibv.Defaults.{default_gid_index}
use ibv.Mr.Region.{RemoteMr, local_write, remote_write, remote_read}
use ibv.Wr.{IoResult, ok, err}
use ibv.Qp.Attributes.{
  IbvQpState, Status, EndPoint, IbvQpAttr, zeroed_attr, IbvQpAttrMask, qp_state, access_flags,
  pkey_index, port, av, path_mtu, timeout, retry_cnt, rnr_retry, rq_psn, max_qp_rd_atomic,
  min_rnr_timer, sq_psn, max_dest_rd_atomic, dest_qpn, QpVerbs, Tcp, Bincode,
}

-- `QP::status`
unfoldable pub status_of : IbvQpState → Status
status_of IbvQpState.init = Status.init
status_of IbvQpState.rtr = Status.rtr
status_of IbvQpState.rts = Status.rts
status_of IbvQpState.error = Status.error
status_of _ = Status.unknown

-- `vec![0; n]`
unfoldable pub zeroed_vec : ℕ → List ℕ
zeroed_vec zero = []
zeroed_vec (suc n) = 0 ∷ zeroed_vec n

-- `size_of::<RemoteMR>()`: a `u64` and two `u32`
abbrev pub size_of_remote_mr : ℕ
size_of_remote_mr = 16

module _ (V : QpVerbs) where
  unfoldable pub endpoint : V.Dev → EndPoint
  endpoint dev = record {
    lid = V.port_lid dev;
    qpn = V.qp_num dev;
    gid = V.query_gid dev default_gid_index;
  }

  -- the end of `init`, `ready_to_receive` and `ready_to_send`
  unfoldable pub modify : V.Dev → IbvQpAttr → List IbvQpAttrMask → IoResult (Unit {0}) × V.Dev
  modify dev attr mask =
      let (ret, dev') = V.modify_qp dev attr mask in
      if ret == 0 then (ok tt, dev') else (err (V.last_os_error dev'), dev')

  unfoldable pub init : V.Dev → IoResult (Unit {0}) × V.Dev
  unfolding modify
  init dev =
      modify dev
        (record zeroed_attr {
          qp_state = IbvQpState.init;
          pkey_index = 0;
          port_num = 1;
          qp_access_flags = local_write ∷ remote_write ∷ remote_read ∷ [];
        })
        (qp_state ∷ pkey_index ∷ port ∷ access_flags ∷ [])

  -- the attributes of `ready_to_receive`; 3 is `IBV_MTU_1024`
  abbrev pub receive_attr : EndPoint → IbvQpAttr
  receive_attr remote_emp = record zeroed_attr {
    qp_state = IbvQpState.rtr;
    path_mtu = 3;
    dest_qp_num = remote_emp.qpn;
    rq_psn = 0;
    max_dest_rd_atomic = 1;
    min_rnr_timer = 18;
    ah_attr = record {
      dlid = remote_emp.lid;
      sl = 0;
      src_path_bits = 0;
      static_rate = 0;
      is_global = 1;
      port_num = 1;
      grh = record {
        sgid_index = default_gid_index;
        dgid = remote_emp.gid;
        hop_limit = 255;
        traffic_class = 0;
        flow_label = 0;
      };
    };
  }

  abbrev pub receive_mask : List IbvQpAttrMask
  receive_mask = av ∷ path_mtu ∷ dest_qpn ∷ rq_psn ∷ max_dest_rd_atomic ∷ min_rnr_timer ∷ []

  unfoldable pub ready_to_receive : V.Dev → EndPoint → IoResult (Unit {0}) × V.Dev
  unfolding modify
  ready_to_receive dev remote_emp = modify dev (receive_attr remote_emp) (qp_state ∷ receive_mask)

  -- the attributes of `ready_to_send`
  abbrev pub send_attr : IbvQpAttr
  send_attr = record zeroed_attr {
    qp_state = IbvQpState.rts;
    timeout = 14;
    retry_cnt = 6;
    rnr_retry = 6;
    sq_psn = 0;
    max_rd_atomic = 1;
  }

  abbrev pub send_mask : List IbvQpAttrMask
  send_mask = timeout ∷ retry_cnt ∷ rnr_retry ∷ sq_psn ∷ max_qp_rd_atomic ∷ []

  unfoldable pub ready_to_send : V.Dev → IoResult (Unit {0}) × V.Dev
  unfolding modify
  ready_to_send dev = modify dev send_attr (qp_state ∷ send_mask)

module _ (V : QpVerbs) (T : Tcp) (E : Bincode EndPoint) (B : Bincode RemoteMr) where
  -- `handshake`: each error is logged, and the next step is taken
  unfoldable pub handshake : V.Dev → T.Stream → Option (V.Dev × T.Stream)
  handshake dev stream =
      let bytes = E.serialize (endpoint V dev) in
      let (sent, s1) = T.write_all stream bytes in
      let (received, buf, s2) = T.read_exact s1 (zeroed_vec (length bytes)) in
      elim (E.deserialize buf) [
        | none ↦ none
        | some remote_enp ↦ some ((ready_to_send V (ready_to_receive V dev remote_enp).1).1, s2)
      ]

  unfoldable pub send_mr : T.Stream → RemoteMr → Option T.Stream
  send_mr stream remote_mr =
      let (sent, s1) = T.write_all stream (B.serialize remote_mr) in if sent then some s1 else none

  unfoldable pub recv_mr : T.Stream → Option (RemoteMr × T.Stream)
  recv_mr stream =
      let (received, buf, s1) = T.read_exact stream (zeroed_vec size_of_remote_mr) in
      if received
      then elim (B.deserialize buf) [ none ↦ none | some remote_mr ↦ some (remote_mr, s1) ]
      else none

  -- the exchange of the regions in `exchange_recv_buf`
  unfoldable pub exchange : T.Stream → RemoteMr → Option (RemoteMr × T.Stream)
  exchange stream own = elim (send_mr stream own) [ none ↦ none | some s1 ↦ recv_mr s1 ]
