-- ===== src/Qp/Addresses.antt =====
-- Addresses and codes of the queue pair beside its setup (src/types/qp.rs): `EndPoint::new`, `new_ah`, and
-- `From<u32> for Status`. The program calls none of them.
use ibv.Prelude.{ℕ, ◌≡◌, refl, List, ◌==◌, if◌then◌else◌}
use ibv.Qp.Attributes.{
  IbvQpState, reset, init, rtr, rts, sqd, sqe, error, Status, EndPoint, IbvAhAttr, QpVerbs,
}
use ibv.Qp.Setup.{status_of, receive_attr}

unfoldable new_endpoint : ℕ → ℕ → List ℕ → EndPoint
new_endpoint qpn lid gid = record { qpn = qpn; lid = lid; gid = gid }

unfoldable new_ah : EndPoint → IbvAhAttr
new_ah enp = record {
  is_global = 1;
  dlid = enp.lid;
  port_num = 1;
  grh = record {
    dgid = enp.gid;
    flow_label = 0;
    hop_limit = 255;
    traffic_class = 0;
    sgid_index = 1;
  };
  sl = 0;
  src_path_bits = 0;
  static_rate = 0;
}

-- 1, 2, 3 and 6 are `IBV_QPS_INIT`, `IBV_QPS_RTR`, `IBV_QPS_RTS` and `IBV_QPS_ERR`.
unfoldable status_from : ℕ → Status
status_from status =
    if status == 1
    then Status.init
    else if status == 2
    then Status.rtr
    else if status == 3
    then Status.rts
    else if status == 6
    then Status.error
    else Status.unknown

-- the numbers of `ibv_qp_state`
abbrev state_code : IbvQpState → ℕ
state_code reset = 0
state_code init = 1
state_code rtr = 2
state_code rts = 3
state_code sqd = 4
state_code sqe = 5
state_code error = 6

-- `From<u32>` reads the number of a state as `status` reads the state.
status_from-code : (state : IbvQpState) → status_from (state_code state) ≡ status_of state
unfolding status_from status_of
status_from-code reset = refl
status_from-code init = refl
status_from-code rtr = refl
status_from-code rts = refl
status_from-code sqd = refl
status_from-code sqe = refl
status_from-code error = refl

-- `new_ah` makes the address that `ready_to_receive` sets.
new_ah-receive_attr : (V : QpVerbs) (enp : EndPoint) → new_ah enp ≡ (receive_attr V enp).ah_attr
unfolding new_ah
new_ah-receive_attr V enp = refl
