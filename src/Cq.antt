-- ===== src/Cq.antt =====
-- Completions (src/types/cq.rs): the queue `CQ`, a completion `WC`, and the readings of its codes.
pub mod Codes
pub mod Polling
pub mod Making
mod Tests
use ibv.Prelude.{ℕ, ◌≡◌, Bool, true, false, Option, List, [], ◌∷◌, ◌==◌, if◌then◌else◌}
use ibv.Defaults.{max_cqe}
use ibv.Verbs.{IbvWc, Verbs}
use ibv.Wr.{IoResult, ok, err}

pub data WcStatus : Type 0 where
  success local_len_err local_qp_op_err local_eec_op_err local_prot_err wr_flush_err mw_bind_err
        bad_resp_err local_access_err rem_inv_req_err rem_access_err rem_op_err retry_exc_err
        rnr_retry_exc_err loc_rdd_viol_err rem_inv_rd_req_err rem_abort_err inv_eecn_err
        inv_eec_state_err fatal_err resp_timeout_err general_err :
      WcStatus
  unknown : ℕ → WcStatus

-- `From<u32> for WCStatus`
unfoldable pub wc_status_from : ℕ → WcStatus
wc_status_from value =
    if value == 0
    then success
    else if value == 1
    then local_len_err
    else if value == 2
    then local_qp_op_err
    else if value == 3
    then local_eec_op_err
    else if value == 4
    then local_prot_err
    else if value == 5
    then wr_flush_err
    else if value == 6
    then mw_bind_err
    else if value == 7
    then bad_resp_err
    else if value == 8
    then local_access_err
    else if value == 9
    then rem_inv_req_err
    else if value == 10
    then rem_access_err
    else if value == 11
    then rem_op_err
    else if value == 12
    then retry_exc_err
    else if value == 13
    then rnr_retry_exc_err
    else if value == 14
    then loc_rdd_viol_err
    else if value == 15
    then rem_inv_rd_req_err
    else if value == 16
    then rem_abort_err
    else if value == 17
    then inv_eecn_err
    else if value == 18
    then inv_eec_state_err
    else if value == 19
    then fatal_err
    else if value == 20
    then resp_timeout_err
    else if value == 21
    then general_err
    else unknown value

pub data Opcode : Type 0 where
  send recv read write send_with_imm write_with_imm : Opcode
  unknown : ℕ → Opcode

-- `From<u32> for Opcode`
unfoldable pub opcode_from : ℕ → Opcode
opcode_from value =
    if value == 0
    then send
    else if value == 128
    then recv
    else if value == 2
    then read
    else if value == 1
    then write
    else if value == 129
    then write_with_imm
    else Opcode.unknown value

pub data WcFlag : Type 0 where
  none with_imm : WcFlag
  unknown : ℕ → WcFlag

-- `From<u32> for WCFlag`
unfoldable pub wc_flag_from : ℕ → WcFlag
wc_flag_from value =
    if value == 0 then WcFlag.none else if value == 3 then with_imm else WcFlag.unknown value

-- `WC`: its readings of the completion's fields
unfoldable pub status : IbvWc → WcStatus
status wc = wc_status_from wc.status

unfoldable pub opcode : IbvWc → Opcode
opcode wc = opcode_from wc.opcode

unfoldable pub wc_flags : IbvWc → WcFlag
wc_flags wc = wc_flag_from wc.wc_flags

-- `CQ`: the pointers to the queue and to its event channel
pub record Cq : Type 0 where
  pub inner : ℕ
  pub channel : Option ℕ

-- `CQ::new`. The two create functions of the library answer with a pointer, `none` for null; the
-- second takes the size, and the channel or null. `none` is the panic of `unwrap`.
unfoldable pub new : Option ℕ → (ℕ → Option ℕ → Option ℕ) → Bool → Option Cq
new create_comp_channel create_cq with_channel =
    let channel = if with_channel then create_comp_channel else Option.none in
    elim (create_cq max_cqe channel) [
      | Option.none ↦ Option.none
      | Option.some cq ↦ Option.some (record { inner = cq; channel = channel })
    ]

-- `CQ::get_event`, with `none` for the panic of `channel`
unfoldable pub get_event : (ℕ → ℕ) → Cq → Option ℕ
get_event get_cq_event cq = elim cq.channel [
  | Option.none ↦ Option.none
  | Option.some channel ↦ Option.some (get_cq_event channel)
]

module _ (V : Verbs) where
  polled : Option (List IbvWc) → V.Dev → IoResult (List IbvWc) × V.Dev
  polled Option.none dev = (err (V.last_os_error dev), dev)
  polled (Option.some wcs) dev = (ok wcs, dev)

  -- `CQ::poll_wc`. What `ibv_poll_cq` writes into the vector's first entries is its list, and
  -- `set_len` cuts the vector to them.
  unfoldable pub poll_wc : ℕ → V.Dev → IoResult (List IbvWc) × V.Dev
  unfolding polled
  poll_wc num_entries dev =
      if num_entries == 0
      then (ok [], dev)
      else (let (num_poll, dev') = V.poll_cq dev num_entries in polled num_poll dev')
