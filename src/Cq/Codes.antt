-- ===== src/Cq/Codes.antt =====
-- The readings of the completion codes (src/types/cq.rs, lines 169 to 289).
use ibv.Prelude.{ℕ, ◌≡◌, ◌≢◌, refl, arith}
use ibv.Cq.{
  WcStatus, success, local_len_err, local_qp_op_err, local_eec_op_err, local_prot_err, wr_flush_err,
  mw_bind_err, bad_resp_err, local_access_err, rem_inv_req_err, rem_access_err, rem_op_err,
  retry_exc_err, rnr_retry_exc_err, loc_rdd_viol_err, rem_inv_rd_req_err, rem_abort_err,
  inv_eecn_err, inv_eec_state_err, fatal_err, resp_timeout_err, general_err, wc_status_from, Opcode,
  opcode_from, WcFlag, wc_flag_from,
}

-- The code that a comment of the source gives to each status.
abbrev pub status_code : WcStatus → ℕ
status_code success = 0
status_code local_len_err = 1
status_code local_qp_op_err = 2
status_code local_eec_op_err = 3
status_code local_prot_err = 4
status_code wr_flush_err = 5
status_code mw_bind_err = 6
status_code bad_resp_err = 7
status_code local_access_err = 8
status_code rem_inv_req_err = 9
status_code rem_access_err = 10
status_code rem_op_err = 11
status_code retry_exc_err = 12
status_code rnr_retry_exc_err = 13
status_code loc_rdd_viol_err = 14
status_code rem_inv_rd_req_err = 15
status_code rem_abort_err = 16
status_code inv_eecn_err = 17
status_code inv_eec_state_err = 18
status_code fatal_err = 19
status_code resp_timeout_err = 20
status_code general_err = 21
status_code (WcStatus.unknown v) = v

-- `SendWithImm` has no code in the source: any will do, as none is read so.
abbrev pub opcode_code : Opcode → ℕ
opcode_code Opcode.send = 0
opcode_code Opcode.recv = 128
opcode_code Opcode.read = 2
opcode_code Opcode.write = 1
opcode_code Opcode.send_with_imm = 3
opcode_code Opcode.write_with_imm = 129
opcode_code (Opcode.unknown v) = v

abbrev pub flag_code : WcFlag → ℕ
flag_code WcFlag.none = 0
flag_code WcFlag.with_imm = 3
flag_code (WcFlag.unknown v) = v

-- Each status but `Unknown` is read from its code.
status_code-wc_status_from :
    (s : WcStatus) → ((v : ℕ) → s ≢ WcStatus.unknown v) → wc_status_from (status_code s) ≡ s
unfolding wc_status_from
status_code-wc_status_from success known = refl
status_code-wc_status_from (WcStatus.unknown v) known = absurd (known v refl)
status_code-wc_status_from _ known = refl

-- No two codes are read as one opcode and none is read as `SendWithImm`; no two codes are read
-- as one flag.
pub opcode_from-code :
    (v : ℕ)
    → (opcode_code (opcode_from v) ≡ v)
      × (opcode_from v ≢ Opcode.send_with_imm)
      × (flag_code (wc_flag_from v) ≡ v)
unfolding opcode_from wc_flag_from
opcode_from-code v = ground arith
