-- ===== src/Verbs.antt =====
-- The verbs of `libibverbs` that the program calls through rdma_sys, as an interface over the state
-- `Dev` of the device, with the parts of their documentation that the program relies on. Status
-- codes are the bit patterns of C's `int`: 0 is success. `Verbs.Model` is a value of it.
pub mod Model
use ibv.Prelude.{ℕ, suc, ◌≤◌, ◌≡◌, ◌≢◌, Option, none, some, List, [], ◌∷◌, ◌++◌, length}
use ibv.Mr.Region.{IbvSge}

-- `ibv_wr_opcode`, the values that the program sets
pub data IbvWrOpcode : Type 0 where
  rdma_write rdma_write_with_imm send rdma_read : IbvWrOpcode

pub data IbvSendFlags : Type 0 where
  signaled : IbvSendFlags

-- `ibv_send_wr`, the fields that the program sets; `mem::zeroed` leaves the others zero.
pub record IbvSendWr : Type 0 where
  pub wr_id : ℕ
  pub sg_list : List IbvSge
  pub num_sge : ℕ
  pub opcode : IbvWrOpcode
  pub send_flags : List IbvSendFlags
  pub imm_data : ℕ
  pub remote_addr : ℕ
  pub rkey : ℕ

pub record IbvRecvWr : Type 0 where
  pub wr_id : ℕ
  pub sg_list : List IbvSge
  pub num_sge : ℕ

-- `ibv_wc`
pub record IbvWc : Type 0 where
  pub wr_id : ℕ
  pub status : ℕ
  pub opcode : ℕ
  pub imm_data : ℕ
  pub wc_flags : ℕ
  pub byte_len : ℕ

pub record Verbs : Type 1 where
  pub Dev : Type 0
  -- the requests that stand in the send and in the receive queue, oldest first
  pub send_queue : Dev → List IbvSendWr
  pub recv_queue : Dev → List IbvRecvWr
  pub post_send : Dev → IbvSendWr → ℕ × Dev
  pub post_recv : Dev → IbvRecvWr → ℕ × Dev
  -- `ibv_poll_cq`: `none` for a negative answer, else the completions that it took
  pub poll_cq : Dev → ℕ → Option (List IbvWc) × Dev
  -- `errno`, as `last_os_error` reads it
  pub last_os_error : Dev → ℕ
  pub post_send-ok :
      (d : Dev) (w : IbvSendWr)
      → (post_send d w).0 ≡ 0
      → send_queue (post_send d w).1 ≡ send_queue d ++ w ∷ []
  pub post_send-fails :
      (d : Dev) (w : IbvSendWr)
      → (post_send d w).0 ≢ 0
      → send_queue (post_send d w).1 ≡ send_queue d
  pub post_recv-ok :
      (d : Dev) (w : IbvRecvWr)
      → (post_recv d w).0 ≡ 0
      → recv_queue (post_recv d w).1 ≡ recv_queue d ++ w ∷ []
  pub post_recv-fails :
      (d : Dev) (w : IbvRecvWr)
      → (post_recv d w).0 ≢ 0
      → recv_queue (post_recv d w).1 ≡ recv_queue d
  pub poll_cq-le :
      (d : Dev) (n : ℕ) (wcs : List IbvWc) → (poll_cq d n).0 ≡ some wcs → length wcs ≤ n
