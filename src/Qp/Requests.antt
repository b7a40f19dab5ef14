-- ===== src/Qp/Requests.antt =====
-- What the queue pair posts (src/types/qp.rs, lines 242 to 261).
use ibv.Prelude.{ℕ, ◌≡◌, ◌≢◌, ◌⊎◌, inl, inr, some, [], ◌∷◌, ◌++◌, arith, ℕ_discrete}
use ibv.Mr.Region.{LocalBuf, RemoteBuf, into_sge}
use ibv.Verbs.{rdma_write_with_imm, signaled, IbvSendWr, IbvRecvWr, Verbs}
use ibv.Wr.{post_to_qp}
use ibv.Qp.{write_with_imm, post_null_recv}

-- The request that `write_with_imm` is to post.
abbrev pub write_request : LocalBuf → RemoteBuf → ℕ → ℕ → IbvSendWr
write_request local_buf remote_buf imm wr_id = record {
  wr_id = wr_id;
  sg_list = record { addr = local_buf.addr; length = local_buf.length; lkey = local_buf.lkey } ∷ [];
  num_sge = 1;
  opcode = rdma_write_with_imm;
  send_flags = signaled ∷ [];
  imm_data = imm;
  remote_addr = remote_buf.addr;
  rkey = remote_buf.rkey;
}

-- the request of `post_null_recv`
abbrev pub null_recv : IbvRecvWr
null_recv = record { wr_id = 0; sg_list = []; num_sge = 0 }

module _ (V : Verbs) where
  -- `write_with_imm` puts one signalled RDMA write with the immediate value into the send queue,
  -- from the whole local buffer to the remote buffer's address; or, where the device refuses it,
  -- nothing.
  pub write_with_imm-posts :
      (local_buf : LocalBuf) (remote_buf : RemoteBuf) (imm wr_id : ℕ) (dev : V.Dev)
      → let wr = write_request local_buf remote_buf imm wr_id in
        let dev' = write_with_imm V local_buf remote_buf imm wr_id dev in
        (((V.post_send dev wr).0 ≡ 0) × (V.send_queue dev' ≡ V.send_queue dev ++ wr ∷ []))
        ⊎ (((V.post_send dev wr).0 ≢ 0) × (V.send_queue dev' ≡ V.send_queue dev))
  unfolding write_with_imm post_to_qp into_sge
  write_with_imm-posts local_buf remote_buf imm wr_id dev = ground (
    arith,
    V.post_send-ok dev (write_request local_buf remote_buf imm wr_id),
    V.post_send-fails dev (write_request local_buf remote_buf imm wr_id),
  )

  -- `post_null_recv` never panics; it adds one empty receive request, or, where the device
  -- refuses it, none.
  pub post_null_recv-total :
      (dev : V.Dev)
      → (dev' : V.Dev) × (post_null_recv V dev ≡ some dev')
        × ((((V.post_recv dev null_recv).0 ≡ 0)
              × (V.recv_queue dev' ≡ V.recv_queue dev ++ null_recv ∷ []))
            ⊎ (((V.post_recv dev null_recv).0 ≢ 0) × (V.recv_queue dev' ≡ V.recv_queue dev)))
  unfolding post_null_recv post_to_qp
  post_null_recv-total dev = (
    (V.post_recv dev null_recv).1,
    ground arith,
    elim (ℕ_discrete (V.post_recv dev null_recv).0 0) [
      | yes taken ↦ inl (taken, V.post_recv-ok dev null_recv taken)
      | no refused ↦ inr (refused, V.post_recv-fails dev null_recv refused)
    ],
  )
