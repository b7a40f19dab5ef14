-- ===== src/Wr.antt =====
-- Work requests (src/types/wr.rs).
pub mod Posting
mod Tests
use ibv.Prelude.{ℕ, Option, none, some, List, [], ◌∷◌, ◌==◌, if◌then◌else◌, as_u32, length}
use ibv.Mr.Region.{IbvSge}
use ibv.Verbs.{
  IbvWrOpcode, rdma_write, rdma_write_with_imm, rdma_read, IbvSendFlags, signaled, IbvSendWr,
  IbvRecvWr, Verbs,
}

pub data RdmaType : Type 0 where
  read write : RdmaType
  writeimm : ℕ → RdmaType

pub record Rdma : Type 0 where
  pub type : RdmaType
  pub addr : ℕ
  pub rkey : ℕ

pub data WrType : Type 0 where
  send recv : WrType

pub record Wr : Type 0 where
  pub wr_type : WrType
  pub wr_id : ℕ
  pub sges : List IbvSge
  pub rdma : Option Rdma

-- `std::io::Result`, with the `errno` of an error
pub data IoResult (A : Type 0) : Type 0 where
  ok : A → IoResult A
  err : ℕ → IoResult A

unfoldable pub new : ℕ → WrType → List IbvSge → Option Rdma → Wr
new wr_id wr_type sges rdma = record { wr_type = wr_type; wr_id = wr_id; sges = sges; rdma = rdma }

-- a zeroed `ibv_send_wr` with its first three fields set; opcode 0 is RDMA WRITE
abbrev plain_send_wr : Wr → IbvSendWr
plain_send_wr w = record {
  wr_id = w.wr_id;
  sg_list = w.sges;
  num_sge = as_u32 (length w.sges);
  opcode = rdma_write;
  send_flags = [];
  imm_data = 0;
  remote_addr = 0;
  rkey = 0;
}

-- the `match rdma.r#type` of `build_send_wr`
unfoldable pub set_type : RdmaType → IbvSendWr → IbvSendWr
set_type read wr = record wr { opcode = rdma_read }
set_type write wr = record wr { opcode = rdma_write }
set_type (writeimm imm) wr = record wr { opcode = rdma_write_with_imm; imm_data = imm }

-- the `match self.rdma.clone()` of `build_send_wr`
unfoldable pub set_rdma : Option Rdma → IbvSendWr → IbvSendWr
unfolding set_type
set_rdma (some rdma) wr = record (set_type rdma.type wr) {
  remote_addr = rdma.addr;
  rkey = rdma.rkey;
}
set_rdma none wr = record wr { opcode = IbvWrOpcode.send }

unfoldable pub build_send_wr : Wr → IbvSendWr
unfolding set_rdma
build_send_wr w = set_rdma w.rdma (plain_send_wr w)

unfoldable pub build_recv_wr : Wr → IbvRecvWr
build_recv_wr w = record { wr_id = w.wr_id; sg_list = w.sges; num_sge = as_u32 (length w.sges) }

-- the `match rdma.r#type` of `post_to_qp`
unfoldable pub set_posted_type : RdmaType → IbvSendWr → IbvSendWr
set_posted_type read wr = record wr { opcode = rdma_read }
set_posted_type write wr = record wr { opcode = rdma_write }
set_posted_type (writeimm imm) wr = record wr { opcode = rdma_write_with_imm; imm_data = imm }

-- the `match self.rdma.clone()` of `post_to_qp`
unfoldable pub set_posted_rdma : Option Rdma → IbvSendWr → IbvSendWr
unfolding set_posted_type
set_posted_rdma (some rdma) wr = record (set_posted_type rdma.type wr) {
  remote_addr = rdma.addr;
  rkey = rdma.rkey;
}
set_posted_rdma none wr = record wr { opcode = IbvWrOpcode.send }

module _ (V : Verbs) where
  -- the arm `WRType::SEND` of `post_to_qp`
  unfoldable pub post_send_arm : Wr → V.Dev → IoResult (Unit {0}) × V.Dev
  unfolding set_posted_rdma
  post_send_arm w dev =
      let zeroed : IbvSendWr = record {
        wr_id = w.wr_id;
        sg_list = w.sges;
        num_sge = as_u32 (length w.sges);
        opcode = rdma_write;
        send_flags = [];
        imm_data = 0;
        remote_addr = 0;
        rkey = 0;
      } in
      let wr = record (set_posted_rdma w.rdma zeroed) { send_flags = signaled ∷ [] } in
      let (ret, dev') = V.post_send dev wr in
      if ret == 0 then (ok tt, dev') else (err (V.last_os_error dev'), dev')

  -- the arm `WRType::RECV`: a failure is printed, and the answer is `Ok`
  unfoldable pub post_recv_arm : Wr → V.Dev → IoResult (Unit {0}) × V.Dev
  post_recv_arm w dev =
      let wr : IbvRecvWr = record {
        wr_id = w.wr_id;
        sg_list = w.sges;
        num_sge = as_u32 (length w.sges);
      } in
      let (ret, dev') = V.post_recv dev wr in (ok tt, dev')

  unfoldable pub post_to_qp : Wr → V.Dev → IoResult (Unit {0}) × V.Dev
  unfolding post_send_arm post_recv_arm
  post_to_qp w dev = elim w.wr_type [
    | WrType.send ↦ post_send_arm w dev
    | WrType.recv ↦ post_recv_arm w dev
  ]
