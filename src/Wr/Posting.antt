-- ===== src/Wr/Posting.antt =====
-- What `WR::post_to_qp` and `WR::build_send_wr` hand to the device.
use ibv.Prelude.{
  ℕ, ◌≡◌, ◌==◌, if◌then◌else◌, ◌≢◌, ◌⊎◌, refl, ap, Option, none, some, [], ◌∷◌, ◌++◌, arith,
  ℕ_discrete, as_u32, length,
}
use ibv.Verbs.{IbvWrOpcode, rdma_write, rdma_write_with_imm, rdma_read, signaled, IbvSendWr, Verbs}
use ibv.Wr.{
  RdmaType, read, write, writeimm, Rdma, Wr, WrType, ok, err, set_type, set_rdma, set_posted_type,
  set_posted_rdma, build_send_wr, build_recv_wr, post_to_qp,
}

-- The operation that a request is for, and its immediate value, by its RDMA part.
abbrev type_opcode : RdmaType → IbvWrOpcode
type_opcode read = rdma_read
type_opcode write = rdma_write
type_opcode (writeimm imm) = rdma_write_with_imm

abbrev type_imm : RdmaType → ℕ
type_imm read = 0
type_imm write = 0
type_imm (writeimm imm) = imm

-- A work request field by field; a request without an RDMA part is a SEND.
abbrev wanted : Wr → Option Rdma → IbvSendWr
wanted w none = record {
  wr_id = w.wr_id;
  sg_list = w.sges;
  num_sge = as_u32 (length w.sges);
  opcode = IbvWrOpcode.send;
  send_flags = signaled ∷ [];
  imm_data = 0;
  remote_addr = 0;
  rkey = 0;
}
wanted w (some rdma) = record {
  wr_id = w.wr_id;
  sg_list = w.sges;
  num_sge = as_u32 (length w.sges);
  opcode = type_opcode rdma.type;
  send_flags = signaled ∷ [];
  imm_data = type_imm rdma.type;
  remote_addr = rdma.addr;
  rkey = rdma.rkey;
}

-- the signalled request that is to go to the device for `w`
abbrev pub signalled_wr : Wr → IbvSendWr
signalled_wr w = wanted w w.rdma

-- the same request, not signalled
abbrev pub unsignalled_wr : Wr → IbvSendWr
unsignalled_wr w = record (signalled_wr w) { send_flags = [] }

set_posted_type-type : (t : RdmaType) (wr : IbvSendWr) → set_posted_type t wr ≡ set_type t wr
unfolding set_posted_type set_type
set_posted_type-type read wr = refl
set_posted_type-type write wr = refl
set_posted_type-type (writeimm imm) wr = refl

set_posted_rdma-rdma :
    (rdma : Option Rdma) (wr : IbvSendWr) → set_posted_rdma rdma wr ≡ set_rdma rdma wr
unfolding set_posted_rdma set_rdma
set_posted_rdma-rdma none wr = refl
set_posted_rdma-rdma (some rdma) wr =
    ap {A = IbvSendWr} (λ x. record x { remote_addr = rdma.addr; rkey = rdma.rkey })
      (set_posted_type-type rdma.type wr)

-- The two `match`es of `build_send_wr` give the operation and the immediate value.
build_send_wr-wanted : (w : Wr) → build_send_wr w ≡ unsignalled_wr w
unfolding build_send_wr set_type
build_send_wr-wanted w = matched w.rdma
  where
    typed :
        (type : RdmaType) (addr rkey : ℕ)
        → let x : Wr = record w {
          rdma = some (record { type = type; addr = addr; rkey = rkey });
        } in
          build_send_wr x ≡ unsignalled_wr x
    typed read addr rkey = refl
    typed write addr rkey = refl
    typed (writeimm imm) addr rkey = refl

    matched :
        (rdma : Option Rdma)
        → let x : Wr = record w { rdma = rdma } in build_send_wr x ≡ unsignalled_wr x
    matched none = refl
    matched (some rdma) = typed rdma.type rdma.addr rdma.rkey

module _ (V : Verbs) where
  posted :
      (w : Wr) (dev : V.Dev)
      → let ret = V.post_send dev (record (build_send_wr w) { send_flags = signaled ∷ [] }) in
        w.wr_type ≡ WrType.send
        → post_to_qp V w dev
          ≡ (if ret.0 == 0 then (ok tt, ret.1) else (err (V.last_os_error ret.1), ret.1))
  unfolding post_to_qp build_send_wr
  posted w dev e = rw (e, set_posted_rdma-rdma) refl

  -- A send request goes to the device signalled, with its identifier and its pieces: as a SEND
  -- where it has no RDMA part, and else as the RDMA read, write or write with immediate value
  -- that this part names, to its address and key. `build_send_wr`, which has a `match` of its
  -- own, builds the same request, unsignalled. The answer is an error, with the system's error
  -- number, exactly where the device refuses the request, and then the send queue is as it was.
  pub post_to_qp-send :
      (w : Wr) (dev : V.Dev)
      → w.wr_type ≡ WrType.send
      → let (result, dev') = post_to_qp V w dev in
        (build_send_wr w ≡ unsignalled_wr w)
        × ((((V.post_send dev (signalled_wr w)).0 ≡ 0)
              × (result ≡ ok tt)
              × (V.send_queue dev' ≡ V.send_queue dev ++ signalled_wr w ∷ []))
            ⊎ (((V.post_send dev (signalled_wr w)).0 ≢ 0)
                × (result ≡ err (V.last_os_error dev'))
                × (V.send_queue dev' ≡ V.send_queue dev)))
  post_to_qp-send w dev e = (
    build_send_wr-wanted w,
    rw (posted w dev e, build_send_wr-wanted w)
        (ground
          (arith, V.post_send-ok dev (signalled_wr w), V.post_send-fails dev (signalled_wr w))),
  )

  -- A receive request is answered `Ok` whether the device takes it or not; the receive queue has
  -- one more request exactly where it takes it.
  pub post_to_qp-recv :
      (w : Wr) (dev : V.Dev)
      → w.wr_type ≡ WrType.recv
      → let (result, dev') = post_to_qp V w dev in
        (result ≡ ok tt)
        × (((V.post_recv dev (build_recv_wr w)).0 ≡ 0)
              × (V.recv_queue dev' ≡ V.recv_queue dev ++ build_recv_wr w ∷ [])
            ⊎ (((V.post_recv dev (build_recv_wr w)).0 ≢ 0)
                × (V.recv_queue dev' ≡ V.recv_queue dev)))
  unfolding post_to_qp build_recv_wr
  post_to_qp-recv w dev e = elim (ℕ_discrete (V.post_recv dev (build_recv_wr w)).0 0) [
    | yes taken ↦ ground (arith, V.post_recv-ok dev (build_recv_wr w))
    | no refused ↦ ground (arith, V.post_recv-fails dev (build_recv_wr w))
  ]
