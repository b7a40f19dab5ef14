-- ===== src/Wr/Tests.antt =====
-- Requests of each kind at a device that takes two requests, and at one that takes none.
use ibv.Prelude.{◌≡◌, ◌≢◌, ◌⊎◌, refl, none, some, [], ◌∷◌}
use ibv.Verbs.{rdma_write_with_imm}
use ibv.Verbs.Model.{Device, verbs, post_send, post_recv}
use ibv.Wr.{Wr, WrType, writeimm, ok, err, build_send_wr, build_recv_wr, post_to_qp}
use ibv.Wr.Posting.{unsignalled_wr, signalled_wr, post_to_qp-send, post_to_qp-recv}

abbrev roomy : Device
roomy = record { sends = []; recvs = []; completions = []; limit = 2 }

abbrev full : Device
full = record { sends = []; recvs = []; completions = []; limit = 0 }

abbrev a_write : Wr
a_write = record {
  wr_type = WrType.send;
  wr_id = 4096;
  sges = record { addr = 64; length = 8; lkey = 1 } ∷ [];
  rdma = some (record { type = writeimm 5; addr = 1000; rkey = 2 });
}

abbrev a_recv : Wr
a_recv = record { wr_type = WrType.recv; wr_id = 0; sges = []; rdma = none }

write_opcode : (build_send_wr a_write).opcode ≡ rdma_write_with_imm
unfolding build_send_wr
write_opcode = refl

refused_write : (post_to_qp verbs a_write full).0 ≡ err 12
unfolding post_to_qp post_send
refused_write = refl

refused_recv : (post_to_qp verbs a_recv full).0 ≡ ok tt
unfolding post_to_qp post_recv
refused_recv = refl

post_to_qp-send_example :
    let (result, dev') = post_to_qp verbs a_write full in
    (build_send_wr a_write ≡ unsignalled_wr a_write)
    × ((((post_send full (signalled_wr a_write)).0 ≡ 0)
          × (result ≡ ok tt)
          × (dev'.sends ≡ signalled_wr a_write ∷ []))
        ⊎ (((post_send full (signalled_wr a_write)).0 ≢ 0) × (result ≡ err 12) × (dev'.sends ≡ [])))
post_to_qp-send_example = post_to_qp-send verbs a_write full refl

post_to_qp-recv_example :
    let (result, dev') = post_to_qp verbs a_recv roomy in
    (result ≡ ok tt)
    × (((post_recv roomy (build_recv_wr a_recv)).0 ≡ 0) × (dev'.recvs ≡ build_recv_wr a_recv ∷ [])
        ⊎ ((post_recv roomy (build_recv_wr a_recv)).0 ≢ 0) × (dev'.recvs ≡ []))
post_to_qp-recv_example = post_to_qp-recv verbs a_recv roomy refl
