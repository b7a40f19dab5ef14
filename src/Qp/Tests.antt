-- ===== src/Qp/Tests.antt =====
-- Requests of the queue pair, and the start of a connection, at concrete devices and streams.
use ibv.Prelude.{ℕ, ◌≡◌, refl, true, some, List, [], ◌∷◌, ◌++◌, arith}
use ibv.Mr.Region.{RemoteMr, LocalBuf, RemoteBuf, into_sge}
use ibv.Verbs.{rdma_write_with_imm, signaled}
use ibv.Verbs.Model.{Device, verbs, post_send}
use ibv.Wr.{post_to_qp}
use ibv.Qp.Attributes.{IbvQpState, EndPoint}
use ibv.Qp.Setup.{endpoint, ready_to_receive, ready_to_send, handshake, exchange}
use ibv.Qp.Handshake.{exchange-handshake}
use ibv.Qp.Codec.{to_le, serialize_mr, mr_codec, serialize_endpoint, endpoint_codec}
use ibv.Qp.Model.{Pipe, write_all, pipe, QueuePair, follows, modify_qp, queue_pairs}
use ibv.Qp.{write_with_imm}

abbrev empty_device : Device
empty_device = record { sends = []; recvs = []; completions = []; limit = 1 }

abbrev source : LocalBuf
source = record { addr = 64; length = 8; lkey = 1 }

abbrev target : RemoteBuf
target = record { addr = 1000; length = 8; rkey = 2 }

write_posted :
    (write_with_imm verbs source target 5 4096 empty_device).sends
    ≡ record {
      wr_id = 4096;
      sg_list = record { addr = 64; length = 8; lkey = 1 } ∷ [];
      num_sge = 1;
      opcode = rdma_write_with_imm;
      send_flags = signaled ∷ [];
      imm_data = 5;
      remote_addr = 1000;
      rkey = 2;
    }
      ∷ []
unfolding write_with_imm post_to_qp post_send into_sge
write_posted = refl

-- The start of a connection: a queue pair in INIT, and a stream with the peer's endpoint and region.
abbrev a_gid : List ℕ
a_gid = 1 ∷ 2 ∷ 3 ∷ 4 ∷ 5 ∷ 6 ∷ 7 ∷ 8 ∷ 9 ∷ 10 ∷ 11 ∷ 12 ∷ 13 ∷ 14 ∷ 15 ∷ 16 ∷ []

abbrev a_queue_pair : QueuePair
a_queue_pair = record { state = IbvQpState.init; num = 17; lid = 1; gid = a_gid; peer = 0 }

abbrev the_peer : EndPoint
the_peer = record { gid = a_gid; qpn = 300; lid = 2 }

abbrev peer_region : RemoteMr
peer_region = record { addr = 70000; length = 4096; rkey = 9 }

abbrev own_region : RemoteMr
own_region = record { addr = 80000; length = 4096; rkey = 8 }

abbrev from_peer : Pipe
from_peer = record {
  incoming = serialize_endpoint the_peer ++ (serialize_mr peer_region ++ []);
  outgoing = [];
}

region_bytes :
    serialize_mr peer_region
    ≡ 112 ∷ 17 ∷ 1 ∷ 0 ∷ 0 ∷ 0 ∷ 0 ∷ 0 ∷ 0 ∷ 16 ∷ 0 ∷ 0 ∷ 9 ∷ 0 ∷ 0 ∷ 0 ∷ []
unfolding serialize_mr to_le
region_bytes = refl

both_ready :
    let (received, d1) = ready_to_receive queue_pairs a_queue_pair the_peer in
    (ready_to_send queue_pairs d1).1.state ≡ IbvQpState.rts
unfolding ready_to_receive ready_to_send modify_qp follows
both_ready = refl

pipe_writes : (t : Pipe) → (write_all t (serialize_mr own_region)).0 ≡ true
unfolding write_all
pipe_writes t = refl

exchange-handshake_example :
    (s1 : Pipe) × (s2 : Pipe) × (handshake queue_pairs pipe endpoint_codec mr_codec a_queue_pair
        from_peer
      ≡ some (
        (ready_to_send queue_pairs (ready_to_receive queue_pairs a_queue_pair the_peer).1).1,
        s1,
      ))
    × (exchange queue_pairs pipe endpoint_codec mr_codec s1 own_region ≡ some (peer_region, s2))
    × (s2.incoming ≡ [])
unfolding endpoint
exchange-handshake_example =
    exchange-handshake queue_pairs pipe endpoint_codec mr_codec a_queue_pair from_peer the_peer
      own_region peer_region [] (refl, omega arith, omega arith) (refl, omega arith, omega arith)
      refl (omega arith, omega arith, omega arith) pipe_writes refl
