-- ===== src/Connect/Tests.antt =====
-- A connection that comes up over a stream with the peer's endpoint and region, and a server.
use ibv.Prelude.{ℕ, ◌≡◌, refl, true, false, Option, none, some, List, [], ◌∷◌, ◌++◌, arith}
use ibv.Defaults.{default_recv_buffer_size, default_send_buffer_size}
use ibv.Channel.Bounded.{bounded}
use ibv.Verbs.Model.{Device, verbs}
use ibv.Mr.Region.{IbvMr, IbvAccessFlags, RemoteMr}
use ibv.Mr.SendBufs.{Entry}
use ibv.Wr.{IoResult, ok, err}
use ibv.Qp.Attributes.{IbvQpState, EndPoint}
use ibv.Qp.Setup.{endpoint, init, modify}
use ibv.Qp.Codec.{serialize_endpoint, serialize_mr, endpoint_codec, mr_codec}
use ibv.Qp.Model.{Pipe, pipe, QueuePair, queue_pairs, write_all, modify_qp, follows}
use ibv.Conn.{ConnOf}
use ibv.Life.{Host, Heap, Qp, set_strong, call, open_device}
use ibv.Life.History.{History, no_heap}
use ibv.Connect.{Places, establish}
use ibv.Connect.Coming.{region_of, IsUp, establish-IsUp}

abbrev End : Type 0
End = ConnOf verbs (bounded (ℕ × ℕ)) (bounded Entry) (bounded ℕ)

abbrev region_at : ℕ → ℕ → IbvMr
region_at at len = record { handle = 7; addr = at; length = len; lkey = 1; rkey = 2 }

abbrev reg_mr : ℕ → ℕ → ℕ → List IbvAccessFlags → Option IbvMr
reg_mr pd at len access = some (region_at at len)

abbrev places : Places
places = record { recv_at = 100000; send_at = 100000000; flags = λ p. false; mem = λ p. 0 }

abbrev a_gid : List ℕ
a_gid = 1 ∷ 2 ∷ 3 ∷ 4 ∷ 5 ∷ 6 ∷ 7 ∷ 8 ∷ 9 ∷ 10 ∷ 11 ∷ 12 ∷ 13 ∷ 14 ∷ 15 ∷ 16 ∷ []

abbrev queue_pair : QueuePair
queue_pair = record { state = IbvQpState.reset; num = 17; lid = 1; gid = a_gid; peer = 0 }

abbrev the_peer : EndPoint
the_peer = record { gid = a_gid; qpn = 300; lid = 2 }

abbrev peer_region : RemoteMr
peer_region = record { addr = 70000; length = 67108864; rkey = 9 }

abbrev from_peer : Pipe
from_peer = record {
  incoming = serialize_endpoint the_peer ++ (serialize_mr peer_region ++ []);
  outgoing = [];
}

abbrev data_path : QueuePair → Device
data_path q = record { sends = []; recvs = []; completions = []; limit = 16 }

pipe_writes : (t : Pipe) (bytes : List ℕ) → (write_all t bytes).0 ≡ true
unfolding write_all
pipe_writes t bytes = refl

establish-IsUp_example :
    (c : End) × (establish verbs queue_pairs pipe endpoint_codec mr_codec
        (bounded (ℕ × ℕ))
        (bounded Entry)
        (bounded ℕ)
        data_path
        reg_mr
        5
        places
        queue_pair
        from_peer
      ≡ some c)
    × IsUp verbs
        (bounded (ℕ × ℕ))
        (bounded Entry)
        (bounded ℕ)
        (region_of (region_at 100000 default_recv_buffer_size))
        (region_of (region_at 100000000 default_send_buffer_size))
        places.flags
        peer_region
        c
unfolding endpoint init modify modify_qp follows
establish-IsUp_example =
    establish-IsUp verbs queue_pairs pipe endpoint_codec mr_codec (bounded (ℕ × ℕ)) (bounded Entry)
      (bounded ℕ) data_path reg_mr 5 places queue_pair from_peer the_peer peer_region
      (region_at 100000 default_recv_buffer_size) (region_at 100000000 default_send_buffer_size) []
      refl (record { addr = refl; length = refl }) refl (record { addr = refl; length = refl })
      (omega arith) (refl, omega arith, omega arith) (refl, omega arith, omega arith) refl
      (omega arith, omega arith, omega arith) (λ t. pipe_writes t _) refl

abbrev host : Host
host = record {
  open_device_answer = λ log. some 1;
  alloc_pd_answer = λ log d. some 10;
  create_comp_channel_answer = λ log d. none;
  create_cq_answer = λ log d n c. some 20;
  create_qp_answer = λ log pd attr. some 30;
}

abbrev opened_heap : Heap
opened_heap = set_strong (call no_heap (open_device 1)) 1 1

abbrev qp_dev : Qp → QueuePair
qp_dev q = queue_pair

abbrev one_client : List (Places × IoResult Pipe)
one_client = (places, ok from_peer) ∷ (places, err 24) ∷ []
