-- ===== src/Net/Tests.antt =====
-- A run of two connections with buffers of 100 bytes, and the theorems about the network at it.
use ibv.Prelude.{
  ℕ, ◌+◌, ◌≡◌, ◌≢◌, refl, ap, drop, true, false, ◌==◌, if◌then◌else◌, none, some, List, [], ◌∷◌,
  ◌++◌, map, All, arith, u32_mod, ◌-◌,
}
use ibv.Channel.Bounded.{Bounded, bounded, push, pop}
use ibv.Memory.{load, store}
use ibv.Ring.{flat}
use ibv.Verbs.{IbvWc, IbvSendWr}
use ibv.Verbs.Model.{Device, verbs, post_send, post_recv}
use ibv.Mr.Region.{Mr, LocalBuf, RemoteBuf, from_mr, into_sge}
use ibv.Mr.RemoteBufs
use ibv.Mr.RemoteBufs.{RemoteBufManager}
use ibv.Mr.SendBufs
use ibv.Mr.SendBufs.{SendBuffer, Entry, take_buffer}
use ibv.Mr.RecvBufs
use ibv.Mr.RecvBufs.{slice, read}
use ibv.Qp.{write_with_imm, post_null_recv}
use ibv.Qp.Requests.{null_recv}
use ibv.Wr
use ibv.Wr.{post_to_qp}
use ibv.Cq.{opcode_from}
use ibv.Daemon.{dispatch, arrived}
use ibv.Link
use ibv.Link.{Link, start, acknowledge}
use ibv.Connect.Coming.{IsUp}
use ibv.Conn.{ConnOf, copy_slices, reserve, post, recv_msg}
use ibv.Net.{
  Net, Ticket, Posted, Reach, here, later, reserve_step, post_step, transfer, poll_step, recv_step,
  bytes_of, request, gather, arrival_of,
}
use ibv.Net.Refused.{refused-misread}
use ibv.Net.Draining.{posted-got}
use ibv.Net.Refines.{begin, IsReady, Reach-Link, got-posted, gather-bytes, recv_msg-written}

abbrev End : Type 0
End = ConnOf verbs (bounded (ℕ × ℕ)) (bounded Entry) (bounded ℕ)

abbrev NetOf : Type 0
NetOf = Net verbs (bounded (ℕ × ℕ)) (bounded Entry) (bounded ℕ)

abbrev region : Mr
region = record { inner = 8; addr = 5000; length = 100; lkey = 4; rkey = 2 }

abbrev nothing : Bounded (ℕ × ℕ)
nothing = record { values = []; limit = 16384 }

abbrev manager_at : ℕ → RemoteBufManager
manager_at index = record {
  done = 5000;
  index = index;
  left = 5000;
  right = 5100;
  mr = record { addr = 5000; length = 100; rkey = 2 };
}

abbrev send_buffer : SendBuffer (Bounded Entry)
send_buffer = record {
  mr = record { inner = 7; addr = 1000; length = 100; lkey = 1; rkey = 3 };
  done = 1000;
  index = 1000;
  left = 1000;
  right = 1100;
  to_release = record { values = []; limit = 32768 };
  holding = none;
  flags = λ p. false;
}

abbrev device : Device
device = record { sends = []; recvs = []; completions = []; limit = 4 }

abbrev fresh_end : End
fresh_end = record {
  recv_buf = record {
    mr = region;
    rx = nothing;
    recv_buffer = record { ptr = 5000; len = 100 };
    released = 0;
    done = 5000;
    index = 5000;
    left = 5000;
    right = 5100;
  };
  sending = 0;
  lock = false;
  allocator = manager_at 5000;
  send_buf = send_buffer;
  dev = device;
  release = record { values = []; limit = 4 };
  mem = λ p. 0;
}

ready :
    IsReady verbs (bounded (ℕ × ℕ)) (bounded Entry) (bounded ℕ) region nothing fresh_end fresh_end
unfolding RemoteBufs.new RecvBufs.new from_mr
ready = record {
  valid = record {
    layout = flat (omega arith) refl (omega arith);
    headroom = omega arith;
    short = omega arith;
  };
  unsent = refl;
  allocator = refl;
  recv_buf = refl;
  unread = refl;
  unreported = refl;
}

abbrev two_slices : List (List ℕ)
two_slices = (104 ∷ 105 ∷ []) ∷ (33 ∷ []) ∷ []

abbrev local_buf : LocalBuf
local_buf = record { addr = 1000; length = 3; lkey = 1 }

abbrev remote_buf : RemoteBuf
remote_buf = record { addr = 5000; length = 3; rkey = 2 }

abbrev reserved_end : End
reserved_end = record fresh_end {
  send_buf = record send_buffer {
    index = 1003;
    to_release = record { values = (64, 3) ∷ []; limit = 32768 };
    flags = λ p. if p == 64 then true else false;
  };
  mem = copy_slices (λ p. 0) 1000 two_slices;
}

abbrev posted_end : End
posted_end = record reserved_end {
  allocator = manager_at 5003;
  dev = write_with_imm verbs local_buf remote_buf 0 64 device;
  lock = false;
}

abbrev ticket : Ticket
ticket = record { local_buf = local_buf; flag = 64; msg = two_slices }

abbrev initial : NetOf
initial = begin verbs (bounded (ℕ × ℕ)) (bounded Entry) (bounded ℕ) fresh_end fresh_end

abbrev posted_net : NetOf
posted_net = record initial {
  a = posted_end;
  posted = record { ticket = ticket; remote = remote_buf; imm = 0 } ∷ [];
  sent = (104 ∷ 105 ∷ 33 ∷ []) ∷ [];
}

posted_reached : Reach verbs (bounded (ℕ × ℕ)) (bounded Entry) (bounded ℕ) initial posted_net
unfolding reserve post SendBufs.alloc RemoteBufs.alloc take_buffer push pop post_send
posted_reached =
    later
      (later here (reserve_step 64 two_slices local_buf 64 reserved_end (omega arith) refl refl))
      (post_step [] [] ticket 0 remote_buf (manager_at 5003) posted_end refl refl refl refl)

Reach-Link_example :
    (l : Link (Bounded (ℕ × ℕ))) × Link.Reach (start region nothing fresh_end.mem) l
    × (l.sent ≡ posted_net.sent)
    × (l.got ≡ [])
    × (l.held ≡ [])
    × (l.wire ≡ (104 ∷ 105 ∷ 33 ∷ []) ∷ [])
    × (l.notes ≡ [])
    × (l.sender ≡ manager_at 5003)
Reach-Link_example =
    Reach-Link verbs (bounded (ℕ × ℕ)) (bounded Entry) (bounded ℕ) region nothing fresh_end
      fresh_end (omega arith) ready posted_reached

abbrev posted_message : Posted
posted_message = record { ticket = ticket; remote = remote_buf; imm = 0 }

abbrev greeting : List ℕ
greeting = 104 ∷ 105 ∷ 33 ∷ []

abbrev arrival : IbvWc
arrival = arrival_of (request posted_message)

abbrev polled_device : Device
polled_device = record device { recvs = null_recv ∷ [] }

abbrev received_end : End
received_end = record fresh_end {
  recv_buf = record fresh_end.recv_buf { index = 5003 };
  sending = u32_mod - 1;
  dev = polled_device;
  mem = store (λ p. 0) 5000 (load posted_end.mem 1000 3 ++ []);
}

abbrev received_net : NetOf
received_net = record initial {
  a = record posted_end { dev = device };
  b = received_end;
  completions = 64 ∷ [];
  held = 3 ∷ [];
  sent = greeting ∷ [];
  got = some greeting ∷ [];
}

-- the message has arrived, and its report waits
abbrev arrived_net : NetOf
arrived_net = record received_net {
  b = record received_end {
    recv_buf = record fresh_end.recv_buf { rx = record { values = (3, 0) ∷ []; limit = 16384 } };
    sending = 0;
  };
  written = greeting ∷ [];
  held = [];
  got = [];
}

arrived_reached : Reach verbs (bounded (ℕ × ℕ)) (bounded Entry) (bounded ℕ) initial arrived_net
unfolding write_with_imm post_to_qp Wr.new into_sge post_send post_recv dispatch arrived
    post_null_recv opcode_from load store copy_slices push pop
arrived_reached =
    later
      (later posted_reached
        (transfer posted_message [] (request posted_message) [] device refl refl refl))
      (poll_step arrival [] polled_device (record { values = (3, 0) ∷ []; limit = 16384 })
        (λ p. false) refl refl)

received_reached : Reach verbs (bounded (ℕ × ℕ)) (bounded Entry) (bounded ℕ) initial received_net
unfolding write_with_imm post_to_qp Wr.new into_sge post_send post_recv dispatch arrived
    post_null_recv opcode_from recv_msg read slice load store copy_slices push pop acknowledge
received_reached =
    later arrived_reached (recv_step greeting [] (some greeting) received_end refl refl)

got-posted_example : some greeting ∷ [] ≡ some greeting ∷ []
got-posted_example =
    got-posted verbs (bounded (ℕ × ℕ)) (bounded Entry) (bounded ℕ) region nothing fresh_end
      fresh_end (omega arith) ready received_reached

fresh_end-IsUp :
    IsUp verbs
      (bounded (ℕ × ℕ))
      (bounded Entry)
      (bounded ℕ)
      region
      fresh_end.send_buf.mr
      fresh_end.send_buf.flags
      (from_mr region)
      fresh_end
unfolding RemoteBufs.new SendBufs.new RecvBufs.new from_mr
fresh_end-IsUp = record {
  valid = ready.valid;
  send_buf = refl;
  no_entry = refl;
  allocator = refl;
  recv_buf = refl;
  unreported = refl;
  unlocked = refl;
  uncounted = refl;
}

recv_msg-written_example :
    (m : List ℕ) × (w : List (List ℕ)) × (b' : End) × (greeting ∷ [] ≡ m ∷ w)
    × (recv_msg verbs (bounded (ℕ × ℕ)) (bounded Entry) (bounded ℕ) arrived_net.b
        ≡ some (some m, b'))
recv_msg-written_example =
    recv_msg-written verbs (bounded (ℕ × ℕ)) (bounded Entry) (bounded ℕ) region nothing fresh_end
      fresh_end (omega arith) ready 3 0 [] arrived_reached refl

gather-bytes_example :
    (posted_end.dev.sends ≡ map request posted_net.posted)
    × All (λ p. gather posted_end.mem (request p).sg_list ≡ bytes_of p) posted_net.posted
gather-bytes_example =
    gather-bytes verbs (bounded (ℕ × ℕ)) (bounded Entry) (bounded ℕ) region nothing fresh_end
      fresh_end (omega arith) ready posted_reached

-- A device whose send queue is full, and a second message of one byte.
abbrev full_end : End
full_end = record fresh_end { dev = record device { limit = 0 } }

abbrev full_posted : End
full_posted = record full_end { allocator = manager_at 5003 }

abbrev behind : RemoteBuf
behind = record { addr = 5003; length = 1; rkey = 2 }

full_refuses : (wr : IbvSendWr) → (post_send full_end.dev wr).0 ≢ 0
unfolding post_send
full_refuses wr e = absurd (omega arith)

refused-misread_example :
    (full_posted.dev.sends ≡ full_end.dev.sends)
    × (5003 ≡ 5000 + 3)
    × ((read (store (λ p. 0) 5003 (7 ∷ [])) (start region nothing (λ p. 0)).receiver 1).0
        ≡ some (load (λ p. 0) 5000 1))
unfolding write_with_imm post_to_qp Wr.new into_sge post_send post RemoteBufs.alloc RemoteBufs.new
    from_mr
refused-misread_example =
    refused-misread verbs (bounded (ℕ × ℕ)) (bounded Entry) (bounded ℕ) region nothing (λ p. 0)
      (omega arith) full_end local_buf 64 0 two_slices ((7 ∷ []) ∷ []) {a' = full_posted}
      {r = behind} {k = manager_at 5004} Link.here refl refl (omega arith) (omega arith)
      (omega arith) full_refuses refl refl

-- the device behind the transfer of its oldest request
abbrev carry_out : Device → Device
carry_out d = record d { sends = drop 1 d.sends }

carry_out-queue :
    (d : Device) (wr : IbvSendWr) (rest : List IbvSendWr)
    → d.sends ≡ wr ∷ rest
    → (carry_out d).sends ≡ rest
carry_out-queue d wr rest e = ap (drop 1) e

posted-got_example :
    (t : NetOf) × Reach verbs (bounded (ℕ × ℕ)) (bounded Entry) (bounded ℕ) posted_net t
    × (t.sent ≡ greeting ∷ [])
    × (t.got ≡ some greeting ∷ [])
posted-got_example =
    posted-got verbs (bounded (ℕ × ℕ)) (bounded Entry) (bounded ℕ) region nothing fresh_end
      fresh_end (omega arith) ready carry_out carry_out-queue posted_reached (omega arith)
