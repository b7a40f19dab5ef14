-- ===== src/Conn/Tests.antt =====
-- A connection whose buffers have 100 bytes, and the theorems about connections at its states.
mod Extremes
use ibv.Prelude.{
  ℕ, zero, suc, ◌+◌, ◌-◌, ◌%◌, ◌^◌, ◌≤◌, ◌<◌, ◌≡◌, ◌≢◌, ◌⊎◌, refl, ap, inr, true, false, ◌==◌,
  if◌then◌else◌, none, some, List, [], ◌∷◌, arith, u32_mod, add32, length,
}
use ibv.Defaults.{max_sending}
use ibv.Channel.Bounded.{Bounded, bounded, push, pop}
use ibv.Memory.{load}
use ibv.Ring.{flat}
use ibv.Verbs.Model.{Device, verbs}
use ibv.Mr.Region.{LocalBuf, RemoteBuf}
use ibv.Mr.RemoteBufs
use ibv.Mr.RemoteBufs.{RemoteBufManager, update}
use ibv.Mr.RemoteBufs.Waiting
use ibv.Mr.SendBufs
use ibv.Mr.SendBufs.{SendBuffer, Entry, Inv, take_buffer}
use ibv.Mr.SendBufs.Waiting.{quiet}
use ibv.Mr.RecvBufs
use ibv.Mr.RecvBufs.{RecvBuffer, slice, read, notify_release}
use ibv.Qp.{write_with_imm}
use ibv.Link.{acknowledge}
use ibv.Conn.{
  ConnOf, total_len, copy_slices, too_many, get_release_length, reserve, admit, post, send_msg,
  recv_msg, release, post_null_recvs,
}
use ibv.Conn.Copying.{joined, load-copy_slices}
use ibv.Conn.Counting.{
  History, fresh, admitted, received, others, sent-bound, admit-limit, admit-wrapped,
}
use ibv.Conn.Sending.{Sent, send_msg-Sent}
use ibv.Conn.Returning.{null_recvs, send_msg-returns, post_null_recvs-total}
use ibv.Conn.Reports.{unreported, release-unreported}
use ibv.Conn.Overrun.{reserve-overrun}

abbrev TestConn : Type 0
TestConn = ConnOf verbs (bounded (ℕ × ℕ)) (bounded Entry) (bounded ℕ)

abbrev remote_at : ℕ → RemoteBufManager
remote_at index = record {
  done = 5000;
  index = index;
  left = 5000;
  right = 5100;
  mr = record { addr = 5000; length = 100; rkey = 2 };
}

abbrev send_buffer : SendBuffer (Bounded Entry)
send_buffer = record {
  mr = record { inner = 7; addr = 1000; length = 100; lkey = 1; rkey = 3 };
  done = 1000;
  index = 1000;
  left = 1000;
  right = 1100;
  to_release = record { values = []; limit = 8 };
  holding = none;
  flags = λ p. false;
}

abbrev recv_buffer : RecvBuffer (Bounded (ℕ × ℕ))
recv_buffer = record {
  mr = record { inner = 8; addr = 3000; length = 100; lkey = 4; rkey = 5 };
  rx = record { values = []; limit = 4 };
  recv_buffer = record { ptr = 3000; len = 100 };
  released = 0;
  done = 3000;
  index = 3000;
  left = 3000;
  right = 3100;
}

-- a connection with one report of 7 bytes under way
abbrev idle_conn : TestConn
idle_conn = record {
  recv_buf = recv_buffer;
  sending = 0;
  lock = false;
  allocator = remote_at 5000;
  send_buf = send_buffer;
  dev = record { sends = []; recvs = []; completions = []; limit = 4 };
  release = record { values = 7 ∷ []; limit = 4 };
  mem = λ p. 0;
}

send_buffer-Inv : Inv (bounded Entry) send_buffer
send_buffer-Inv = record {
  layout = flat (omega arith) refl (omega arith);
  headroom = omega arith;
  short = omega arith;
}

abbrev two_slices : List (List ℕ)
two_slices = (104 ∷ 105 ∷ []) ∷ (33 ∷ []) ∷ []

abbrev sent_conn : TestConn
sent_conn = record idle_conn {
  sending = 1;
  allocator = remote_at 5003;
  send_buf = record send_buffer {
    index = 1003;
    to_release = record { values = (64, 3) ∷ []; limit = 8 };
    flags = λ p. if p == 64 then true else false;
  };
  dev =
      write_with_imm verbs (record { addr = 1000; length = 3; lkey = 1 })
        (record { addr = 5000; length = 3; rkey = 2 }) 7 64
        (record { sends = []; recvs = []; completions = []; limit = 4 });
  release = record { values = []; limit = 4 };
  mem = copy_slices (λ p. 0) 1000 two_slices;
}

sent_run :
    send_msg verbs
      (bounded (ℕ × ℕ))
      (bounded Entry)
      (bounded ℕ)
      (quiet ([] ∷ []))
      (Waiting.quiet ([] ∷ []))
      idle_conn
      64
      two_slices
    ≡ some sent_conn
unfolding send_msg reserve admit post get_release_length too_many SendBufs.alloc RemoteBufs.alloc
    take_buffer push pop
sent_run = refl

send_msg-Sent_example :
    (l : LocalBuf) × (r : RemoteBuf) × Sent verbs
      (bounded (ℕ × ℕ))
      (bounded Entry)
      (bounded ℕ)
      (Waiting.quiet ([] ∷ []))
      idle_conn
      64
      two_slices
      l
      r
      sent_conn
send_msg-Sent_example =
    send_msg-Sent verbs (bounded (ℕ × ℕ)) (bounded Entry) (bounded ℕ) idle_conn 64 two_slices
      ([] ∷ []) (Waiting.quiet ([] ∷ [])) send_buffer-Inv (omega arith) sent_run

remote-IsValid : RemoteBufs.IsValid (remote_at 5000)
remote-IsValid = record {
  done_low = omega arith;
  done_high = omega arith;
  index_low = omega arith;
  index_high = omega arith;
  headroom = omega arith;
}

none_sent : too_many 0 ≡ false
unfolding too_many
none_sent = refl

send_msg-returns_example :
    send_msg verbs
      (bounded (ℕ × ℕ))
      (bounded Entry)
      (bounded ℕ)
      (quiet ([] ∷ []))
      (Waiting.quiet ([] ∷ []))
      idle_conn
      64
      two_slices
    ≢ none
send_msg-returns_example =
    send_msg-returns verbs (bounded (ℕ × ℕ)) (bounded Entry) (bounded ℕ) idle_conn 64 two_slices []
      [] send_buffer-Inv remote-IsValid (omega arith) (omega arith) (inr (omega arith)) refl
      none_sent (inr (omega arith))

abbrev admitted_conn : TestConn
admitted_conn = record idle_conn {
  sending = 1;
  lock = true;
  release = record { values = []; limit = 4 };
}

admit_run :
    admit verbs (bounded (ℕ × ℕ)) (bounded Entry) (bounded ℕ) idle_conn ≡ some (7, admitted_conn)
unfolding admit get_release_length too_many pop
admit_run = refl

one_admitted : History verbs (bounded (ℕ × ℕ)) (bounded Entry) (bounded ℕ) 1 0 admitted_conn
one_admitted = admitted 7 (fresh idle_conn refl) admit_run

sent-bound_example : 1 ≤ 0 + max_sending
sent-bound_example =
    sent-bound verbs (bounded (ℕ × ℕ)) (bounded Entry) (bounded ℕ) one_admitted (omega arith)

admit-limit_example :
    ((0 < 0 + max_sending)
      × (admit verbs (bounded (ℕ × ℕ)) (bounded Entry) (bounded ℕ) idle_conn ≢ none))
    ⊎ ((0 ≡ 0 + max_sending)
        × (admit verbs (bounded (ℕ × ℕ)) (bounded Entry) (bounded ℕ) idle_conn ≡ none))
admit-limit_example =
    admit-limit verbs (bounded (ℕ × ℕ)) (bounded Entry) (bounded ℕ) (fresh idle_conn refl)
      (omega arith) refl

abbrev released_conn : TestConn
released_conn = record idle_conn { recv_buf = record recv_buffer { released = 30 } }

release_run :
    release verbs (bounded (ℕ × ℕ)) (bounded Entry) (bounded ℕ) idle_conn 30 ≡ some released_conn
unfolding release notify_release
release_run = refl

recv_buffer-IsValid : RecvBufs.IsValid recv_buffer
recv_buffer-IsValid = record {
  index_low = omega arith;
  index_high = omega arith;
  done_low = omega arith;
  done_high = omega arith;
  headroom = omega arith;
  short = omega arith;
  region = refl;
  base = refl;
  extent = refl;
}

release-unreported_example :
    unreported verbs (bounded (ℕ × ℕ)) (bounded Entry) (bounded ℕ) released_conn
    ≡ unreported verbs (bounded (ℕ × ℕ)) (bounded Entry) (bounded ℕ) idle_conn + 30
release-unreported_example =
    release-unreported verbs (bounded (ℕ × ℕ)) (bounded Entry) (bounded ℕ) idle_conn 30
      {c' = released_conn} recv_buffer-IsValid (omega arith) release_run
