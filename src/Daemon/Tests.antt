-- ===== src/Daemon/Tests.antt =====
-- A poll of three completions by a daemon whose channel holds two reports.
use ibv.Prelude.{ℕ, ◌≡◌, refl, true, false, none, some, List, [], ◌∷◌, ◌==◌, if◌then◌else◌, arith}
use ibv.Channel.Bounded.{Bounded, bounded, push}
use ibv.Verbs.{IbvWc}
use ibv.Verbs.Model.{Device, verbs, post_recv}
use ibv.Wr.{post_to_qp}
use ibv.Cq.{opcode_from}
use ibv.Qp.{post_null_recv}
use ibv.Daemon.{Daemon, arrived, dispatch, dispatch_all}
use ibv.Cq.{new}
use ibv.Mr.RecvBufs.{RecvBuffer}
use ibv.Daemon.Notify.{Events, going, panicked, notify, notify-new}
use ibv.Daemon.Dispatch.{is_written, dispatch_all-lem, dispatch_all-room}

abbrev arrival : ℕ → ℕ → IbvWc
arrival length imm = record {
  wr_id = 0;
  status = 0;
  opcode = 129;
  imm_data = imm;
  wc_flags = 3;
  byte_len = length;
}

abbrev completion : ℕ → IbvWc
completion flag = record {
  wr_id = flag;
  status = 0;
  opcode = 1;
  imm_data = 0;
  wc_flags = 0;
  byte_len = 0;
}

abbrev some_completions : List IbvWc
some_completions = arrival 8 0 ∷ completion 4096 ∷ arrival 9 1 ∷ []

abbrev a_daemon : Daemon Device (Bounded (ℕ × ℕ))
a_daemon = record {
  dev = record { sends = []; recvs = []; completions = some_completions; limit = 4 };
  tx = record { values = []; limit = 2 };
  flags = λ p. true;
}

abbrev after : Daemon Device (Bounded (ℕ × ℕ))
after = record {
  dev = record {
    sends = [];
    recvs =
        record { wr_id = 0; sg_list = []; num_sge = 0 }
        ∷ record { wr_id = 0; sg_list = []; num_sge = 0 }
        ∷ [];
    completions = some_completions;
    limit = 4;
  };
  tx = record { values = (8, 0) ∷ (9, 1) ∷ []; limit = 2 };
  flags = λ p. if p == 4096 then false else true;
}

two_reports : dispatch_all verbs (bounded (ℕ × ℕ)) a_daemon some_completions ≡ some after
unfolding dispatch_all arrived post_null_recv post_to_qp post_recv push opcode_from dispatch
two_reports = refl

dispatch_all-lem_example :
    (after.tx.values ≡ (8, 0) ∷ (9, 1) ∷ [])
    × ((p : ℕ) → after.flags p ≡ (if is_written p some_completions then false else true))
dispatch_all-lem_example =
    dispatch_all-lem verbs (bounded (ℕ × ℕ)) a_daemon some_completions {d' = after} two_reports

dispatch_all-room_example :
    (d' : Daemon Device (Bounded (ℕ × ℕ))) × (dispatch_all verbs
        (bounded (ℕ × ℕ))
        a_daemon
        some_completions
      ≡ some d')
dispatch_all-room_example =
    dispatch_all-room verbs (bounded (ℕ × ℕ)) a_daemon some_completions (omega arith)

abbrev no_events : Events verbs
no_events = record {
  req_notify_cq = λ d solicited. (0, d);
  get_cq_event = λ d c. (0, d);
  ack_cq_events = λ d n. d;
}

abbrev small_buffer : RecvBuffer (Unit {0})
small_buffer = record {
  mr = record { inner = 8; addr = 3000; length = 100; lkey = 4; rkey = 5 };
  rx = tt;
  recv_buffer = record { ptr = 3000; len = 100 };
  released = 0;
  done = 3000;
  index = 3000;
  left = 3000;
  right = 3100;
}

notify-new_example :
    notify verbs no_events
      (λ p. 0)
      (record { inner = 9; channel = none })
      7
      (going a_daemon.dev small_buffer)
    ≡ panicked
unfolding new
notify-new_example =
    notify-new verbs no_events (λ p. 0) (record { inner = 9; channel = none }) (some 3)
      (λ size channel. some 9) 6 a_daemon.dev small_buffer refl
