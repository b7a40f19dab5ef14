-- ===== src/Conn/Tests/Extremes.antt =====
-- A connection that has received more than 2 ^ 31 messages, and a message of more than 2 ^ 32 bytes.
use ibv.Prelude.{
  ℕ, zero, suc, ◌+◌, ◌-◌, ◌%◌, ◌^◌, ◌<◌, ◌≡◌, refl, ap, true, false, ◌==◌, if◌then◌else◌, none,
  some, List, [], ◌∷◌, arith, u32_mod, add32, length,
}
use ibv.Channel.Bounded.{Bounded, bounded, push, pop}
use ibv.Memory.{load}
use ibv.Verbs.Model.{verbs}
use ibv.Mr.Region.{LocalBuf}
use ibv.Mr.SendBufs
use ibv.Mr.SendBufs.{SendBuffer, Entry, Inv, take_buffer}
use ibv.Mr.SendBufs.Waiting.{quiet}
use ibv.Mr.RecvBufs.{slice, read}
use ibv.Link.{acknowledge}
use ibv.Conn.{total_len, copy_slices, reserve, admit, recv_msg}
use ibv.Conn.Copying.{joined}
use ibv.Conn.Counting.{History, fresh, received, others, admit-wrapped}
use ibv.Conn.Overrun.{reserve-overrun}
use ibv.Conn.Tests.{TestConn, send_buffer, recv_buffer, idle_conn, send_buffer-Inv}

-- what the counter is after `n` messages are received and none is sent
count_down : ℕ → ℕ
count_down zero = 0
count_down (suc n) = add32 (count_down n) (u32_mod - 1)

abbrev after_many : ℕ → TestConn
after_many n = record idle_conn { sending = count_down n }

-- a message without bytes in the channel
abbrev with_report : ℕ → TestConn
with_report n = record (after_many n) {
  recv_buf = record recv_buffer { rx = record { values = (0, 0) ∷ []; limit = 4 } };
}

empty_received :
    (n : ℕ)
    → recv_msg verbs (bounded (ℕ × ℕ)) (bounded Entry) (bounded ℕ) (with_report n)
      ≡ some (some [], after_many (suc n))
unfolding recv_msg read slice load acknowledge pop count_down
empty_received n = refl

many : (n : ℕ) → History verbs (bounded (ℕ × ℕ)) (bounded Entry) (bounded ℕ) 0 n (after_many n)
unfolding count_down
many zero = fresh (after_many zero) refl
many (suc n) =
    received {c = with_report n} {c' = after_many (suc n)} (some [])
      (others idle_conn.dev (record { values = (0, 0) ∷ []; limit = 4 }) send_buffer (λ p. 0)
        (many n))
      (empty_received n)

admit-wrapped_example :
    admit verbs (bounded (ℕ × ℕ)) (bounded Entry) (bounded ℕ) (after_many (2 ^ 31 + 1)) ≡ none
admit-wrapped_example =
    admit-wrapped verbs (bounded (ℕ × ℕ)) (bounded Entry) (bounded ℕ) (many (2 ^ 31 + 1))
      (omega arith) (omega arith)

-- `n` bytes
zeros : ℕ → List ℕ
zeros zero = []
zeros (suc n) = 0 ∷ zeros n

length-zeros : (n : ℕ) → length (zeros n) ≡ n
unfolding zeros
length-zeros zero = refl
length-zeros (suc n) = ap suc (length-zeros n)

abbrev huge : List (List ℕ)
huge = zeros (2 ^ 32 + 8) ∷ []

huge_len : total_len huge ≡ 2 ^ 32 + 8
huge_len = omega (arith, length-zeros (2 ^ 32 + 8))

abbrev overrun_conn : TestConn
overrun_conn = record idle_conn {
  send_buf = record send_buffer {
    index = 1008;
    to_release = record { values = (64, 8) ∷ []; limit = 8 };
    flags = λ p. if p == 64 then true else false;
  };
  mem = copy_slices (λ p. 0) 1000 huge;
}

cut_len : total_len huge % u32_mod ≡ 8
cut_len = rw huge_len refl

reserve_of :
    (msg : List (List ℕ)) (k : ℕ) {l : LocalBuf} {s : SendBuffer (Bounded Entry)}
    → total_len msg % u32_mod ≡ k
    → SendBufs.alloc (bounded Entry) (quiet ([] ∷ [])) send_buffer 64 k ≡ some (l, 64, s)
    → reserve verbs (bounded (ℕ × ℕ)) (bounded Entry) (bounded ℕ) (quiet ([] ∷ [])) idle_conn 64 msg
      ≡ some (l, 64, record idle_conn { send_buf = s; mem = copy_slices (λ p. 0) l.addr msg })
unfolding reserve
reserve_of msg k e h = rw (reserve, e, h) refl

eight_run :
    SendBufs.alloc (bounded Entry) (quiet ([] ∷ [])) send_buffer 64 8
    ≡ some (record { addr = 1000; length = 8; lkey = 1 }, 64, overrun_conn.send_buf)
unfolding SendBufs.alloc take_buffer push
eight_run = refl

reserve_run :
    reserve verbs (bounded (ℕ × ℕ)) (bounded Entry) (bounded ℕ) (quiet ([] ∷ [])) idle_conn 64 huge
    ≡ some (record { addr = 1000; length = 8; lkey = 1 }, 64, overrun_conn)
reserve_run = reserve_of huge 8 cut_len eight_run

reserve-overrun_example :
    (8 < total_len huge)
    × (load (copy_slices (λ p. 0) 1000 huge) 1000 (total_len huge) ≡ joined huge)
reserve-overrun_example =
    reserve-overrun verbs (bounded (ℕ × ℕ)) (bounded Entry) (bounded ℕ) idle_conn 64 huge ([] ∷ [])
      {l = record { addr = 1000; length = 8; lkey = 1 }} {wr_id = 64} {c' = overrun_conn}
      send_buffer-Inv (omega (arith, huge_len)) (omega (arith, huge_len)) reserve_run
