-- ===== src/Conn/Returning.antt =====
-- When `send_msg` returns (src/connection/conn.rs, lines 88 to 117), and the receive requests that
-- `Conn::new` posts (lines 66 to 68).
use ibv.Prelude.{
  ℕ, zero, suc, ◌≤◌, ◌<◌, ◌≡◌, ◌≢◌, refl, sym, inl, inr, false, none, some, List, [], ◌∷◌, ◌++◌,
  append-nil, append_assoc, arith, u32_mod, as_u32,
}
use ibv.Channel.{Mpsc}
use ibv.Ring.{HasRoom}
use ibv.Verbs.{Verbs, IbvRecvWr}
use ibv.Mr.RemoteBufs.{IsValid}
use ibv.Mr.RemoteBufs.Alloc.{alloc-returns}
use ibv.Mr.SendBufs.Progress
use ibv.Mr.SendBufs.Progress.{QueueRoom, alloc-finishes}
use ibv.Mr.RemoteBufs.Waiting
use ibv.Mr.SendBufs.{Entry, Event, Inv}
use ibv.Mr.SendBufs.Waiting.{quiet}
use ibv.Qp.Requests.{null_recv, post_null_recv-total}
use ibv.Conn.{ConnOf, total_len, too_many, reserve, admit, post, send_msg, post_null_recvs}

-- `n` empty receive requests
abbrev pub null_recvs : ℕ → List IbvRecvWr
null_recvs zero = []
null_recvs (suc n) = null_recv ∷ null_recvs n

module _ (V : Verbs) where
  -- The loop of `Conn::new` does not panic; it puts up to n empty requests into the receive
  -- queue, one for each that the device takes.
  pub post_null_recvs-total :
      (n : ℕ) (dev : V.Dev)
      → (dev' : V.Dev) × (post_null_recvs V n dev ≡ some dev')
        × ((k : ℕ) × (k ≤ n) × (V.recv_queue dev' ≡ V.recv_queue dev ++ null_recvs k))
  unfolding post_null_recvs
  post_null_recvs-total zero dev = (dev, refl, (0, omega arith, sym (append-nil _)))
  post_null_recvs-total (suc n) dev =
      let (dev1, posted, cases) = post_null_recv-total V dev in
      let (dev2, rest, (k, le, q)) = post_null_recvs-total n dev1 in
      (
        dev2,
        rw (posted, post_null_recvs) rest,
        elim cases [
          | inl (_, more) ↦ (suc k, omega arith, rw (q, more, append_assoc) refl)
          | inr (_, same) ↦ (k, omega arith, rw (q, same) refl)
        ],
      )

module _ (V : Verbs) (Q : Mpsc (ℕ × ℕ)) (QE : Mpsc Entry) (QR : Mpsc ℕ) where
  abbrev Self : Type 0
  Self = ConnOf V Q QE QR

  -- If the invariants of both buffers hold, the message is shorter than 2 ^ 32 bytes, the queue
  -- to the release task has room, the lock is free, the counter is below its limit, nothing runs
  -- between the two loads of a test, and the events and updates of some rounds make room in both
  -- rings, `send_msg` returns.
  pub send_msg-returns :
      (c : Self) (flag : ℕ) (msg : List (List ℕ)) (ss : List (List Event)) (us : List (List ℕ))
      → Inv QE c.send_buf
      → IsValid c.allocator
      → total_len msg < u32_mod
      → QueueRoom QE c.send_buf
      → HasRoom c.send_buf.left c.send_buf.right
          (Progress.after_rounds QE c.send_buf ss).done
          c.send_buf.index
          (total_len msg)
      → c.lock ≡ false
      → too_many c.sending ≡ false
      → HasRoom c.allocator.left c.allocator.right
          (Waiting.after_rounds c.allocator us).done
          c.allocator.index
          (total_len msg)
      → send_msg V Q QE QR (quiet (ss ++ [] ∷ [])) (Waiting.quiet (us ++ [] ∷ [])) c flag msg ≢ none
  unfolding send_msg reserve admit post
  send_msg-returns c flag msg ss us v w short queue_room room free few far_room =
      let whole : as_u32 (total_len msg) ≡ total_len msg = omega (arith, short) in
      ground (
        arith,
        whole,
        alloc-finishes QE c.send_buf flag (total_len msg) ss v short queue_room room,
        alloc-returns c.allocator (total_len msg) w short us far_room,
      )
