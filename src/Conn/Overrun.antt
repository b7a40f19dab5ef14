-- ===== src/Conn/Overrun.antt =====
-- A message of 2 ^ 32 bytes or more in `send_msg` (src/connection/conn.rs, lines 90 to 100).
use ibv.Prelude.{ℕ, ◌+◌, ◌^◌, ◌≤◌, ◌<◌, ◌≡◌, some, List, arith, u32_mod, as_u32}
use ibv.Channel.{Mpsc}
use ibv.Memory.{load}
use ibv.Verbs.{Verbs}
use ibv.Mr.Region.{LocalBuf}
use ibv.Mr.SendBufs.{Entry, Event, Inv}
use ibv.Mr.SendBufs.Waiting.{quiet}
use ibv.Mr.SendBufs.Alloc.{alloc-Safe}
use ibv.Conn.{ConnOf, total_len, reserve}
use ibv.Conn.Copying.{joined, load-copy_slices}
use ibv.Conn.Sending.{reserve-some}

module _ (V : Verbs) (Q : Mpsc (ℕ × ℕ)) (QE : Mpsc Entry) (QR : Mpsc ℕ) where
  -- If the invariant of the send buffer holds, the message has 2 ^ 32 bytes or more and would
  -- end below 2 ^ 64, the local buffer that it gets is shorter than the message, and all bytes
  -- of the message are copied from the buffer's start on.
  pub reserve-overrun :
      (c : ConnOf V Q QE QR) (flag : ℕ) (msg : List (List ℕ)) (ss : List (List Event))
      {l : LocalBuf} {wr_id : ℕ} {c' : ConnOf V Q QE QR}
      → Inv QE c.send_buf
      → u32_mod ≤ total_len msg
      → c.send_buf.right + total_len msg < 2 ^ 64
      → reserve V Q QE QR (quiet ss) c flag msg ≡ some (l, wr_id, c')
      → (l.length < total_len msg) × (load c'.mem l.addr (total_len msg) ≡ joined msg)
  reserve-overrun c flag msg ss {l} v long below h =
      let (s, got, e) = reserve-some V Q QE QR c flag msg (quiet ss) h in
      let (inv, id, used, size, low, end, newest) =
        alloc-Safe QE c.send_buf flag (as_u32 (total_len msg)) v (omega arith) ss got in
      (omega arith, rw e (load-copy_slices c.mem l.addr msg (omega arith)).0)
