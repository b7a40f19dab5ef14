-- ===== src/Conn.antt =====
-- The connection (src/connection/conn.rs, lines 40 to 145). `send_msg` is three stages, between which
-- other tasks may run: `reserve` up to the copy, `admit` from the lock to the release length, and
-- `post`. `lock` is the mutex, held from `admit` to `post`. The device `dev` stands for the queue
-- pair, which the polling task shares; `rx` of the receive buffer is that task's channel.
pub mod Copying
pub mod Counting
pub mod Sending
pub mod Returning
pub mod Reports
pub mod Overrun
mod Tests
use ibv.Prelude.{
  ℕ, zero, suc, ◌+◌, ◌-◌, ◌^◌, ◌≡◌, Bool, true, false, ◌&&◌, ◌||◌, Option, none, some, List, [],
  ◌∷◌, map, length, sum, ltb, leb, if◌then◌else◌, add32, add64, as_u32, u32_mod,
}
use ibv.Defaults.{max_sending, default_rqe_count}
use ibv.Memory.{Memory, store}
use ibv.Channel.{Mpsc}
use ibv.Verbs.{Verbs}
use ibv.Mr.Region.{LocalBuf}
use ibv.Mr.RemoteBufs
use ibv.Mr.RemoteBufs.{RemoteBufManager}
use ibv.Mr.SendBufs
use ibv.Mr.SendBufs.{SendBuffer, Entry}
use ibv.Mr.RecvBufs.{RecvBuffer, read, notify_release}
use ibv.Qp.{write_with_imm, post_null_recv}
use ibv.Link.{acknowledge}

-- `sending` is an `i32`, as its bits.
pub record Conn (Dev Rx Queue Reports : Type 0) : Type 0 where
  pub recv_buf : RecvBuffer Rx
  pub sending : ℕ
  pub lock : Bool
  pub allocator : RemoteBufManager
  pub send_buf : SendBuffer Queue
  pub dev : Dev
  pub release : Reports
  pub mem : Memory

-- `msg.iter().map(|slice| slice.len()).sum()`
abbrev pub total_len : List (List ℕ) → ℕ
total_len msg = sum (map length msg)

-- the copy loop of `send_msg`
unfoldable pub copy_slices : Memory → ℕ → List (List ℕ) → Memory
copy_slices mem addr_idx [] = mem
copy_slices mem addr_idx (slice ∷ msg) =
    copy_slices (store mem addr_idx slice) (add64 addr_idx (length slice)) msg

-- `sending >= MAX_SENDING`, as a comparison of `i32`
unfoldable pub too_many : ℕ → Bool
too_many sending = ltb sending (2 ^ 31) && leb max_sending sending

module _ (V : Verbs) where
  -- `for _ in 0..DEFAULT_RQE_COUNT { qp.post_null_recv() }`, for a number of rounds
  unfoldable pub post_null_recvs : ℕ → V.Dev → Option V.Dev
  post_null_recvs zero dev = some dev
  post_null_recvs (suc n) dev = elim (post_null_recv V dev) [
    | none ↦ none
    | some dev' ↦ post_null_recvs n dev'
  ]

module _ (QR : Mpsc ℕ) where
  -- `get_release_length`
  unfoldable pub get_release_length : QR.Chan → ℕ × QR.Chan
  get_release_length release = elim (QR.try_recv release) [
    | none ↦ (0, release)
    | some (imm, rest) ↦ (imm, rest)
  ]

module _ (V : Verbs) (Q : Mpsc (ℕ × ℕ)) (QE : Mpsc Entry) (QR : Mpsc ℕ) where
  abbrev pub ConnOf : Type 0
  ConnOf = Conn V.Dev Q.Chan QE.Chan QR.Chan

  -- `Conn::new`, with the send buffer and the remote region's manager that it makes
  unfoldable pub new :
      V.Dev → RecvBuffer Q.Chan → RemoteBufManager → SendBuffer QE.Chan → Memory → Option ConnOf
  new dev recv_buf allocator send_buf mem = elim (post_null_recvs V default_rqe_count dev) [
    | none ↦ none
    | some dev' ↦ some (record {
      recv_buf = recv_buf;
      sending = 0;
      lock = false;
      allocator = allocator;
      send_buf = send_buf;
      dev = dev';
      release = QR.channel default_rqe_count;
      mem = mem;
    })
  ]

  -- `send_msg` up to the copy, with the address of the new flag
  unfoldable pub reserve :
      List SendBufs.Turn → ConnOf → ℕ → List (List ℕ) → Option (LocalBuf × ℕ × ConnOf)
  reserve ts c flag msg = elim (SendBufs.alloc QE ts c.send_buf flag (as_u32 (total_len msg))) [
    | none ↦ none
    | some (local_buf, wr_id, s) ↦
        some
          (local_buf, wr_id, record c { send_buf = s; mem = copy_slices c.mem local_buf.addr msg })
  ]

  -- the lock, the counter and the release length; `none` where one of the first two is waited for
  unfoldable pub admit : ConnOf → Option (ℕ × ConnOf)
  admit c =
      if c.lock || too_many c.sending
      then none
      else (let (release_length, rest) = get_release_length QR c.release in
          some
            (release_length, record c { lock = true; sending = add32 c.sending 1; release = rest }))

  -- the remote buffer and the write
  unfoldable pub post :
      List RemoteBufs.Turn → ConnOf → LocalBuf → ℕ → ℕ → List (List ℕ) → Option ConnOf
  post ts c local_buf wr_id release_length msg =
      elim (RemoteBufs.alloc ts c.allocator (as_u32 (total_len msg))) [
        | none ↦ none
        | some (buf, a) ↦ some (record c {
          allocator = a;
          dev = write_with_imm V local_buf buf release_length wr_id c.dev;
          lock = false;
        })
      ]

  -- `send_msg` where no other task runs between its stages
  unfoldable pub send_msg :
      List SendBufs.Turn → List RemoteBufs.Turn → ConnOf → ℕ → List (List ℕ) → Option ConnOf
  send_msg ts us c flag msg = elim (reserve ts c flag msg) [
    | none ↦ none
    | some (local_buf, wr_id, c1) ↦ elim (admit c1) [
      | none ↦ none
      | some (release_length, c2) ↦ post us c2 local_buf wr_id release_length msg
    ]
  ]

  -- `recv_msg`: `none` where it waits; the inner `none` is the panic of `read`
  unfoldable pub recv_msg : ConnOf → Option (Option (List ℕ) × ConnOf)
  recv_msg c = elim (Q.try_recv c.recv_buf.rx) [
    | none ↦ none
    | some ((length, imm), rx) ↦
        let (bytes, r) = read c.mem (record c.recv_buf { rx = rx }) length in
        some (
          bytes,
          record c {
            sending = add32 c.sending (u32_mod - 1);
            allocator = acknowledge c.allocator imm;
            recv_buf = r;
          },
        )
  ]

  -- `release` of a slice of `len` bytes; `none` where the channel of reports is full
  unfoldable pub release : ConnOf → ℕ → Option ConnOf
  release c len =
      let (report, r) = notify_release c.recv_buf (as_u32 len) in
      elim report [
        | none ↦ some (record c { recv_buf = r })
        | some release_len ↦ elim (QR.try_send c.release release_len) [
          | none ↦ none
          | some rest ↦ some (record c { recv_buf = r; release = rest })
        ]
      ]
