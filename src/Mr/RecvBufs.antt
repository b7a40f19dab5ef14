-- ===== src/Mr/RecvBufs.antt =====
-- `RecvBuffer` (src/types/mr.rs, lines 288 to 375). The receiving end `rx` of the channel is code of
-- tokio: its type is a parameter. The three boxed counters are fields; `Arc` and `Box` are passed
-- over. The bytes of `recv_buffer` stand in the memory, since the network card writes them.
pub mod Reading
pub mod Releasing
pub mod Agreement
mod Tests
use ibv.Prelude.{
  ℕ, ◌+◌, ◌-◌, ◌≤◌, ◌<◌, ◌≡◌, ◌&&◌, Option, none, some, List, ltb, leb, if◌then◌else◌, add32, add64,
  sub64, u32_mod, u64_mod,
}
use ibv.Defaults.{min_length_to_notify_release}
use ibv.Memory.{Memory, Bytes, load}
use ibv.Mr.Region.{Mr}

pub record RecvBuffer (Rx : Type 0) : Type 0 where
  pub mr : Mr
  pub rx : Rx
  pub recv_buffer : Bytes
  pub released : ℕ
  pub done : ℕ
  pub index : ℕ
  pub left : ℕ
  pub right : ℕ

-- `&bytes[from..to]`, with `none` for the panic
unfoldable pub slice : Memory → Bytes → ℕ → ℕ → Option (List ℕ)
slice mem bytes from to =
    if leb from to && leb to bytes.len then some (load mem (bytes.ptr + from) (to - from)) else none

module _ {Rx : Type 0} where
  unfoldable pub new : Mr → Bytes → Rx → RecvBuffer Rx
  new mr recv_buffer rx = record {
    mr = mr;
    rx = rx;
    recv_buffer = recv_buffer;
    released = 0;
    done = mr.addr;
    index = mr.addr;
    left = mr.addr;
    right = add64 mr.addr mr.length;
  }

  read_range : RecvBuffer Rx → ℕ → ℕ × ℕ
  read_range r length =
      if ltb r.right (add64 r.index length)
      then (r.left, add64 r.left length)
      else (r.index, add64 r.index length)

  -- `read`: the slice, or `none` for a panic, and the buffer with its new `index`
  unfoldable pub read : Memory → RecvBuffer Rx → ℕ → Option (List ℕ) × RecvBuffer Rx
  unfolding read_range
  read mem r length =
      let (start, end) = read_range r length in
      (
        slice mem r.recv_buffer (sub64 start r.mr.addr) (sub64 end r.mr.addr),
        record r { index = end },
      )

  -- `notify_release`: the length to report to the peer, if any, and the buffer behind it
  unfoldable pub notify_release : RecvBuffer Rx → ℕ → Option ℕ × RecvBuffer Rx
  notify_release r length =
      if ltb r.right (add64 (add64 r.done r.released) length)
      then (some r.released, record r { released = length; done = r.left })
      else if leb min_length_to_notify_release (add32 r.released length)
      then (
        some (add32 r.released length),
        record r { done = add64 r.done (add32 r.released length); released = 0 },
      )
      else (none, record r { released = add32 r.released length })

  -- The counters stand in the buffer, and the buffer is where its region says.
  pub record IsValid (r : RecvBuffer Rx) : Type 0 where
    pub index_low : r.left ≤ r.index
    pub index_high : r.index ≤ r.right
    pub done_low : r.left ≤ r.done
    pub done_high : r.done + r.released ≤ r.right
    pub headroom : r.right + u32_mod ≤ u64_mod
    pub short : r.right < r.left + u32_mod
    pub region : r.mr.addr ≡ r.left
    pub base : r.recv_buffer.ptr ≡ r.left
    pub extent : r.left + r.recv_buffer.len ≡ r.right
