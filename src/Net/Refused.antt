-- ===== src/Net/Refused.antt =====
-- A write that the device refuses (src/types/qp.rs, lines 242 to 256, and the end of `send_msg` in
-- src/connection/conn.rs): the sender's allocator has moved, and the receiver's has not.
use ibv.Prelude.{
  ℕ, ◌+◌, ◌≤◌, ◌<◌, ◌≡◌, ◌≢◌, refl, ap, ◌∙◌, inl, inr, List, [], ◌∷◌, some, as_u32, u32_mod, arith,
}
use ibv.Channel.{Mpsc}
use ibv.Memory.{Memory, store, load, load-store_apart}
use ibv.Verbs.{Verbs, IbvSendWr}
use ibv.Ring.{place}
use ibv.Mr.Region.{Mr, LocalBuf, RemoteBuf}
use ibv.Mr.RemoteBufs
use ibv.Mr.RemoteBufs.{RemoteBufManager}
use ibv.Mr.RemoteBufs.Waiting
use ibv.Mr.RemoteBufs.Alloc.{alloc-at_once}
use ibv.Mr.RecvBufs.{read}
use ibv.Mr.RecvBufs.Reading.{read-place}
use ibv.Mr.SendBufs.{Entry}
use ibv.Qp.Requests.{write_request, write_with_imm-posts}
use ibv.Link
use ibv.Link.{Link, start}
use ibv.Link.Invariant.{Inv}
use ibv.Link.Sending.{wire-index, sender-IsValid, send-Inv}
use ibv.Link.Delivery.{Registered, reached}
use ibv.Conn.{total_len, post}
use ibv.Conn.Copying.{joined, length-joined}
use ibv.Conn.Sending.{post-some}
use ibv.Net.{Side}

-- Where nothing is on the wire, `read` reads where the sender stands, whatever is written behind it.
read-before :
    {Rx : Type 0} {left right : ℕ} {l : Link Rx} (inv : Inv left right l) (n at : ℕ)
    (bytes : List ℕ)
    → l.wire ≡ []
    → l.sender.index + n ≤ at
    → l.sender.index + n ≤ l.sender.right
    → (read (store l.mem at bytes) l.receiver n).0 ≡ some (load l.mem l.sender.index n)
read-before {l = l} inv n at bytes empty behind room =
    ap (λ x. x.0)
      (read-place (store l.mem at bytes) l.receiver n inv.agrees.valid
        (omega (arith, inv.ends, index, inv.agrees.valid)))
    ∙ rw (there, load-store_apart l.mem at bytes l.sender.index n (inr behind)) refl
  where
    index : l.receiver.index ≡ l.sender.index
    index = rw empty at (wire-index inv)

    there : place l.receiver.left l.receiver.right l.receiver.index n ≡ l.sender.index
    there = ground (arith, index, inv.ends)

module _ (V : Verbs) (Q : Mpsc (ℕ × ℕ)) (QE : Mpsc Entry) (QR : Mpsc ℕ) where
  -- `post` where the device takes no request
  post-refused :
      (a : Side V Q QE QR) (local_buf : LocalBuf) (flag imm : ℕ) (msg : List (List ℕ))
      {a' : Side V Q QE QR}
      → total_len msg < u32_mod
      → ((wr : IbvSendWr) → (V.post_send a.dev wr).0 ≢ 0)
      → post V Q QE QR (Waiting.quiet ([] ∷ [])) a local_buf flag imm msg ≡ some a'
      → (r : RemoteBuf) × (k : RemoteBufManager) × (RemoteBufs.alloc
            (Waiting.quiet ([] ∷ []))
            a.allocator
            (total_len msg)
          ≡ some (r, k))
        × (a'.allocator ≡ k)
        × (V.send_queue a'.dev ≡ V.send_queue a.dev)
  post-refused a local_buf flag imm msg small refuses done =
      let (r, k, got, eq) =
        post-some V Q QE QR a 0 msg (Waiting.quiet ([] ∷ [])) a local_buf flag imm done in
      let whole : as_u32 (total_len msg) ≡ total_len msg = omega arith in
      (
        r,
        k,
        rw whole at got,
        ap (λ c. c.allocator) eq,
        ap (λ c. V.send_queue c.dev) eq ∙ elim (write_with_imm-posts V local_buf r imm flag a.dev) [
          | inl (taken, _) ↦ absurd (refuses (write_request local_buf r imm flag) taken)
          | inr (_, same) ↦ same
        ],
      )

  module _ (mr : Mr) (rx : Q.Chan) (mem : Memory) (reg : Registered mr) where
    -- If the receiver's region is shorter than 2 ^ 32 bytes and ends 2 ^ 32 bytes below the end
    -- of the address space, and nothing runs between the two loads of a test of the allocator,
    -- then, where a link that was reached with messages shorter than 2 ^ 32 bytes has nothing on
    -- the wire, the device refuses every request, `post` returns for a message shorter than 2 ^
    -- 32 bytes, and the allocator then gives a buffer for a second message that is no longer and
    -- fits behind it without a wrap: nothing was posted, the second message goes behind the
    -- place of the lost one, and `read` for it gives what lay at the place of the lost one
    -- before.
    pub refused-misread :
        {l : Link Q.Chan} (a : Side V Q QE QR) (local_buf : LocalBuf) (flag imm : ℕ)
        (lost msg : List (List ℕ)) {a' : Side V Q QE QR} {r : RemoteBuf} {k : RemoteBufManager}
        → Link.Reach (start mr rx mem) l
        → a.allocator ≡ l.sender
        → l.wire ≡ []
        → total_len lost < u32_mod
        → total_len msg ≤ total_len lost
        → l.sender.index + total_len lost + total_len msg ≤ l.sender.right
        → ((wr : IbvSendWr) → (V.post_send a.dev wr).0 ≢ 0)
        → post V Q QE QR (Waiting.quiet ([] ∷ [])) a local_buf flag imm lost ≡ some a'
        → RemoteBufs.alloc (Waiting.quiet ([] ∷ [])) a'.allocator (total_len msg) ≡ some (r, k)
        → (V.send_queue a'.dev ≡ V.send_queue a.dev)
          × (r.addr ≡ l.sender.index + total_len lost)
          × ((read (store l.mem r.addr (joined msg)) l.receiver (total_len msg)).0
              ≡ some (load l.mem l.sender.index (total_len msg)))
    refused-misread {l} a local_buf flag imm lost msg {a'} {r} {k} reach same empty small short room
          refuses done given =
        let (r1, k1, got, moved, queue) =
          post-refused a local_buf flag imm lost small refuses done in
        let inv = reached mr rx mem reg reach in
        let first : RemoteBufs.alloc (Waiting.quiet ([] ∷ [])) l.sender (total_len lost)
            ≡ some (r1, k1) =
          rw same at got in
        let x = alloc-at_once l.sender (total_len lost) (sender-IsValid inv) small first in
        let e = length-joined lost in
        let inv2 = send-Inv inv (joined lost) r1 k1 (rw e small) (rw e first) in
        let y =
          alloc-at_once k1 (total_len msg) (sender-IsValid inv2) (omega arith)
            (rw moved at given) in
        let at : r.addr ≡ l.sender.index + total_len lost =
          ground (arith, x.index, x.left, x.right, y.addr) in
        (
          queue,
          at,
          read-before inv (total_len msg) r.addr (joined msg) empty (omega (arith, at))
              (omega arith),
        )
