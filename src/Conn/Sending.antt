-- ===== src/Conn/Sending.antt =====
-- What `send_msg` does (src/connection/conn.rs, lines 88 to 117).
use mathlib.Core.Option.{some-injective}
use mathlib.Core.Path.{subst}
use ibv.Prelude.{
  ℕ, ◌<◌, ◌≡◌, refl, ap, ◌∙◌, sym, inl, inr, true, false, ◌||◌, some, List, [], ◌∷◌, ◌++◌, ◌≢◌, ◌⊎◌,
  arith, u32_mod, add32, as_u32, Option-cases, Bool-cases,
}
use ibv.Channel.{Mpsc}
use ibv.Channel.Cases.{try_recv-cases}
use ibv.Memory.{load}
use ibv.Ring.{Apart}
use ibv.Verbs.{Verbs}
use ibv.Mr.Region.{LocalBuf, RemoteBuf}
use ibv.Mr.RemoteBufs
use ibv.Mr.RemoteBufs.{RemoteBufManager, IsValid}
use ibv.Mr.SendBufs
use ibv.Mr.SendBufs.{SendBuffer, Entry, Event, Inv, sizes, entries}
use ibv.Mr.SendBufs.Waiting.{quiet}
use ibv.Mr.SendBufs.Alloc.{Safe, alloc-Safe}
use ibv.Qp.{write_with_imm}
use ibv.Qp.Requests.{write_request, write_with_imm-posts}
use ibv.Conn.{
  ConnOf, total_len, copy_slices, too_many, get_release_length, reserve, admit, post, send_msg,
}
use ibv.Conn.Copying.{joined, load-copy_slices}

-- The oldest release length that waits, or 0 where none does; and those behind it.
abbrev pub oldest : List ℕ → ℕ
oldest [] = 0
oldest (k ∷ ks) = k

abbrev pub later : List ℕ → List ℕ
later [] = []
later (k ∷ ks) = ks

module _ (V : Verbs) (Q : Mpsc (ℕ × ℕ)) (QE : Mpsc Entry) (QR : Mpsc ℕ) where
  abbrev Self : Type 0
  Self = ConnOf V Q QE QR

  -- `get_release_length` takes the oldest length that waits.
  get_release_length-oldest :
      (release : QR.Chan)
      → let (imm, rest) = get_release_length QR release in
        (imm ≡ oldest (QR.queued release)) × (QR.queued rest ≡ later (QR.queued release))
  unfolding get_release_length
  get_release_length-oldest release = elim (try_recv-cases QR release) [
    | inl (empty, none_left) ↦ rw (none_left, get_release_length, empty) (refl, refl)
    | inr (k, d, taken, q) ↦ rw (taken, get_release_length, q) (refl, refl)
  ]

  -- The effect of a message of the slices `msg` with the flag `flag`, which lies in the piece `l`
  -- of the send buffer and goes to the piece `r` of the peer's.
  pub record Sent (us : List RemoteBufs.Turn) (c : Self) (flag : ℕ) (msg : List (List ℕ))
      (l : LocalBuf) (r : RemoteBuf) (c' : Self) : Type 0 where
    pub posted :
        let wr = write_request l r (oldest (QR.queued c.release)) flag in
        (((V.post_send c.dev wr).0 ≡ 0) × (V.send_queue c'.dev ≡ V.send_queue c.dev ++ wr ∷ []))
        ⊎ (((V.post_send c.dev wr).0 ≢ 0) × (V.send_queue c'.dev ≡ V.send_queue c.dev))
    pub unsent : QR.queued c'.release ≡ later (QR.queued c.release)
    pub content : load c'.mem l.addr l.length ≡ joined msg
    pub total : l.length ≡ total_len msg
    pub local_safe : Safe QE c.send_buf flag (total_len msg) (l, flag, c'.send_buf)
    pub remote : RemoteBufs.alloc us c.allocator (total_len msg) ≡ some (r, c'.allocator)
    pub count : c'.sending ≡ add32 c.sending 1
    pub unlocked : c'.lock ≡ false
    pub others :
        (p n : ℕ)
        → Apart (record { start = l.addr; size = l.length }) (record { start = p; size = n })
        → load c'.mem p n ≡ load c.mem p n

  module _ (c : Self) (flag : ℕ) (msg : List (List ℕ)) {c' : Self} where
    pub admit-some :
        (c1 : Self) {imm : ℕ}
        → admit V Q QE QR c1 ≡ some (imm, c')
        → (imm ≡ (get_release_length QR c1.release).0)
          × (c' ≡ record c1 {
            lock = true;
            sending = add32 c1.sending 1;
            release = (get_release_length QR c1.release).1;
          })
    unfolding admit
    admit-some c1 h = elim (Bool-cases (c1.lock || too_many c1.sending)) [
      | inl blocked ↦ cc (rw blocked at h)
      | inr free ↦
          let e = some-injective _ _ (rw free at h) in
          (sym (ap (λ x. x.0) e), sym (ap (λ x. x.1) e))
    ]

    pub post-some :
        (us : List RemoteBufs.Turn) (c1 : Self) (l : LocalBuf) (wr_id imm : ℕ)
        → post V Q QE QR us c1 l wr_id imm msg ≡ some c'
        → (r : RemoteBuf) × (a : RemoteBufManager) × (RemoteBufs.alloc us c1.allocator
              (as_u32 (total_len msg))
            ≡ some (r, a))
          × (c' ≡ record c1 {
            allocator = a;
            dev = write_with_imm V l r imm wr_id c1.dev;
            lock = false;
          })
    unfolding post
    post-some us c1 l wr_id imm h =
        elim (Option-cases (RemoteBufs.alloc us c1.allocator (as_u32 (total_len msg)))) [
          | inl e ↦ cc (rw (e, post) at h)
          | inr ((r, a), e) ↦ (r, a, e, sym (some-injective _ _ (rw (e, post) at h)))
        ]

    pub reserve-some :
        (ts : List SendBufs.Turn) {l : LocalBuf} {wr_id : ℕ}
        → reserve V Q QE QR ts c flag msg ≡ some (l, wr_id, c')
        → (s : SendBuffer QE.Chan) × (SendBufs.alloc QE ts c.send_buf flag (as_u32 (total_len msg))
            ≡ some (l, wr_id, s))
          × (c' ≡ record c { send_buf = s; mem = copy_slices c.mem l.addr msg })
    unfolding reserve
    reserve-some ts h =
        elim (Option-cases (SendBufs.alloc QE ts c.send_buf flag (as_u32 (total_len msg)))) [
          | inl e ↦ cc (rw (e, reserve) at h)
          | inr ((l', wr_id', s), e) ↦
              let q = some-injective _ _ (rw (e, reserve) at h) in
              (
                s,
                e ∙ ap some (cc (ap (λ x. x.0) q, ap (λ x. x.1) q)),
                sym (ap (λ x. x.2) q)
                    ∙ ap (λ b. record c { send_buf = s; mem = copy_slices c.mem b.addr msg })
                        (ap (λ x. x.0) q),
              )
        ]

  -- The state behind the three stages.
  abbrev sent_state :
      Self → LocalBuf → SendBuffer QE.Chan → RemoteBuf → RemoteBufManager → ℕ → List (List ℕ) → Self
  sent_state c l s r m wr_id msg =
      let (imm, rest) = get_release_length QR c.release in
      record c {
        send_buf = s;
        mem = copy_slices c.mem l.addr msg;
        sending = add32 c.sending 1;
        release = rest;
        allocator = m;
        lock = false;
        dev = write_with_imm V l r imm wr_id c.dev;
      }

  sent_state-Sent :
      (us : List RemoteBufs.Turn) (c : Self) (flag : ℕ) (msg : List (List ℕ)) (l : LocalBuf)
      (wr_id : ℕ) (s : SendBuffer QE.Chan) (r : RemoteBuf) (m : RemoteBufManager)
      → Inv QE c.send_buf
      → Safe QE c.send_buf flag (total_len msg) (l, wr_id, s)
      → RemoteBufs.alloc us c.allocator (total_len msg) ≡ some (r, m)
      → Sent us c flag msg l r (sent_state c l s r m wr_id msg)
  sent_state-Sent us c flag msg l wr_id s r m v safe given =
      let (inv, id, used, size, low, end, newest) = safe in
      let (imm, rest) = get_release_length-oldest c.release in
      let (content, outside) = load-copy_slices c.mem l.addr msg (omega arith) in
      record {
        posted =
            rw (sym id, sym imm)
              (write_with_imm-posts V l r (get_release_length QR c.release).0 wr_id c.dev);
        unsent = rest;
        content = rw size content;
        total = size;
        local_safe = subst (λ w. Safe QE c.send_buf flag (total_len msg) (l, w, s)) id safe;
        remote = given;
        count = refl;
        unlocked = refl;
        others = λ p n apart. outside p n (rw size at apart);
      }

  -- If the invariant of the send buffer holds, the message is shorter than 2 ^ 32 bytes and
  -- nothing runs between the two loads of a test of the send buffer's allocator, a call of
  -- `send_msg` that returns has copied the message, byte for byte, to a piece of the send buffer
  -- apart from all pieces in use, has changed no other byte, has posted one signalled RDMA write
  -- of this piece to the piece of the peer's buffer that the remote allocator gives, with the
  -- oldest release length that waits or 0, or nothing where the device refuses it, and has
  -- counted the message.
  pub send_msg-Sent :
      (c : Self) (flag : ℕ) (msg : List (List ℕ)) (ss : List (List Event))
      (us : List RemoteBufs.Turn) {c' : Self}
      → Inv QE c.send_buf
      → total_len msg < u32_mod
      → send_msg V Q QE QR (quiet ss) us c flag msg ≡ some c'
      → (l : LocalBuf) × (r : RemoteBuf) × Sent us c flag msg l r c'
  unfolding send_msg
  send_msg-Sent c flag msg ss us {c'} v short h =
      elim (Option-cases (reserve V Q QE QR (quiet ss) c flag msg)) [
        | inl e ↦ cc (rw (e, send_msg) at h)
        | inr ((l, wr_id, c1), e) ↦ elim (Option-cases (admit V Q QE QR c1)) [
          | inl a ↦ cc (rw (e, a, send_msg) at h)
          | inr ((imm, c2), a) ↦ finish l wr_id c1 imm c2 e a (rw (e, a, send_msg) at h)
        ]
      ]
    where
      finish :
          (l : LocalBuf) (wr_id : ℕ) (c1 : Self) (imm : ℕ) (c2 : Self)
          → reserve V Q QE QR (quiet ss) c flag msg ≡ some (l, wr_id, c1)
          → admit V Q QE QR c1 ≡ some (imm, c2)
          → post V Q QE QR us c2 l wr_id imm msg ≡ some c'
          → (l : LocalBuf) × (r : RemoteBuf) × Sent us c flag msg l r c'
      finish l wr_id c1 imm c2 e a p =
          let (s, got, e1) = reserve-some c flag msg (quiet ss) e in
          let (imm_is, e2) = admit-some c flag msg c1 a in
          let (r, m, given, e3) = post-some c flag msg us c2 l wr_id imm p in
          let whole : as_u32 (total_len msg) ≡ total_len msg = omega (arith, short) in
          let safe : Safe QE c.send_buf flag (total_len msg) (l, wr_id, s) =
            alloc-Safe QE c.send_buf flag (total_len msg) v short ss (rw whole at got) in
          (
            l,
            r,
            rw (e3, e2, imm_is, e1)
                (sent_state-Sent us c flag msg l wr_id s r m v safe (rw (whole, e2, e1) at given)),
          )
