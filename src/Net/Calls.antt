-- ===== src/Net/Calls.antt =====
-- `recv_msg` and `release` (src/connection/conn.rs, lines 120 to 145), from what their parts answer.
use mathlib.Core.Option.{some-injective}
use ibv.Prelude.{
  ℕ, ◌+◌, ◌≤◌, ◌≡◌, refl, sym, ap, ◌∙◌, inl, inr, List, ◌++◌, arith, u32_mod, some, none,
  append-nil, as_u32, Option, Option-cases, add32, ◌-◌,
}
use ibv.Channel.{Mpsc}
use ibv.Channel.Cases.{try_send-cases}
use ibv.Verbs.{Verbs}
use ibv.Ring.{place}
use ibv.Mr.SendBufs.{Entry}
use ibv.Mr.RecvBufs.{RecvBuffer, read, notify_release, IsValid}
use ibv.Link.{acknowledge, to_notes}
use ibv.Conn.{recv_msg, release}
use ibv.Net.{Side}

pub notify_release-rx :
    {Rx : Type 0} (r : RecvBuffer Rx) (x : Rx) (n : ℕ)
    → notify_release (record r { rx = x }) n
      ≡ ((notify_release r n).0, record (notify_release r n).1 { rx = x })
unfolding notify_release
notify_release-rx r x n = ground arith

pub IsValid-rx :
    {Rx : Type 0} {r : RecvBuffer Rx} → IsValid r → (x : Rx) → IsValid (record r { rx = x })
IsValid-rx v x = record {
  index_low = v.index_low;
  index_high = v.index_high;
  done_low = v.done_low;
  done_high = v.done_high;
  headroom = v.headroom;
  short = v.short;
  region = v.region;
  base = v.base;
  extent = v.extent;
}

pub rx_own :
    {Rx : Type 0} (r k : RecvBuffer Rx) (x : Rx)
    → r ≡ record k { rx = x }
    → r ≡ record k { rx = r.rx }
rx_own {Rx} r k x e = e ∙ ap {A = Rx} (λ y. record k { rx = y }) (sym (ap (λ q. q.rx) e))

pub place-Within :
    (left right pos n : ℕ)
    → left ≤ pos
    → pos ≤ right
    → left + n ≤ right
    → (left ≤ place left right pos n) × (place left right pos n + n ≤ right)
place-Within left right pos n low high fits = ground arith

module _ (V : Verbs) (Q : Mpsc (ℕ × ℕ)) (QE : Mpsc Entry) (QR : Mpsc ℕ) where
  pub recv_msg-some :
      (c : Side V Q QE QR) (len imm : ℕ) (x : Q.Chan) (bytes : Option (List ℕ))
      (r : RecvBuffer Q.Chan)
      → Q.try_recv c.recv_buf.rx ≡ some ((len, imm), x)
      → read c.mem (record c.recv_buf { rx = x }) len ≡ (bytes, r)
      → recv_msg V Q QE QR c
        ≡ some (
          bytes,
          record c {
            sending = add32 c.sending (u32_mod - 1);
            allocator = acknowledge c.allocator imm;
            recv_buf = r;
          },
        )
  unfolding recv_msg
  recv_msg-some c len imm x bytes r e f = rw (e, f, recv_msg) refl

  pub recv_msg-none :
      (c : Side V Q QE QR) → Q.try_recv c.recv_buf.rx ≡ none → recv_msg V Q QE QR c ≡ none
  unfolding recv_msg
  recv_msg-none c e = rw (e, recv_msg) refl

  -- What `release` does.
  pub release-some :
      (c : Side V Q QE QR) (len : ℕ) {c' : Side V Q QE QR}
      → release V Q QE QR c len ≡ some c'
      → let (report, r) = notify_release c.recv_buf (as_u32 len) in
        (c'.recv_buf ≡ r)
        × (QR.queued c'.release ≡ QR.queued c.release ++ to_notes report)
        × (c'.mem ≡ c.mem)
  unfolding release
  release-some c len h = elim (Option-cases (notify_release c.recv_buf (as_u32 len)).0) [
    | inl kept ↦
        let e = some-injective _ _ (rw (kept, release) at h) in
        (
          sym (ap (λ x. x.recv_buf) e),
          rw (kept, append-nil) (sym (ap (λ x. QR.queued x.release) e)),
          sym (ap (λ x. x.mem) e),
        )
    | inr (k, told) ↦ elim (try_send-cases QR c.release k) [
      | inl full ↦ cc (rw (told, full, release) at h)
      | inr (d, sent, q) ↦
          let e = some-injective _ _ (rw (told, sent, release) at h) in
          (
            sym (ap (λ x. x.recv_buf) e),
            rw (told, ← q) (sym (ap (λ x. QR.queued x.release) e)),
            sym (ap (λ x. x.mem) e),
          )
    ]
  ]
