-- ===== src/Verbs/Model.antt =====
-- A device that keeps its queues in lists of bounded length, and whose completions are given.
use ibv.Prelude.{
  ℕ, suc, ◌≤◌, ◌≡◌, ◌≢◌, Option, some, List, [], ◌∷◌, ◌++◌, length, take, drop, ltb, if◌then◌else◌,
  arith, zero,
}
use ibv.Verbs.{IbvSendWr, IbvRecvWr, IbvWc, Verbs}

pub record Device : Type 0 where
  pub sends : List IbvSendWr
  pub recvs : List IbvRecvWr
  pub completions : List IbvWc
  pub limit : ℕ

unfoldable pub post_send : Device → IbvSendWr → ℕ × Device
post_send d w =
    if ltb (length d.sends) d.limit then (0, record d { sends = d.sends ++ w ∷ [] }) else (12, d)

unfoldable pub post_recv : Device → IbvRecvWr → ℕ × Device
post_recv d w =
    if ltb (length d.recvs) d.limit then (0, record d { recvs = d.recvs ++ w ∷ [] }) else (12, d)

unfoldable pub poll_cq : Device → ℕ → Option (List IbvWc) × Device
poll_cq d n = (some (take n d.completions), record d { completions = drop n d.completions })

pub post_send-ok :
    (d : Device) (w : IbvSendWr)
    → (post_send d w).0 ≡ 0
    → (post_send d w).1.sends ≡ d.sends ++ w ∷ []
unfolding post_send
post_send-ok d w h = ground arith

pub post_send-fails :
    (d : Device) (w : IbvSendWr) → (post_send d w).0 ≢ 0 → (post_send d w).1.sends ≡ d.sends
unfolding post_send
post_send-fails d w h = ground arith

pub post_recv-ok :
    (d : Device) (w : IbvRecvWr)
    → (post_recv d w).0 ≡ 0
    → (post_recv d w).1.recvs ≡ d.recvs ++ w ∷ []
unfolding post_recv
post_recv-ok d w h = ground arith

pub post_recv-fails :
    (d : Device) (w : IbvRecvWr) → (post_recv d w).0 ≢ 0 → (post_recv d w).1.recvs ≡ d.recvs
unfolding post_recv
post_recv-fails d w h = ground arith

length-take-le : (n : ℕ) (l : List IbvWc) → length (take n l) ≤ n
length-take-le zero l = omega arith
length-take-le (suc n) [] = omega arith
length-take-le (suc n) (x ∷ l) = omega (arith, length-take-le n l)

pub poll_cq-le :
    (d : Device) (n : ℕ) (wcs : List IbvWc) → (poll_cq d n).0 ≡ some wcs → length wcs ≤ n
unfolding poll_cq
poll_cq-le d n wcs h = ground (arith, length-take-le n d.completions)

abbrev pub verbs : Verbs
verbs = record {
  Dev = Device;
  send_queue = λ d. d.sends;
  recv_queue = λ d. d.recvs;
  post_send = post_send;
  post_recv = post_recv;
  poll_cq = poll_cq;
  last_os_error = λ d. 12;
  post_send-ok = post_send-ok;
  post_send-fails = post_send-fails;
  post_recv-ok = post_recv-ok;
  post_recv-fails = post_recv-fails;
  poll_cq-le = poll_cq-le;
}
