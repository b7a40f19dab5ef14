-- ===== src/Conn/Reports.antt =====
-- The lengths that `release` reports and `send_msg` carries to the peer (src/connection/conn.rs,
-- lines 108 and 129 to 145).
use ibv.Prelude.{
  ℕ, ◌+◌, ◌≤◌, ◌≡◌, ◌∙◌, inl, inr, none, some, [], ◌∷◌, arith, as_u32, sum, sum-append,
}
use ibv.Channel.{Mpsc}
use ibv.Channel.Cases.{try_send-cases, try_recv-cases}
use ibv.Verbs.{Verbs}
use ibv.Mr.SendBufs.{Entry}
use ibv.Mr.RecvBufs.{notify_release, IsValid}
use ibv.Mr.RecvBufs.Releasing.{notify_release-threshold}
use ibv.Conn.{ConnOf, get_release_length, admit, release}

module _ (V : Verbs) (Q : Mpsc (ℕ × ℕ)) (QE : Mpsc Entry) (QR : Mpsc ℕ) where
  abbrev Self : Type 0
  Self = ConnOf V Q QE QR

  -- The released bytes that no message has carried to the peer yet.
  abbrev pub unreported : Self → ℕ
  unreported c = sum (QR.queued c.release) + c.recv_buf.released

  get_release_length-sum :
      (q : QR.Chan)
      → (get_release_length QR q).0 + sum (QR.queued (get_release_length QR q).1)
        ≡ sum (QR.queued q)
  unfolding get_release_length
  get_release_length-sum q = elim (try_recv-cases QR q) [
    | inl (nil, e) ↦ ground arith
    | inr (k, d, e, more) ↦ ground arith
  ]

  -- A message that is admitted takes the oldest report with it, or 0: what it takes and what is
  -- left to report make up what was to be reported.
  admit-unreported :
      (c : Self) {imm : ℕ} {c' : Self}
      → admit V Q QE QR c ≡ some (imm, c')
      → imm + unreported c' ≡ unreported c
  unfolding admit
  admit-unreported c h = ground (arith, get_release_length-sum c.release)

  kept-unreported :
      (c : Self) (len : ℕ) {c' : Self}
      → (notify_release c.recv_buf (as_u32 len)).0 ≡ none
      → release V Q QE QR c len ≡ some c'
      → unreported c'
        ≡ sum (QR.queued c.release) + (notify_release c.recv_buf (as_u32 len)).1.released
  unfolding release
  kept-unreported c len e h = ground arith

  sent-unreported :
      (c : Self) (len k : ℕ) {c' : Self}
      → (notify_release c.recv_buf (as_u32 len)).0 ≡ some k
      → release V Q QE QR c len ≡ some c'
      → unreported c'
        ≡ sum (QR.queued c.release) + k + (notify_release c.recv_buf (as_u32 len)).1.released
  unfolding release
  sent-unreported c len k e h = elim (try_send-cases QR c.release k) [
    | inl full ↦ ground arith
    | inr (d, sent, q) ↦ ground (arith, sum-append (QR.queued c.release) (k ∷ []))
  ]

  -- In a valid receive buffer, `release` of a message that fits in the buffer adds its length to
  -- the bytes that are to be reported, whether it answers with a report or not.
  pub release-unreported :
      (c : Self) (len : ℕ) {c' : Self}
      → IsValid c.recv_buf
      → c.recv_buf.left + len ≤ c.recv_buf.right
      → release V Q QE QR c len ≡ some c'
      → unreported c' ≡ unreported c + len
  release-unreported c len v fits h =
      let whole : as_u32 len ≡ len = omega arith in
      elim (notify_release-threshold c.recv_buf (as_u32 len) v (omega arith)) [
        | inl (kept, r, _) ↦ kept-unreported c len kept h ∙ omega (arith, r, whole)
        | inr (inl (k, r, _)) ↦ sent-unreported c len _ k h ∙ omega (arith, r, whole)
        | inr (inr (k, r, _, _)) ↦ sent-unreported c len _ k h ∙ omega (arith, r, whole)
      ]
