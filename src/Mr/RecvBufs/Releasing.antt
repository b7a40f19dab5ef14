-- ===== src/Mr/RecvBufs/Releasing.antt =====
-- The answers and the counters of `RecvBuffer::notify_release` (src/types/mr.rs, lines 343 to 362).
use ibv.Prelude.{ℕ, ◌+◌, ◌≤◌, ◌<◌, ◌≡◌, ◌⊎◌, none, some, arith}
use ibv.Defaults.{min_length_to_notify_release}
use ibv.Ring.{advance}
use ibv.Mr.RecvBufs.{RecvBuffer, notify_release, IsValid}

module _ {Rx : Type 0} where
  -- `notify_release` of a message that fits in a valid buffer keeps the buffer valid, and `done`
  -- plus `released` moves as the ring does.
  pub notify_release-IsValid :
      (r : RecvBuffer Rx) (length : ℕ)
      → IsValid r
      → r.left + length ≤ r.right
      → let r' = (notify_release r length).1 in
        IsValid r' × (r'.done + r'.released ≡ advance r.left r.right (r.done + r.released) length)
  unfolding notify_release
  notify_release-IsValid r length v fits = ground arith

  -- In a valid buffer, with a message that fits in it, `notify_release` does one of three
  -- things: it keeps the length back, and what is gathered is below the threshold; it reports
  -- all that is gathered, the message included, which is not below the threshold; or the ring
  -- wraps, and it reports what was gathered before the message, which it keeps back.
  pub notify_release-threshold :
      (r : RecvBuffer Rx) (length : ℕ)
      → IsValid r
      → r.left + length ≤ r.right
      → let (o, r') = notify_release r length in
        ((o ≡ none)
          × (r'.released ≡ r.released + length)
          × (r'.released < min_length_to_notify_release))
        ⊎ ((o ≡ some (r.released + length))
            × (r'.released ≡ 0)
            × (min_length_to_notify_release ≤ r.released + length))
        ⊎ ((o ≡ some r.released)
            × (r'.released ≡ length)
            × (r'.done ≡ r.left)
            × (r.right < r.done + r.released + length))
  unfolding notify_release
  notify_release-threshold r length v fits = ground arith

  pub notify_release-frame :
      (r : RecvBuffer Rx) (length : ℕ)
      → let r' = (notify_release r length).1 in
        (r'.index ≡ r.index) × (r'.left ≡ r.left) × (r'.right ≡ r.right)
  unfolding notify_release
  notify_release-frame r length = ground arith
