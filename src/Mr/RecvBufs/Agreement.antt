-- ===== src/Mr/RecvBufs/Agreement.antt =====
-- The counters of `RecvBuffer::notify_release` (src/types/mr.rs, lines 343 to 362) beside the
-- sender's `done`, which follows its reports.
use ibv.Prelude.{
  ℕ, ◌+◌, ◌≤◌, ◌<◌, ◌≡◌, refl, sym, ◌⊎◌, inl, inr, Option, none, some, List, [], ◌∷◌, ◌++◌,
  append-nil, arith, sum, sum-append, add32, add64, Bool-cases, ltb, leb, ltb→lt, not-ltb→le,
}
use ibv.Defaults.{min_length_to_notify_release}
use ibv.Ring.{advance, advance_all}
use ibv.Ring.Moves.{advance_all-append}
use ibv.Mr.RecvBufs.{RecvBuffer, notify_release, IsValid}

module _ {Rx : Type 0} where
  -- `s` is the value that the sender's `done` has once all reports have arrived, and `un` are the
  -- lengths of the messages that are released and not reported. The receiver's `done` is at `s`, or
  -- has gone round to `left` where the sender's will go with the next report.
  pub record Agrees (s : ℕ) (un : List ℕ) (r : RecvBuffer Rx) : Type 0 where
    pub valid : IsValid r
    pub total : sum un ≡ r.released
    pub ends : advance_all r.left r.right s un ≡ r.done + r.released
    pub mode : (s ≡ r.done) ⊎ ((r.done ≡ r.left) × (r.right < s + r.released))

  -- What a release may answer. A report `k` stands for the whole messages `batch`.
  abbrev pub Follows : ℕ → ℕ → ℕ → List ℕ → Option ℕ × RecvBuffer Rx → Type 0
  Follows left right s un (none, r) = Agrees s un r
  Follows left right s un (some k, r) =
      (batch : List ℕ) × (rest : List ℕ) × (un ≡ batch ++ rest)
      × (sum batch ≡ k)
      × (left + k ≤ right)
      × (advance left right s k ≡ advance_all left right s batch)
      × Agrees (advance left right s k) rest r

  -- With the messages `un` unreported the report of all of them lands where they end.
  advance-total :
      {s : ℕ} {un : List ℕ} {r : RecvBuffer Rx}
      → Agrees s un r
      → advance r.left r.right s r.released ≡ advance_all r.left r.right s un
  advance-total a = rw a.ends (ground arith)

  module _ {s : ℕ} {un : List ℕ} (r : RecvBuffer Rx) (n : ℕ) (a : Agrees s un r)
      (fits : r.left + n ≤ r.right) where
    ends-append :
        advance_all r.left r.right s (un ++ n ∷ []) ≡ advance r.left r.right (r.done + r.released) n
    ends-append = rw (advance_all-append, a.ends)

    kept :
        add64 (add64 r.done r.released) n ≤ r.right
        → Agrees s (un ++ n ∷ []) (record r { released = add32 r.released n })
    kept below = record {
      valid = ground arith;
      total = ground (arith, sum-append un (n ∷ []));
      ends = rw ends-append (ground arith);
      mode = ground arith;
    }

    reported :
        add64 (add64 r.done r.released) n ≤ r.right
        → Follows r.left r.right s (un ++ n ∷ []) (
          some (add32 r.released n),
          record r { done = add64 r.done (add32 r.released n); released = 0 },
        )
    reported below = (
      un ++ n ∷ [],
      [],
      sym (append-nil _),
      ground (arith, sum-append un (n ∷ [])),
      ground arith,
      rw ends-append (ground arith),
      record { valid = ground arith; total = refl; ends = ground arith; mode = ground arith },
    )

    wrapped :
        r.right < add64 (add64 r.done r.released) n
        → Follows r.left r.right s
            (un ++ n ∷ [])
            (some r.released, record r { released = n; done = r.left })
    wrapped over = (
      un,
      n ∷ [],
      refl,
      a.total,
      ground arith,
      advance-total a,
      record {
        valid = ground arith;
        total = ground arith;
        ends = rw (advance-total a, a.ends) (ground arith);
        mode = ground arith;
      },
    )

    -- If the receiver agrees with the sender and the message fits in the buffer, then behind
    -- `notify_release` it agrees again: a report is the sum of the oldest whole messages that
    -- were not reported, and one `update` by it moves the sender over all of them, as if they
    -- were released one by one.
    pub notify_release-Follows : Follows r.left r.right s (un ++ n ∷ []) (notify_release r n)
    unfolding notify_release
    notify_release-Follows = elim (Bool-cases (ltb r.right (add64 (add64 r.done r.released) n))) [
      | inl over ↦ rw over (wrapped (ltb→lt _ _ over))
      | inr below ↦ elim (Bool-cases (leb min_length_to_notify_release (add32 r.released n))) [
        | inl high ↦ rw (below, high) (reported (not-ltb→le _ _ below))
        | inr low ↦ rw (below, low) (kept (not-ltb→le _ _ below))
      ]
    ]
