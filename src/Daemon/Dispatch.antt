-- ===== src/Daemon/Dispatch.antt =====
-- What the completions of one poll come to (src/connection/daemon.rs, lines 21 to 47).
use mathlib.Core.Path.{subst}
use mathlib.Core.Option.{some-injective}
use ibv.Prelude.{
  ℕ_discrete, ℕ, ◌+◌, ◌≤◌, ◌<◌, ◌≡◌, ◌≢◌, refl, sym, ◌∙◌, inl, inr, Bool, false, ◌&&◌, ◌||◌, none,
  some, List, [], ◌∷◌, ◌++◌, append-nil, append_assoc, ◌==◌, if◌then◌else◌, length, length-append,
  arith, Option-cases,
}
use ibv.Channel.{Mpsc}
use ibv.Channel.Cases.{try_send-cases}
use ibv.Verbs.{IbvWc, Verbs}
use ibv.Cq.{opcode_from}
use ibv.Qp.{post_null_recv}
use ibv.Qp.Requests.{post_null_recv-total}
use ibv.Daemon.{Daemon, arrived, completed, dispatch, dispatch_all}

-- The reports that the receiver must get: length and immediate value of each arrived write, in order.
abbrev pub arrivals : List IbvWc → List (ℕ × ℕ)
arrivals [] = []
arrivals (wc ∷ wcs) =
    let rest = arrivals wcs in if wc.opcode == 129 then (wc.byte_len, wc.imm_data) ∷ rest else rest

-- A write of the request `p` is among the completions.
abbrev pub is_written : ℕ → List IbvWc → Bool
is_written p [] = false
is_written p (wc ∷ wcs) = (wc.opcode == 1) && (p == wc.wr_id) || is_written p wcs

module _ (V : Verbs) (Q : Mpsc (ℕ × ℕ)) where
  abbrev DaemonOf : Type 0
  DaemonOf = Daemon V.Dev Q.Chan

  module _ (d : DaemonOf) (wc : IbvWc) where
    dispatch-arrived : wc.opcode ≡ 129 → dispatch V Q d wc ≡ arrived V Q d wc
    unfolding dispatch opcode_from
    dispatch-arrived e = ground arith

    dispatch-completed : wc.opcode ≡ 1 → dispatch V Q d wc ≡ some (completed V Q d wc)
    unfolding dispatch opcode_from
    dispatch-completed e = ground arith

    dispatch-other : wc.opcode ≢ 129 → wc.opcode ≢ 1 → dispatch V Q d wc ≡ some d
    unfolding dispatch opcode_from
    dispatch-other a b = ground arith

    arrived-some :
        (dev : V.Dev) (tx : Q.Chan)
        → post_null_recv V d.dev ≡ some dev
        → Q.try_send d.tx (wc.byte_len, wc.imm_data) ≡ some tx
        → arrived V Q d wc ≡ some (record d { dev = dev; tx = tx })
    unfolding arrived
    arrived-some dev tx e h = ground arith

    arrived-none : Q.try_send d.tx (wc.byte_len, wc.imm_data) ≡ none → arrived V Q d wc ≡ none
    unfolding arrived
    arrived-none h = ground arith

  -- What one completion does: it is reported, or clears its flag.
  pub record Dispatched (d : DaemonOf) (wc : IbvWc) (d' : DaemonOf) : Type 0 where
    pub queue : Q.queued d'.tx ≡ Q.queued d.tx ++ arrivals (wc ∷ [])
    pub flags : (p : ℕ) → d'.flags p ≡ (if is_written p (wc ∷ []) then false else d.flags p)

  completed-Dispatched :
      (d : DaemonOf) (wc : IbvWc) → wc.opcode ≡ 1 → Dispatched d wc (completed V Q d wc)
  unfolding completed
  completed-Dispatched d wc e = record {
    queue = ground (arith, append-nil (Q.queued d.tx));
    flags = λ p. ground arith;
  }

  other-Dispatched :
      (d : DaemonOf) (wc : IbvWc) → wc.opcode ≢ 129 → wc.opcode ≢ 1 → Dispatched d wc d
  other-Dispatched d wc a b = record {
    queue = ground (arith, append-nil (Q.queued d.tx));
    flags = λ p. ground arith;
  }

  arrived-Dispatched :
      (d : DaemonOf) (wc : IbvWc) {d' : DaemonOf}
      → wc.opcode ≡ 129
      → arrived V Q d wc ≡ some d'
      → Dispatched d wc d'
  arrived-Dispatched d wc op h = elim (try_send-cases Q d.tx (wc.byte_len, wc.imm_data)) [
    | inl full ↦ cc (arrived-none d wc full)
    | inr (tx, sent, q) ↦
        let (dev, posted, _) = post_null_recv-total V d.dev in
        subst (Dispatched d wc)
          (some-injective _ _ (sym (arrived-some d wc dev tx posted sent) ∙ h))
          (record { queue = ground (arith, q); flags = λ p. ground arith })
  ]

  pub dispatch-Dispatched :
      (d : DaemonOf) (wc : IbvWc) {d' : DaemonOf} → dispatch V Q d wc ≡ some d' → Dispatched d wc d'
  dispatch-Dispatched d wc {d'} h = elim (ℕ_discrete wc.opcode 129) [
    | yes op ↦ arrived-Dispatched d wc op (sym (dispatch-arrived d wc op) ∙ h)
    | no a ↦ elim (ℕ_discrete wc.opcode 1) [
      | yes op ↦
          subst (Dispatched d wc) (some-injective _ _ (sym (dispatch-completed d wc op) ∙ h))
            (completed-Dispatched d wc op)
      | no b ↦
          subst (Dispatched d wc) (some-injective _ _ (sym (dispatch-other d wc a b) ∙ h))
            (other-Dispatched d wc a b)
    ]
  ]

  pub arrivals-cons :
      (wc : IbvWc) (wcs : List IbvWc) → arrivals (wc ∷ wcs) ≡ arrivals (wc ∷ []) ++ arrivals wcs
  arrivals-cons wc wcs = ground arith

  -- If all completions of a poll are handled, the channel has got the length and immediate value
  -- of each arrived write, in order, behind what was in it, and exactly the flags of the
  -- completed writes are cleared.
  pub dispatch_all-lem :
      (d : DaemonOf) (wcs : List IbvWc) {d' : DaemonOf}
      → dispatch_all V Q d wcs ≡ some d'
      → (Q.queued d'.tx ≡ Q.queued d.tx ++ arrivals wcs)
        × ((p : ℕ) → d'.flags p ≡ (if is_written p wcs then false else d.flags p))
  unfolding dispatch_all
  dispatch_all-lem d [] h =
      let e : d ≡ _ = some-injective _ _ h in
      (rw (← e) (sym (append-nil (Q.queued d.tx))), λ p. rw (← e) refl)
  dispatch_all-lem d (wc ∷ wcs) {d'} h = elim (Option-cases (dispatch V Q d wc)) [
    | inl e ↦ cc (rw (e, dispatch_all) at h)
    | inr (d1, e) ↦
        let one = dispatch-Dispatched d wc e in
        let rest = dispatch_all-lem d1 wcs {d' = d'} (rw (e, dispatch_all) at h) in
        (
          rest.0 ∙ rw (one.queue, append_assoc, ← arrivals-cons wc wcs) refl,
          λ p. rest.1 p ∙ ground (arith, one.flags p),
        )
  ]

  -- One completion is handled at once where the channel has room for its report.
  abbrev pub Handled : DaemonOf → IbvWc → Type 0
  Handled d wc = (d' : DaemonOf) × (dispatch V Q d wc ≡ some d') × (Q.bound d'.tx ≡ Q.bound d.tx)

  arrived-room :
      (d : DaemonOf) (wc : IbvWc)
      → wc.opcode ≡ 129
      → length (Q.queued d.tx) < Q.bound d.tx
      → Handled d wc
  arrived-room d wc op room =
      let (dev, posted, _) = post_null_recv-total V d.dev in
      let (tx, sent, _, kept) = Q.try_send-room d.tx (wc.byte_len, wc.imm_data) room in
      (
        record d { dev = dev; tx = tx },
        dispatch-arrived d wc op ∙ arrived-some d wc dev tx posted sent,
        kept,
      )

  pub dispatch-room :
      (d : DaemonOf) (wc : IbvWc)
      → length (Q.queued d.tx) + length (arrivals (wc ∷ [])) ≤ Q.bound d.tx
      → Handled d wc
  unfolding completed
  dispatch-room d wc room = elim (ℕ_discrete wc.opcode 129) [
    | yes op ↦ arrived-room d wc op (ground arith)
    | no a ↦ elim (ℕ_discrete wc.opcode 1) [
      | yes op ↦ (completed V Q d wc, dispatch-completed d wc op, refl)
      | no b ↦ (d, dispatch-other d wc a b, refl)
    ]
  ]

  split_len :
      (wc : IbvWc) (wcs : List IbvWc)
      → length (arrivals (wc ∷ wcs)) ≡ length (arrivals (wc ∷ [])) + length (arrivals wcs)
  split_len wc wcs = ground arith

  -- Where the channel has room for the reports of all completions of a poll, the task handles
  -- them all without waiting.
  pub dispatch_all-room :
      (d : DaemonOf) (wcs : List IbvWc)
      → length (Q.queued d.tx) + length (arrivals wcs) ≤ Q.bound d.tx
      → (d' : DaemonOf) × (dispatch_all V Q d wcs ≡ some d')
  unfolding dispatch_all
  dispatch_all-room d [] room = (d, refl)
  dispatch_all-room d (wc ∷ wcs) room =
      let (d1, e, kept) = dispatch-room d wc (omega (arith, split_len wc wcs)) in
      let one = dispatch-Dispatched d wc e in
      let (d', h) =
        dispatch_all-room d1 wcs
          (rw (one.queue, kept, length-append) (omega (arith, split_len wc wcs))) in
      (d', rw (e, dispatch_all) h)
