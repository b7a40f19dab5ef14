-- ===== src/Daemon/Notify.antt =====
-- `notify` (src/connection/daemon.rs, lines 58 to 79), with `CQ::req_notify` and `CQ::ack_event`
-- (src/types/cq.rs, lines 73 to 90). The calls of the library on events are the interface `Events`.
use ibv.Prelude.{
  ℕ, zero, suc, ◌^◌, ◌≡◌, Bool, true, false, Option, none, some, List, [], ◌∷◌, leb, if◌then◌else◌,
  arith, refl, ap, ◌∙◌,
}
use ibv.Memory.{Memory}
use ibv.Verbs.{IbvWc, Verbs}
use ibv.Wr.{IoResult, ok, err}
use ibv.Cq
use ibv.Cq.{Cq, get_event, poll_wc}
use ibv.Cq.Polling.{get_event-new}
use ibv.Mr.RecvBufs.{RecvBuffer, read}

-- An `int` of C is the bits of its value: negative ones are 2 ^ 31 and above.
pub record Events (V : Verbs) : Type 0 where
  pub req_notify_cq : V.Dev → Bool → ℕ × V.Dev
  pub get_cq_event : V.Dev → ℕ → ℕ × V.Dev
  pub ack_cq_events : V.Dev → ℕ → V.Dev

-- How a run of the loop stands.
pub data Notified (Dev Rx : Type 0) : Type 0 where
  stopped : Dev → RecvBuffer Rx → Notified Dev Rx
  panicked : Notified Dev Rx
  going : Dev → RecvBuffer Rx → Notified Dev Rx

-- the reads of one turn, with `none` for a panic
unfoldable pub read_all :
    {Rx : Type 0} → Memory → RecvBuffer Rx → List IbvWc → Option (RecvBuffer Rx)
read_all mem r [] = some r
read_all mem r (wc ∷ wcs) =
    let (data_read, r') = read mem r wc.byte_len in
    elim data_read [ none ↦ none | some bytes ↦ read_all mem r' wcs ]

module _ (V : Verbs) (N : Events V) (cq : Cq) where
  unfoldable pub req_notify : V.Dev → Bool → IoResult (Unit {0}) × V.Dev
  req_notify dev solicited_only =
      let (ret, dev') = N.req_notify_cq dev solicited_only in
      if leb (2 ^ 31) ret then (err (V.last_os_error dev'), dev') else (ok tt, dev')

  -- the channel's event, and the device behind it
  unfoldable pub wait_event : V.Dev → Option V.Dev
  wait_event dev = elim (get_event (λ c. c) cq) [
    | none ↦ none
    | some c ↦ some (N.get_cq_event dev c).1
  ]

  no_event :
      (create_comp_channel : Option ℕ) (create_cq : ℕ → Option ℕ → Option ℕ) (dev : V.Dev)
      → Cq.new create_comp_channel create_cq false ≡ some cq
      → wait_event dev ≡ none
  unfolding wait_event
  no_event create_comp_channel create_cq dev made =
      rw (get_event-new create_comp_channel create_cq (λ c. c) {cq = cq} made, wait_event) refl

module _ (V : Verbs) (N : Events V) {Rx : Type 0} (mem : Memory) (cq : Cq) where
  -- one turn behind a request that was taken
  unfoldable pub take_event : V.Dev → RecvBuffer Rx → Notified V.Dev Rx
  unfolding wait_event
  take_event dev r = elim (wait_event V N cq dev) [
    | none ↦ panicked
    | some d1 ↦
        let (wcs, d2) = poll_wc V 10 (N.ack_cq_events d1 1) in
        elim wcs [
          | err e ↦ panicked
          | ok list ↦ elim (read_all mem r list) [ none ↦ panicked | some r' ↦ going d2 r' ]
        ]
  ]

  unfoldable pub notify_round : V.Dev → RecvBuffer Rx → Notified V.Dev Rx
  unfolding req_notify take_event
  notify_round dev r =
      let (result, d1) = req_notify V N cq dev true in
      elim result [ err e ↦ stopped d1 r | ok x ↦ take_event d1 r ]

  -- `notify`, for a number of rounds
  unfoldable pub notify : ℕ → Notified V.Dev Rx → Notified V.Dev Rx
  unfolding notify_round
  notify (suc n) (going dev r) = notify n (notify_round dev r)
  notify n s = s

  done :
      (n : ℕ) (dev : V.Dev) (r : RecvBuffer Rx)
      → (notify n (stopped dev r) ≡ stopped dev r) × (notify n panicked ≡ panicked)
  unfolding notify
  done zero dev r = (refl, refl)
  done (suc n) dev r = (refl, refl)

  first_round :
      (create_comp_channel : Option ℕ) (create_cq : ℕ → Option ℕ → Option ℕ) (dev : V.Dev)
      (r : RecvBuffer Rx)
      → Cq.new create_comp_channel create_cq false ≡ some cq
      → let (ret, d1) = N.req_notify_cq dev true in
        notify_round dev r ≡ (if leb (2 ^ 31) ret then stopped d1 r else panicked)
  unfolding notify_round req_notify take_event
  first_round create_comp_channel create_cq dev r made =
      ground
        (arith, no_event V N cq create_comp_channel create_cq (N.req_notify_cq dev true).1 made)

  -- On a completion queue that is made without a channel, as `QP::new` makes it, `notify` ends
  -- in its first round: where its request is refused it stops, and else it panics; it takes no
  -- completion and reads no message.
  pub notify-new :
      (create_comp_channel : Option ℕ) (create_cq : ℕ → Option ℕ → Option ℕ) (n : ℕ) (dev : V.Dev)
      (r : RecvBuffer Rx)
      → Cq.new create_comp_channel create_cq false ≡ some cq
      → let (ret, d1) = N.req_notify_cq dev true in
        notify (suc n) (going dev r) ≡ (if leb (2 ^ 31) ret then stopped d1 r else panicked)
  unfolding notify
  notify-new create_comp_channel create_cq n dev r made =
      ap (notify n) (first_round create_comp_channel create_cq dev r made)
      ∙ ground (arith, done n (N.req_notify_cq dev true).1 r)
