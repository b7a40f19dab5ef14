-- ===== src/Net/Draining.antt =====
-- Nothing that is posted stays under way for want of a call of its sender: the cards, the polling task and
-- `recv_msg` bring it to the receiver (src/connection/conn.rs, src/connection/daemon.rs).
use ibv.Prelude.{
  ℕ, zero, suc, ◌+◌, ◌*◌, ◌≤◌, ◌<◌, ◌≡◌, refl, sym, ap, ◌∙◌, ◌⊎◌, inl, inr, some, List, [], ◌∷◌,
  append-nil, List-cases, nil_of_length, map, length, length-append, length-map, arith,
}
use ibv.Channel.{Mpsc}
use ibv.Verbs.{Verbs, IbvSendWr, IbvWc}
use ibv.Mr.Region.{Mr}
use ibv.Mr.SendBufs.{Entry}
use ibv.Link.Delivery.{Registered}
use ibv.Daemon.{Daemon}
use ibv.Daemon.Dispatch.{arrivals, dispatch-room, dispatch-Dispatched}
use ibv.Net.{
  Net, Side, Step, Reach, here, later, transfer, poll_step, recv_step, request, Posted, arrival_of,
}
use ibv.Link.Invariant.{lengths}
use ibv.Net.Reading.{recv_msg-takes}
use ibv.Net.Refines.{begin, IsReady, Reach-Sim, got-posted, gather-bytes}

arrivals-one : (wc : IbvWc) → length (arrivals (wc ∷ [])) ≤ 1
arrivals-one wc = ground arith

module _ (V : Verbs) (Q : Mpsc (ℕ × ℕ)) (QE : Mpsc Entry) (QR : Mpsc ℕ) where
  abbrev NetOf : Type 0
  NetOf = Net V Q QE QR

  Reach-first : {n k j : NetOf} → Step V Q QE QR n k → Reach V Q QE QR k j → Reach V Q QE QR n j
  Reach-first s here = later here s
  Reach-first s (later r t) = later (Reach-first s r) t

  -- The transfers, polls and receptions that are left.
  abbrev measure : NetOf → ℕ
  measure n = 3 * length n.posted + 2 * length n.arrivals + length (Q.queued n.b.recv_buf.rx)

  -- A step that brings the messages on.
  record Onward (n k : NetOf) : Type 0 where
    step : Step V Q QE QR n k
    sent : k.sent ≡ n.sent
    less : measure k + 1 ≤ measure n
    bound : Q.bound k.b.recv_buf.rx ≡ Q.bound n.b.recv_buf.rx

  record AtRest (n : NetOf) : Type 0 where
    posted : n.posted ≡ []
    arrivals : n.arrivals ≡ []
    queued : Q.queued n.b.recv_buf.rx ≡ []

  module _ (mr : Mr) (rx : Q.Chan) (a b : Side V Q QE QR) (reg : Registered mr)
      (ready : IsReady V Q QE QR mr rx a b) (carry_out : V.Dev → V.Dev)
      (carried : (d : V.Dev) (wr : IbvSendWr) (rest : List IbvSendWr)
        → V.send_queue d ≡ wr ∷ rest
        → V.send_queue (carry_out d) ≡ rest) where
    module _ {n : NetOf} (r : Reach V Q QE QR (begin V Q QE QR a b) n) where
      receives :
          (len imm : ℕ) (rest : List (ℕ × ℕ))
          → Q.queued n.b.recv_buf.rx ≡ (len, imm) ∷ rest
          → (k : NetOf) × Onward n k
      receives len imm rest q =
          let (l, s) = Reach-Sim V Q QE QR mr rx a b reg ready r in
          let (m, w, b', e, got, left, kept) =
            recv_msg-takes V Q QE QR mr rx b.mem reg s len imm rest q in
          (
            _,
            record {
              step = recv_step m w (some m) b' e got;
              sent = refl;
              less = omega (arith, ap length q, ap length left);
              bound = kept;
            },
          )

      polls :
          (wc : IbvWc) (wcs : List IbvWc)
          → n.arrivals ≡ wc ∷ wcs
          → Q.queued n.b.recv_buf.rx ≡ []
          → 0 < Q.bound n.b.recv_buf.rx
          → (k : NetOf) × Onward n k
      polls wc wcs e empty room =
          let d : Daemon V.Dev Q.Chan = record {
            dev = n.b.dev;
            tx = n.b.recv_buf.rx;
            flags = n.b.send_buf.flags;
          } in
          let (d', done, kept) =
            dispatch-room V Q d wc (omega (arith, ap length empty, arrivals-one wc)) in
          let one = dispatch-Dispatched V Q d wc done in
          (
            _,
            record {
              step = poll_step wc wcs d'.dev d'.tx d'.flags e done;
              sent = refl;
              less = omega (
                arith,
                ap (λ (ws : List IbvWc). length ws) e,
                ap length empty,
                arrivals-one wc,
                ap length one.queue,
                length-append (Q.queued d.tx) (arrivals (wc ∷ [])),
              );
              bound = kept;
            },
          )

      transfers : (p : Posted) (ps : List Posted) → n.posted ≡ p ∷ ps → (k : NetOf) × Onward n k
      transfers p ps e =
          let queue : V.send_queue n.a.dev ≡ request p ∷ map request ps =
            (gather-bytes V Q QE QR mr rx a b reg ready r).0 ∙ ap (map request) e in
          (
            _,
            record {
              step =
                  transfer p ps (request p) (map request ps) (carry_out n.a.dev) e queue
                    (carried n.a.dev (request p) (map request ps) queue);
              sent = refl;
              less = omega (
                arith,
                ap (λ (qs : List Posted). length qs) e,
                length-append n.arrivals (arrival_of (request p) ∷ []),
              );
              bound = refl;
            },
          )

      onward : 0 < Q.bound n.b.recv_buf.rx → AtRest n ⊎ ((k : NetOf) × Onward n k)
      onward room = elim (List-cases (Q.queued n.b.recv_buf.rx)) [
        | inr ((len, imm), rest, q) ↦ inr (receives len imm rest q)
        | inl empty ↦ elim (List-cases n.arrivals) [
          | inr (wc, wcs, e) ↦ inr (polls wc wcs e empty room)
          | inl none_arrived ↦ elim (List-cases n.posted) [
            | inr (p, ps, e) ↦ inr (transfers p ps e)
            | inl none_posted ↦
                inl (record { posted = none_posted; arrivals = none_arrived; queued = empty })
          ]
        ]
      ]

      -- At rest all messages are received.
      received : AtRest n → n.got ≡ map some n.sent
      received rest =
          let (l, s) = Reach-Sim V Q QE QR mr rx a b reg ready r in
          let landed : [] ≡ lengths n.written = rw (rest.queued, rest.arrivals) at s.lands.queued in
          let none_written : n.written ≡ [] =
            nil_of_length n.written
              (sym (length-map length n.written) ∙ sym (ap (λ (ns : List ℕ). length ns) landed)) in
          rw (rest.posted, none_written, append-nil) at (got-posted V Q QE QR mr rx a b reg ready r)

    abbrev Drained : NetOf → Type 0
    Drained n = (t : NetOf) × Reach V Q QE QR n t × (t.sent ≡ n.sent) × (t.got ≡ map some n.sent)

    drain :
        (fuel : ℕ) {n : NetOf}
        → Reach V Q QE QR (begin V Q QE QR a b) n
        → measure n ≤ fuel
        → 0 < Q.bound n.b.recv_buf.rx
        → Drained n
    drain zero {n} r enough room = elim (onward r room) [
      | inl rest ↦ (n, here, refl, received r rest)
      | inr (k, on) ↦ absurd (omega (arith, on.less))
    ]
    drain (suc fuel) {n} r enough room = elim (onward r room) [
      | inl rest ↦ (n, here, refl, received r rest)
      | inr (k, on) ↦
          let (t, reach, sent, got) =
            drain fuel (later r on.step) (omega (arith, on.less)) (omega (arith, on.bound, room)) in
          (t, Reach-first on.step reach, sent ∙ on.sent, got ∙ ap (map some) on.sent)
    ]

    -- If the receiver's region is shorter than 2 ^ 32 bytes and ends 2 ^ 32 bytes below the end
    -- of the address space, nothing is under way at first, the cards can take the oldest request
    -- from a send queue, the receiver's channel has a bound above 0, every message is shorter
    -- than 2 ^ 32 bytes, the device takes each write, a new flag stands at an address not in
    -- use, and nothing runs between the two loads of a test of either allocator, then from every
    -- state that two connections and the cards reach, a state can be reached in which the sender
    -- has posted the same messages and the answers of `recv_msg` are all of them, in order and
    -- byte for byte.
    pub posted-got :
        {n : NetOf}
        → Reach V Q QE QR (begin V Q QE QR a b) n
        → 0 < Q.bound n.b.recv_buf.rx
        → Drained n
    posted-got {n} r room = drain (measure n) r (omega arith) room
