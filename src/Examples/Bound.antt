-- ===== src/Examples/Bound.antt =====
-- The number of steps of the example programs (examples/client.rs, examples/server.rs).
use ibv.Prelude.{
  ℕ, ◌+◌, ◌-◌, ◌*◌, ◌≤◌, ap, Option, none, some, List, [], ◌∷◌, length, length-append, arith,
}
use ibv.Memory.{Memory}
use ibv.Mr.Region.{Mr}
use ibv.Mr.RecvBufs.{notify_release}
use ibv.Link.{to_notes}
use ibv.Examples.{
  to_be_bytes, Run, begin, ClientStep, spawn_step, ServerStep, Step, client_step, server_step,
  request_report, response_report, Reach, here, later,
}

abbrev held_count : Option (List ℕ) → ℕ
held_count none = 0
held_count (some msg) = 1

notes-le : (o : Option ℕ) → length (to_notes o) ≤ 1
notes-le none = omega arith
notes-le (some k) = omega arith

module _ {Rx : Type 0} (total : ℕ) where
  -- The steps that are left: a request takes four of its own, its response four, and each of the two
  -- messages may bring one report.
  unfoldable pub measure : Run Rx → ℕ
  measure s =
      9 * (total - s.client.next)
      + 8 * length s.client.pending
      + 7 * length s.requests.wire
      + 6 * held_count s.server.holding
      + 4 * length s.server.spawned
      + 3 * length s.responses.wire
      + 2 * held_count s.client.holding
      + length s.requests.notes
      + length s.responses.notes

  pub Step-measure : {s t : Run Rx} → Step total s t → measure t + 1 ≤ measure s
  unfolding measure
  Step-measure {s} (client_step (spawn_step less)) =
      omega (arith, length-append s.client.pending (to_be_bytes s.client.next ∷ []))
  Step-measure {s} (client_step (ClientStep.send_step xs ys m b a e free took)) = omega (
    arith,
    ap (λ (ms : List (List ℕ)). length ms) e,
    length-append xs (m ∷ ys),
    length-append xs ys,
    length-append s.requests.wire (m ∷ []),
  )
  Step-measure {s} (client_step (ClientStep.recv_step m w msg going idle e answer)) =
      omega (arith, ap (λ (ms : List (List ℕ)). length ms) e, ap held_count idle)
  Step-measure {s} (client_step (ClientStep.release_step msg h held e)) =
      let report = (notify_release s.responses.receiver (length msg)).0 in
      omega (
        arith,
        ap held_count held,
        length-append s.responses.notes (to_notes report),
        notes-le report,
      )
  Step-measure {s} (server_step (ServerStep.recv_step m w msg idle e answer)) =
      omega (arith, ap (λ (ms : List (List ℕ)). length ms) e, ap held_count idle)
  Step-measure {s} (server_step (ServerStep.release_step msg h held e)) =
      let report = (notify_release s.requests.receiver (length msg)).0 in
      omega (
        arith,
        ap held_count held,
        length-append s.requests.notes (to_notes report),
        length-append s.server.spawned (to_be_bytes s.server.count ∷ []),
        notes-le report,
      )
  Step-measure {s} (server_step (ServerStep.send_step xs ys m b a e free took)) = omega (
    arith,
    ap (λ (ms : List (List ℕ)). length ms) e,
    length-append xs (m ∷ ys),
    length-append xs ys,
    length-append s.responses.wire (m ∷ []),
  )
  Step-measure (request_report k ks e) = omega (arith, ap (λ (ns : List ℕ). length ns) e)
  Step-measure (response_report k ks e) = omega (arith, ap (λ (ns : List ℕ). length ns) e)

  abbrev pub steps : {s t : Run Rx} → Reach total s t → ℕ
  steps here = 0
  steps (later r st) = steps r + 1

  steps-measure : {s t : Run Rx} (r : Reach total s t) → steps r + measure t ≤ measure s
  steps-measure here = omega arith
  steps-measure (later r st) = omega (arith, steps-measure r, Step-measure st)

pub run-bounded :
    {Rx : Type 0} (total : ℕ) (server_mr client_mr : Mr) (rx : Rx) (mem : Memory) {s : Run Rx}
    (r : Reach total (begin server_mr client_mr rx mem) s)
    → steps total r ≤ 9 * total
unfolding measure
run-bounded total server_mr client_mr rx mem r = omega (arith, steps-measure total r)
