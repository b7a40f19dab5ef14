-- ===== src/Examples/Exchange.antt =====
-- What the example programs have exchanged (examples/client.rs, examples/server.rs).
use mathlib.Core.List.{Perm, map-append}
use mathlib.Core.List.Perm
use ibv.Prelude.{
  ℕ, ◌+◌, ◌≡◌, some, true, List, [], ◌++◌, append_assoc, append-nil, map, length, length-append,
  nil_of_length, arith,
}
use ibv.Memory.{Memory}
use ibv.Mr.Region.{Mr}
use ibv.Link.{Link}
use ibv.Examples.{Run, begin, Reach}
use ibv.Examples.Words.{words}
use ibv.Examples.Flow.{answers, held_of}
use ibv.Examples.Invariant.{Issued, Fits, Inv}
use ibv.Examples.Counts.{counts}
use ibv.Examples.Keeping.{Reach-Inv}

-- The answers so far, the messages on the wire and those of the waiting tasks are the issued ones.
Issued-answers :
    {Rx : Type 0} {from n : ℕ} {pending : List (List ℕ)} (l : Link Rx)
    → l.got ++ map some l.wire ≡ map some l.sent
    → Issued from n l.sent pending
    → Perm (l.got ++ map some (l.wire ++ pending)) (map some (words from n))
Issued-answers {pending = pending} l e i =
    rw (map-append some l.wire pending, ← append_assoc, e, ← map-append some l.sent pending)
      (Perm.map some i.same)

module _ {Rx : Type 0} (total : ℕ) (server_mr client_mr : Mr) (rx : Rx) (mem : Memory)
    (fits : Fits total server_mr client_mr) {s : Run Rx}
    (r : Reach total (begin server_mr client_mr rx mem) s) where
  kept : Inv total server_mr client_mr rx mem s
  kept = Reach-Inv total server_mr client_mr rx mem fits r

  -- If both regions have room for the messages of `total` numbers and `total` is positive and
  -- below 2 ^ 31, then in every state that the client and the server of the examples reach with
  -- `total`, the answers that the server has got, the requests on the wire and those of waiting
  -- tasks are the messages of the numbers that the client has spawned, each once; and the
  -- responses got, on the wire and waiting are the messages of the numbers from 1 on, each once.
  pub run-exchanged :
      Perm
        (s.requests.got ++ map some (s.requests.wire ++ s.client.pending))
        (map some (words 0 s.client.next))
      × Perm
          (s.responses.got ++ map some (s.responses.wire ++ s.server.spawned))
          (map some (words 1 (length s.responses.sent + length s.server.spawned)))
  run-exchanged = (
    Issued-answers s.requests (answers server_mr rx mem fits.server kept.asking) kept.asked,
    rw kept.replied.amount (
        Issued-answers s.responses (answers client_mr rx mem fits.client kept.answering)
          kept.replied),
  )

  -- All counts are `total` when the client has finished.
  record Done : Type 0 where
    spawned : s.client.next ≡ total
    replied : length s.responses.sent + length s.server.spawned ≡ total
    served : s.server.count ≡ total
    no_requests : s.requests.wire ++ s.client.pending ≡ []
    no_responses : s.responses.wire ++ s.server.spawned ≡ []
    no_pending : s.client.pending ≡ []
    no_spawned : s.server.spawned ≡ []

  module _ (e : s.client.finished ≡ true) where
    abbrev all_counts :
        (s.client.count + length s.responses.wire ≡ length s.responses.sent)
        × (length s.responses.sent + length s.server.spawned ≡ kept.replies)
        × (kept.replies + length (held_of s.server.holding) ≡ s.server.count)
        × (s.server.count + length s.requests.wire ≡ length s.requests.sent)
        × (length s.requests.sent + length s.client.pending ≡ s.client.next)
    all_counts = counts total server_mr client_mr rx mem fits kept

    Finished-Done : Done
    Finished-Done = record {
      spawned = omega (arith, all_counts, kept.finished e, kept.within);
      replied = omega (arith, all_counts, kept.finished e, kept.within);
      served = omega (arith, all_counts, kept.finished e, kept.within);
      no_requests = nil_of_length _ (
          omega (
            arith,
            all_counts,
            kept.finished e,
            kept.within,
            length-append s.requests.wire s.client.pending,
          ));
      no_responses = nil_of_length _ (
          omega (
            arith,
            all_counts,
            kept.finished e,
            kept.within,
            length-append s.responses.wire s.server.spawned,
          ));
      no_pending = nil_of_length _ (omega (arith, all_counts, kept.finished e, kept.within));
      no_spawned = nil_of_length _ (omega (arith, all_counts, kept.finished e, kept.within));
    }

  -- If both regions have room for the messages of `total` numbers and `total` is positive and
  -- below 2 ^ 31, then in every state that the client and the server of the examples reach with
  -- `total` where the client has received its last response, the server has got the messages of
  -- the numbers below `total`, each once, the client has got the messages of the numbers 1 to
  -- `total`, each once, in some order, and no task waits to send.
  pub run-finished :
      s.client.finished ≡ true
      → Perm s.requests.got (map some (words 0 total))
        × Perm s.responses.got (map some (words 1 total))
        × (s.client.pending ≡ [])
        × (s.server.spawned ≡ [])
  run-finished e =
      let d = Finished-Done e in
      let x = run-exchanged in
      (
        rw (d.spawned, d.no_requests, append-nil) at x.0,
        rw (d.replied, d.no_responses, append-nil) at x.1,
        d.no_pending,
        d.no_spawned,
      )

  -- The server has counted all requests.
  pub run-served : s.client.finished ≡ true → s.server.count ≡ total
  run-served e = (Finished-Done e).served
