-- ===== src/Examples/Counts.antt =====
-- How the counts of the example programs hang together (examples/client.rs, examples/server.rs).
use ibv.Prelude.{ℕ, ◌+◌, ◌≤◌, ◌≡◌, ap, List, ◌∷◌, ◌++◌, length, length-append, arith}
use ibv.Memory.{Memory}
use ibv.Mr.Region.{Mr}
use ibv.Examples.{Run}
use ibv.Examples.Flow.{arrivals, held_of}
use ibv.Examples.Invariant.{Issued-four, Fits, Inv}

module _ {Rx : Type 0} (total : ℕ) (server_mr client_mr : Mr) (rx : Rx) (mem : Memory)
    (fits : Fits total server_mr client_mr) where
  abbrev pub Holds : Run Rx → Type 0
  Holds s = Inv total server_mr client_mr rx mem s

  module _ {s : Run Rx} (inv : Holds s) where
    -- The counts of a run, from the responses that the client has counted to the requests that it has
    -- spawned.
    pub counts :
        (s.client.count + length s.responses.wire ≡ length s.responses.sent)
        × (length s.responses.sent + length s.server.spawned ≡ inv.replies)
        × (inv.replies + length (held_of s.server.holding) ≡ s.server.count)
        × (s.server.count + length s.requests.wire ≡ length s.requests.sent)
        × (length s.requests.sent + length s.client.pending ≡ s.client.next)
    counts = (
      arrivals client_mr rx mem fits.client inv.answering,
      inv.replied.amount,
      inv.lag,
      arrivals server_mr rx mem fits.server inv.asking,
      inv.asked.amount,
    )

    pub request_room :
        (xs ys : List (List ℕ)) (m : List ℕ)
        → s.client.pending ≡ xs ++ m ∷ ys
        → (length m ≡ 4) × (s.requests.sender.index + length m ≤ server_mr.addr + server_mr.length)
    request_room xs ys m e =
        let four = Issued-four inv.asked xs ys m e in
        (
          four,
          omega (
            arith,
            inv.asking.flat.all,
            inv.asked.bytes,
            inv.asked.amount,
            inv.within,
            fits.server_room,
            ap length e,
            length-append xs (m ∷ ys),
          ),
        )

    pub response_room :
        (xs ys : List (List ℕ)) (m : List ℕ)
        → s.server.spawned ≡ xs ++ m ∷ ys
        → (length m ≡ 4) × (s.responses.sender.index + length m ≤ client_mr.addr + client_mr.length)
    response_room xs ys m e =
        let four = Issued-four inv.replied xs ys m e in
        (
          four,
          omega (
            arith,
            inv.answering.flat.all,
            inv.replied.bytes,
            counts,
            inv.within,
            fits.client_room,
            ap length e,
            length-append xs (m ∷ ys),
          ),
        )
