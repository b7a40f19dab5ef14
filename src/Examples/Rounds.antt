-- ===== src/Examples/Rounds.antt =====
-- The rounds of the benchmark's client (examples/benchmark.rs): each makes a connection of its own, whose
-- task at the server counts from 0, and ends when all sending tasks are spawned and all responses are
-- received.
use ibv.Prelude.{ℕ, zero, suc, ◌*◌, ◌≡◌, true, List, [], ◌∷◌, map, sum, arith}
use ibv.Memory.{Memory}
use ibv.Mr.Region.{Mr}
use ibv.Examples.{Run, begin, Reach}
use ibv.Examples.Invariant.{Fits}
use ibv.Examples.Exchange.{run-served}

module _ {Rx : Type 0} (server_mr client_mr : Mr) (rx : Rx) (mem : Memory) (total : ℕ) where
  -- the connections of some rounds as they stand at the end, the newest first
  pub data Rounds : ℕ → List (Run Rx) → Type 0 where
    first : Rounds zero []
    round :
        {i : ℕ} {conns : List (Run Rx)} (s : Run Rx)
        → Rounds i conns
        → Reach total (begin server_mr client_mr rx mem) s
        → s.client.finished ≡ true
        → s.client.next ≡ total
        → Rounds (suc i) (s ∷ conns)

  -- The tasks of the connections have together counted the requests that the server's loop waits for.
  Rounds-served :
      Fits total server_mr client_mr
      → {num_iterations : ℕ} {conns : List (Run Rx)} → Rounds num_iterations conns
      → sum (map (λ s. s.server.count) conns) ≡ total * num_iterations
  Rounds-served fits first = omega arith
  Rounds-served fits (round s before r finished spawned) = grind (
    arith,
    Rounds-served fits before,
    run-served total server_mr client_mr rx mem fits r finished,
  )
