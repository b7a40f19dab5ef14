-- ===== src/Examples/Tests.antt =====
-- A run of the example programs for one number, with buffers of 16 bytes, and the theorems about them at
-- it (examples/client.rs, examples/server.rs, examples/benchmark.rs).
use mathlib.Core.List.{Perm}
use ibv.Prelude.{
  ℕ, ◌-◌, ◌≤◌, ◌≡◌, ◌⊎◌, refl, true, false, none, some, List, [], ◌∷◌, ◌++◌, map, arith, u32_mod,
}
use ibv.Defaults.{default_recv_buffer_size}
use ibv.Memory.{Memory, store, load}
use ibv.Mr.Region.{Mr, RemoteBuf, from_mr}
use ibv.Mr.RemoteBufs
use ibv.Mr.RemoteBufs.{RemoteBufManager, alloc}
use ibv.Mr.RecvBufs
use ibv.Mr.RecvBufs.{slice, read, notify_release}
use ibv.Conn.{too_many}
use ibv.Examples.{
  to_be_bytes, sent_on, received_on, released_on, new_client, new_server, Run, begin, ClientStep,
  spawn_step, ServerStep, client_step, server_step, Reach, here, later,
}
use ibv.Examples.Words.{words}
use ibv.Examples.Invariant.{Fits}
use ibv.Examples.Exchange.{run-exchanged, run-finished}
use ibv.Examples.Bound.{steps}
use ibv.Examples.Progress.{Next, run-ends}
use ibv.Examples.Rounds.{Rounds, first, round}
use ibv.Examples.Benchmark.{server_task, server_task-waits, add_rounds, averages}

abbrev region : Mr
region = record { inner = 7; addr = 1000; length = 16; lkey = 1; rkey = 2 }

abbrev blank : Memory
blank x = 0

region-Fits : Fits 1 region region
region-Fits = omega arith

-- The number of the programs and the size of the library's buffers.
abbrev default_region : Mr
default_region = record region { length = default_recv_buffer_size }

default_region-Fits : Fits 100000 default_region default_region
default_region-Fits = omega arith

abbrev request : List ℕ
request = 0 ∷ 0 ∷ 0 ∷ 0 ∷ []

abbrev response : List ℕ
response = 0 ∷ 0 ∷ 0 ∷ 1 ∷ []

abbrev place : RemoteBuf
place = record { addr = 1000; length = 4; rkey = 2 }

abbrev moved : RemoteBufManager
moved = record {
  done = 1000;
  index = 1004;
  left = 1000;
  right = 1016;
  mr = record { addr = 1000; length = 16; rkey = 2 };
}

abbrev begun : Run (Unit {0})
begun = begin region region tt blank

abbrev spawned : Run (Unit {0})
spawned = record begun { client = record new_client { next = 1; pending = request ∷ [] } }

abbrev asked : Run (Unit {0})
asked = record begun {
  client = record new_client { next = 1 };
  requests = sent_on begun.requests request place moved;
  client_sending = 1;
}

abbrev served : Run (Unit {0})
served = record asked {
  server = record { count = 1; holding = some request; spawned = [] };
  requests = received_on asked.requests request [];
  server_sending = u32_mod - 1;
}

abbrev released : Run (Unit {0})
released = record served {
  server = record { count = 1; holding = none; spawned = response ∷ [] };
  requests = released_on served.requests 4 [];
}

abbrev answered : Run (Unit {0})
answered = record released {
  server = record { count = 1; holding = none; spawned = [] };
  responses = sent_on begun.responses response place moved;
  server_sending = 0;
}

abbrev received : Run (Unit {0})
received = record answered {
  client = record asked.client { count = 1; holding = some response };
  responses = received_on answered.responses response [];
  client_sending = 0;
}

abbrev ended : Run (Unit {0})
ended = record received {
  client = record asked.client { count = 1; finished = true };
  responses = released_on received.responses 4 [];
}

asked_reached : Reach 1 begun asked
unfolding alloc RemoteBufs.new from_mr to_be_bytes too_many
asked_reached =
    later (later here (client_step (spawn_step (omega arith))))
      (client_step (ClientStep.send_step [] [] request place moved refl refl refl))

answered_reached : Reach 1 begun answered
unfolding alloc RemoteBufs.new RecvBufs.new from_mr to_be_bytes too_many read slice load store
answered_reached =
    later
      (later
        (later asked_reached (server_step (ServerStep.recv_step request [] request refl refl refl)))
        (server_step (ServerStep.release_step request [] refl refl)))
      (server_step (ServerStep.send_step [] [] response place moved refl refl refl))

ended_reached : Reach 1 begun ended
unfolding RecvBufs.new read slice load store
ended_reached =
    later
      (later answered_reached
        (client_step (ClientStep.recv_step response [] response refl refl refl refl)))
      (client_step (ClientStep.release_step response [] refl refl))

run-exchanged_example :
    Perm ([] ++ map some (request ∷ [])) (map some (words 0 1))
    × Perm ([] ++ map some []) (map some (words 1 0))
run-exchanged_example = run-exchanged 1 region region tt blank region-Fits asked_reached

run-finished_example :
    Perm ended.requests.got (map some (words 0 1))
    × Perm ended.responses.got (map some (words 1 1))
    × (ended.client.pending ≡ [])
    × (ended.server.spawned ≡ [])
run-finished_example = run-finished 1 region region tt blank region-Fits ended_reached refl

run-ends_example :
    (steps 1 asked_reached ≤ 9) × ((false ≡ true) ⊎ Next 1 region region tt blank region-Fits asked)
run-ends_example = run-ends 1 region region tt blank region-Fits asked_reached

server_task-waits_example :
    server_task 100000 10 0 (request ∷ response ∷ [])
    ≡ ((request, new_server) ∷ (response, new_server) ∷ [], false)
server_task-waits_example = server_task-waits 100000 10 (request ∷ response ∷ []) (omega arith)

-- two rounds of three requests each
rounds_average :
    averages 2 (add_rounds 3 (record { elapsed = 0; latency = 0 }) (10 ∷ 14 ∷ []))
    ≡ record { elapsed = 12; latency = 3 }
unfolding averages add_rounds
rounds_average = refl

one_round : Rounds region region tt blank 1 1 (ended ∷ [])
one_round = round ended first ended_reached refl refl
