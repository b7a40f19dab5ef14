-- ===== src/Examples.antt =====
-- The example programs (examples/client.rs, examples/server.rs) over one connection: the client spawns
-- one sending task for each number below `total` and counts the responses; the server answers each
-- message with the number of messages so far. A step is a part of one task between two waits; sending,
-- receiving and releasing are steps of the two links of the connection, so that the send buffers and
-- the channels, which 4 bytes for each number do not fill, are left aside.
pub mod Words
pub mod Flat
pub mod Flow
pub mod Invariant
pub mod Counts
pub mod Keeping
pub mod Exchange
pub mod Progress
pub mod Bound
pub mod Benchmark
pub mod Rounds
mod Tests
use ibv.Prelude.{
  ℕ, ◌+◌, ◌-◌, ◌/◌, ◌%◌, ◌^◌, ◌<◌, ◌≡◌, Bool, false, Option, none, some, List, [], ◌∷◌, ◌++◌, ◌==◌,
  length, add32, u32_mod,
}
use ibv.Memory.{Memory, store}
use ibv.Mr.Region.{Mr, RemoteBuf}
use ibv.Mr.RemoteBufs.{RemoteBufManager, alloc}
use ibv.Mr.RemoteBufs.Waiting.{quiet}
use ibv.Mr.RecvBufs.{read, notify_release}
use ibv.Link.{Link, start, acknowledge, to_notes}
use ibv.Conn.{too_many}

-- `to_be_bytes` of a `u32`
unfoldable pub to_be_bytes : ℕ → List ℕ
to_be_bytes n = n / 2 ^ 24 % 256 ∷ n / 2 ^ 16 % 256 ∷ n / 2 ^ 8 % 256 ∷ n % 256 ∷ []

-- `next` is the variable of the loop over the numbers, `pending` are the messages of the tasks that
-- have not sent. `count` and `holding` belong to the receiving task, `holding` between `recv_msg` and
-- `release`; `finished` is its `tx.send(())`.
pub record Client : Type 0 where
  pub next : ℕ
  pub pending : List (List ℕ)
  pub count : ℕ
  pub holding : Option (List ℕ)
  pub finished : Bool

-- The variables of `handle`; `spawned` are the responses of the tasks that have not sent.
pub record Server : Type 0 where
  pub count : ℕ
  pub holding : Option (List ℕ)
  pub spawned : List (List ℕ)

abbrev pub new_client : Client
new_client = record { next = 0; pending = []; count = 0; holding = none; finished = false }

abbrev pub new_server : Server
new_server = record { count = 0; holding = none; spawned = [] }

module _ {Rx : Type 0} where
  -- a link behind `send_msg`, `recv_msg`, `release` and the arrival of a report
  abbrev pub sent_on : Link Rx → List ℕ → RemoteBuf → RemoteBufManager → Link Rx
  sent_on l bytes b m = record l {
    mem = store l.mem b.addr bytes;
    sender = m;
    wire = l.wire ++ bytes ∷ [];
    sent = l.sent ++ bytes ∷ [];
  }

  abbrev pub received_on : Link Rx → List ℕ → List (List ℕ) → Link Rx
  received_on l bytes w = record l {
    receiver = (read l.mem l.receiver (length bytes)).1;
    wire = w;
    held = l.held ++ length bytes ∷ [];
    got = l.got ++ (read l.mem l.receiver (length bytes)).0 ∷ [];
  }

  abbrev pub released_on : Link Rx → ℕ → List ℕ → Link Rx
  released_on l n h = record l {
    receiver = (notify_release l.receiver n).1;
    held = h;
    notes = l.notes ++ to_notes (notify_release l.receiver n).0;
  }

  abbrev pub reported_on : Link Rx → ℕ → List ℕ → Link Rx
  reported_on l k ks = record l { sender = acknowledge l.sender k; notes = ks }

-- Both programs and the two directions of their connection, with the counters `sending` of the ends.
pub record Run (Rx : Type 0) : Type 0 where
  pub client : Client
  pub server : Server
  pub requests : Link Rx
  pub responses : Link Rx
  pub client_sending : ℕ
  pub server_sending : ℕ

module _ {Rx : Type 0} where
  abbrev pub begin : Mr → Mr → Rx → Memory → Run Rx
  begin server_mr client_mr rx mem = record {
    client = new_client;
    server = new_server;
    requests = start server_mr rx mem;
    responses = start client_mr rx mem;
    client_sending = 0;
    server_sending = 0;
  }

  module _ (total : ℕ) where
    -- `main` of the client, its sending tasks and its receiving task
    pub data ClientStep (s : Run Rx) : Run Rx → Type 0 where
      spawn_step :
          s.client.next < total
          → ClientStep s (record s {
            client = record s.client {
              next = s.client.next + 1;
              pending = s.client.pending ++ to_be_bytes s.client.next ∷ [];
            };
          })
      send_step :
          (xs ys : List (List ℕ)) (m : List ℕ) (b : RemoteBuf) (a : RemoteBufManager)
          → s.client.pending ≡ xs ++ m ∷ ys
          → too_many s.client_sending ≡ false
          → alloc (quiet ([] ∷ [])) s.requests.sender (length m) ≡ some (b, a)
          → ClientStep s (record s {
            client = record s.client { pending = xs ++ ys };
            requests = sent_on s.requests m b a;
            client_sending = add32 s.client_sending 1;
          })
      recv_step :
          (m : List ℕ) (w : List (List ℕ)) (msg : List ℕ)
          → s.client.finished ≡ false
          → s.client.holding ≡ none
          → s.responses.wire ≡ m ∷ w
          → (read s.responses.mem s.responses.receiver (length m)).0 ≡ some msg
          → ClientStep s (record s {
            client = record s.client { count = add32 s.client.count 1; holding = some msg };
            responses = received_on s.responses m w;
            client_sending = add32 s.client_sending (u32_mod - 1);
          })
      release_step :
          (msg : List ℕ) (h : List ℕ)
          → s.client.holding ≡ some msg
          → s.responses.held ≡ length msg ∷ h
          → ClientStep s (record s {
            client = record s.client { holding = none; finished = s.client.count == total };
            responses = released_on s.responses (length msg) h;
          })

  -- `handle` of the server and the tasks that it spawns
  pub data ServerStep (s : Run Rx) : Run Rx → Type 0 where
    recv_step :
        (m : List ℕ) (w : List (List ℕ)) (msg : List ℕ)
        → s.server.holding ≡ none
        → s.requests.wire ≡ m ∷ w
        → (read s.requests.mem s.requests.receiver (length m)).0 ≡ some msg
        → ServerStep s (record s {
          server = record s.server { count = add32 s.server.count 1; holding = some msg };
          requests = received_on s.requests m w;
          server_sending = add32 s.server_sending (u32_mod - 1);
        })
    release_step :
        (msg : List ℕ) (h : List ℕ)
        → s.server.holding ≡ some msg
        → s.requests.held ≡ length msg ∷ h
        → ServerStep s (record s {
          server = record s.server {
            holding = none;
            spawned = s.server.spawned ++ to_be_bytes s.server.count ∷ [];
          };
          requests = released_on s.requests (length msg) h;
        })
    send_step :
        (xs ys : List (List ℕ)) (m : List ℕ) (b : RemoteBuf) (a : RemoteBufManager)
        → s.server.spawned ≡ xs ++ m ∷ ys
        → too_many s.server_sending ≡ false
        → alloc (quiet ([] ∷ [])) s.responses.sender (length m) ≡ some (b, a)
        → ServerStep s (record s {
          server = record s.server { spawned = xs ++ ys };
          responses = sent_on s.responses m b a;
          server_sending = add32 s.server_sending 1;
        })

  -- A step of a program, or the arrival of a report with a message of the other direction.
  pub data Step (total : ℕ) (s : Run Rx) : Run Rx → Type 0 where
    client_step : {t : Run Rx} → ClientStep total s t → Step total s t
    server_step : {t : Run Rx} → ServerStep s t → Step total s t
    request_report :
        (k : ℕ) (ks : List ℕ)
        → s.requests.notes ≡ k ∷ ks
        → Step total s (record s { requests = reported_on s.requests k ks })
    response_report :
        (k : ℕ) (ks : List ℕ)
        → s.responses.notes ≡ k ∷ ks
        → Step total s (record s { responses = reported_on s.responses k ks })

  pub data Reach (total : ℕ) (s : Run Rx) : Run Rx → Type 0 where
    here : Reach total s s
    later : {t u : Run Rx} → Reach total s t → Step total t u → Reach total s u
