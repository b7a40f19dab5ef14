-- ===== src/Examples/Progress.antt =====
-- The example programs do not get stuck (examples/client.rs, examples/server.rs).
use ibv.Prelude.{
  ℕ, ◌+◌, ◌*◌, ◌≤◌, ◌<◌, ◌^◌, ◌≡◌, ap, ◌∙◌, ◌⊎◌, inl, inr, true, false, Bool-cases, none, some,
  Option-cases, List, [], ◌∷◌, List-cases, length, dec_lt, arith, ◌==◌,
}
use ibv.Memory.{Memory}
use ibv.Mr.Region.{Mr}
use ibv.Conn.{too_many}
use ibv.Examples.{
  Run, begin, ClientStep, spawn_step, ServerStep, Step, client_step, server_step, Reach,
}
use ibv.Examples.Flow.{can_send, read-oldest, held_of}
use ibv.Examples.Invariant.{Fits, Inv}
use ibv.Examples.Counts.{counts, request_room, response_room}
use ibv.Examples.Keeping.{Reach-Inv}
use ibv.Examples.Bound.{steps, run-bounded}

few-not-too_many : (n : ℕ) → (0 < n → 2 ^ 31 ≤ n) → too_many n ≡ false
unfolding too_many
few-not-too_many n h = ground (arith, h)

module _ {Rx : Type 0} (total : ℕ) (server_mr client_mr : Mr) (rx : Rx) (mem : Memory)
    (fits : Fits total server_mr client_mr) where
  abbrev pub Next : Run Rx → Type 0
  Next s = (t : Run Rx) × Step total s t

  module _ {s : Run Rx} (inv : Inv total server_mr client_mr rx mem s) where
    abbrev all_counts :
        (s.client.count + length s.responses.wire ≡ length s.responses.sent)
        × (length s.responses.sent + length s.server.spawned ≡ inv.replies)
        × (inv.replies + length (held_of s.server.holding) ≡ s.server.count)
        × (s.server.count + length s.requests.wire ≡ length s.requests.sent)
        × (length s.requests.sent + length s.client.pending ≡ s.client.next)
    all_counts = counts total server_mr client_mr rx mem fits inv

    client_releases : (msg : List ℕ) → s.client.holding ≡ some msg → Next s
    client_releases msg held = (
      _,
      client_step (ClientStep.release_step msg [] held (inv.answering.held ∙ ap held_of held)),
    )

    server_releases : (msg : List ℕ) → s.server.holding ≡ some msg → Next s
    server_releases msg held =
        (_, server_step (ServerStep.release_step msg [] held (inv.asking.held ∙ ap held_of held)))

    server_receives :
        (m : List ℕ) (w : List (List ℕ))
        → s.requests.wire ≡ m ∷ w
        → s.server.holding ≡ none
        → Next s
    server_receives m w e idle = (
      _,
      server_step (
          ServerStep.recv_step m w m idle e
            (read-oldest server_mr rx mem fits.server inv.asking m w e)),
    )

    client_receives :
        (m : List ℕ) (w : List (List ℕ))
        → s.responses.wire ≡ m ∷ w
        → s.client.holding ≡ none
        → s.client.finished ≡ false
        → Next s
    client_receives m w e idle going = (
      _,
      client_step (
          ClientStep.recv_step m w m going idle e
            (read-oldest client_mr rx mem fits.client inv.answering m w e)),
    )

    server_sends : (m : List ℕ) (ys : List (List ℕ)) → s.server.spawned ≡ m ∷ ys → Next s
    server_sends m ys e =
        let (b, a, took) =
          can_send client_mr rx mem fits.client inv.answering (length m)
            (response_room total server_mr client_mr rx mem fits inv [] ys m e).1 in
        (
          _,
          server_step (
              ServerStep.send_step [] ys m b a e
                (few-not-too_many s.server_sending (λ h.
                  omega
                    (arith, all_counts, inv.server_counts, inv.server_word, inv.within, fits.few)))
                took),
        )

    client_sends :
        (m : List ℕ) (ys : List (List ℕ))
        → s.client.pending ≡ m ∷ ys
        → s.client_sending ≡ 0
        → Next s
    client_sends m ys e none_sending =
        let (b, a, took) =
          can_send server_mr rx mem fits.server inv.asking (length m)
            (request_room total server_mr client_mr rx mem fits inv [] ys m e).1 in
        (
          _,
          client_step (
              ClientStep.send_step [] ys m b a e
                (few-not-too_many s.client_sending (λ h. absurd (omega arith))) took),
        )

    -- The tasks of both sides wait for a message, and none is under way.
    rests :
        s.client.holding ≡ none
        → s.client.finished ≡ false
        → s.server.holding ≡ none
        → s.requests.wire ≡ []
        → s.server.spawned ≡ []
        → s.responses.wire ≡ []
        → Next s
    rests idle going waits no_request no_task no_response = elim (List-cases s.client.pending) [
      | inr (m, ys, e) ↦ client_sends m ys e (omega (arith, all, inv.client_counts))
      | inl no_pending ↦ elim (dec_lt s.client.next total) [
        | yes less ↦ (_, client_step (spawn_step less))
        | no spawned ↦
            let counted : s.client.count ≡ total =
              omega (arith, all, inv.within, ap len no_pending) in
            cc (inv.finishes idle, counted, same total)
      ]
    ]
      where
        len : List (List ℕ) → ℕ
        len = length

        all : s.client.count ≡ length s.requests.sent
        all = omega (
          arith,
          all_counts,
          ap (λ h. length (held_of h)) waits,
          ap length no_request,
          ap length no_task,
          ap length no_response,
        )

        same : (n : ℕ) → (n == n) ≡ true
        same n = ground arith

    goes_on : s.client.finished ≡ false → Next s
    goes_on going = elim (Option-cases s.client.holding) [
      | inr (msg, held) ↦ client_releases msg held
      | inl idle ↦ elim (Option-cases s.server.holding) [
        | inr (msg, held) ↦ server_releases msg held
        | inl waits ↦ elim (List-cases s.requests.wire) [
          | inr (m, w, e) ↦ server_receives m w e waits
          | inl no_request ↦ elim (List-cases s.server.spawned) [
            | inr (m, ys, e) ↦ server_sends m ys e
            | inl no_task ↦ elim (List-cases s.responses.wire) [
              | inr (m, w, e) ↦ client_receives m w e idle going
              | inl no_response ↦ rests idle going waits no_request no_task no_response
            ]
          ]
        ]
      ]
    ]

  -- If both regions have room for the messages of `total` numbers and `total` is positive and
  -- below 2 ^ 31, then every run of the client and the server of the examples with `total` has
  -- at most 9 * total steps, and in every state that they reach the client has received its last
  -- response or a step is possible.
  pub run-ends :
      {s : Run Rx} (r : Reach total (begin server_mr client_mr rx mem) s)
      → (steps total r ≤ 9 * total) × ((s.client.finished ≡ true) ⊎ Next s)
  run-ends {s} r = (
    run-bounded total server_mr client_mr rx mem r,
    elim (Bool-cases s.client.finished) [
      | inl ended ↦ inl ended
      | inr going ↦ inr (goes_on (Reach-Inv total server_mr client_mr rx mem fits r) going)
    ],
  )
