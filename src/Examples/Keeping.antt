-- ===== src/Examples/Keeping.antt =====
-- The steps of the example programs (examples/client.rs, examples/server.rs) keep their invariant.
use ibv.Prelude.{ℕ, ◌+◌, refl, ap, List, [], ◌∷◌, length, length-append, arith}
use ibv.Memory.{Memory}
use ibv.Mr.Region.{Mr}
use ibv.Examples.{
  Run, begin, ClientStep, spawn_step, ServerStep, Step, client_step, server_step, request_report,
  response_report, Reach, here, later,
}
use ibv.Examples.Flow.{send-Flow, recv-Flow, release-Flow, report-Flow, held_of}
use ibv.Examples.Invariant.{Issued-spawn, Issued-send, Fits, begin-Inv}
use ibv.Examples.Counts.{Holds, counts, request_room, response_room}

module _ {Rx : Type 0} (total : ℕ) (server_mr client_mr : Mr) (rx : Rx) (mem : Memory)
    (fits : Fits total server_mr client_mr) where
  abbrev Kept : Run Rx → Type 0
  Kept = Holds total server_mr client_mr rx mem fits

  ClientStep-Inv : {s t : Run Rx} → Kept s → ClientStep total s t → Kept t
  ClientStep-Inv {s} inv (spawn_step less) = record {
    asking = inv.asking;
    answering = inv.answering;
    replies = inv.replies;
    asked = Issued-spawn inv.asked _ (omega arith);
    replied = inv.replied;
    lag = inv.lag;
    within = omega arith;
    client_counts = inv.client_counts;
    server_counts = inv.server_counts;
    server_word = inv.server_word;
    finishes = inv.finishes;
    finished = inv.finished;
  }
  ClientStep-Inv {s} inv (ClientStep.send_step xs ys m b a e free took) = record {
    asking =
        let (four, room) = request_room total server_mr client_mr rx mem fits inv xs ys m e in
        send-Flow server_mr rx mem fits.server inv.asking m b a (omega arith) room took;
    answering = inv.answering;
    replies = inv.replies;
    asked = Issued-send inv.asked xs ys m e;
    replied = inv.replied;
    lag = inv.lag;
    within = inv.within;
    client_counts = omega (
      arith,
      inv.client_counts,
      counts total server_mr client_mr rx mem fits inv,
      inv.within,
      fits.few,
      length-append _ (m ∷ []),
    );
    server_counts = inv.server_counts;
    server_word = inv.server_word;
    finishes = inv.finishes;
    finished = inv.finished;
  }
  ClientStep-Inv {s} inv (ClientStep.recv_step m w msg going idle e answer) = record {
    asking = inv.asking;
    answering = recv-Flow client_mr rx mem fits.client inv.answering m w msg idle e answer (
        omega (
          arith,
          counts total server_mr client_mr rx mem fits inv,
          ap (λ (ms : List (List ℕ)). length ms) e,
          inv.within,
          fits.few,
        ));
    replies = inv.replies;
    asked = inv.asked;
    replied = inv.replied;
    lag = inv.lag;
    within = inv.within;
    client_counts = omega (
      arith,
      inv.client_counts,
      counts total server_mr client_mr rx mem fits inv,
      ap (λ (ms : List (List ℕ)). length ms) e,
      inv.within,
      fits.few,
    );
    server_counts = inv.server_counts;
    server_word = inv.server_word;
    finishes = λ held. cc;
    finished = λ ended. cc;
  }
  ClientStep-Inv {s} inv (ClientStep.release_step msg h held e) = record {
    asking = inv.asking;
    answering = release-Flow client_mr rx mem fits.client inv.answering msg h held e;
    replies = inv.replies;
    asked = inv.asked;
    replied = inv.replied;
    lag = inv.lag;
    within = inv.within;
    client_counts = inv.client_counts;
    server_counts = inv.server_counts;
    server_word = inv.server_word;
    finishes = λ none_held. refl;
    finished = λ ended. ground arith;
  }

  ServerStep-Inv : {s t : Run Rx} → Kept s → ServerStep s t → Kept t
  ServerStep-Inv {s} inv (ServerStep.recv_step m w msg idle e answer) = record {
    asking = recv-Flow server_mr rx mem fits.server inv.asking m w msg idle e answer (
        omega (
          arith,
          counts total server_mr client_mr rx mem fits inv,
          ap (λ (ms : List (List ℕ)). length ms) e,
          inv.within,
          fits.few,
        ));
    answering = inv.answering;
    replies = inv.replies;
    asked = inv.asked;
    replied = inv.replied;
    lag = omega (
      arith,
      counts total server_mr client_mr rx mem fits inv,
      ap (λ (ms : List (List ℕ)). length ms) e,
      ap (λ h. length (held_of h)) idle,
      inv.within,
      fits.few,
    );
    within = inv.within;
    client_counts = inv.client_counts;
    server_counts = omega (
      arith,
      inv.server_counts,
      inv.server_word,
      counts total server_mr client_mr rx mem fits inv,
      ap (λ (ms : List (List ℕ)). length ms) e,
      inv.within,
      fits.few,
    );
    server_word = omega arith;
    finishes = inv.finishes;
    finished = inv.finished;
  }
  ServerStep-Inv {s} inv (ServerStep.release_step msg h held e) = record {
    asking = release-Flow server_mr rx mem fits.server inv.asking msg h held e;
    answering = inv.answering;
    replies = inv.replies + 1;
    asked = inv.asked;
    replied =
        Issued-spawn inv.replied _ (omega (arith, inv.lag, ap (λ h. length (held_of h)) held));
    lag = omega (arith, inv.lag, ap (λ h. length (held_of h)) held);
    within = inv.within;
    client_counts = inv.client_counts;
    server_counts = inv.server_counts;
    server_word = inv.server_word;
    finishes = inv.finishes;
    finished = inv.finished;
  }
  ServerStep-Inv {s} inv (ServerStep.send_step xs ys m b a e free took) = record {
    asking = inv.asking;
    answering =
        let (four, room) = response_room total server_mr client_mr rx mem fits inv xs ys m e in
        send-Flow client_mr rx mem fits.client inv.answering m b a (omega arith) room took;
    replies = inv.replies;
    asked = inv.asked;
    replied = Issued-send inv.replied xs ys m e;
    lag = inv.lag;
    within = inv.within;
    client_counts = inv.client_counts;
    server_counts = omega (
      arith,
      inv.server_counts,
      inv.server_word,
      length-append s.responses.sent (m ∷ []),
      counts total server_mr client_mr rx mem fits inv,
      length-append _ (m ∷ []),
      inv.within,
      fits.few,
      ap (λ (ms : List (List ℕ)). length ms) e,
      length-append xs (m ∷ ys),
    );
    server_word = omega arith;
    finishes = inv.finishes;
    finished = inv.finished;
  }

  Step-Inv : {s t : Run Rx} → Kept s → Step total s t → Kept t
  Step-Inv inv (client_step st) = ClientStep-Inv inv st
  Step-Inv inv (server_step st) = ServerStep-Inv inv st
  Step-Inv inv (request_report k ks e) = record {
    asking = report-Flow server_mr rx mem fits.server inv.asking k ks e;
    answering = inv.answering;
    replies = inv.replies;
    asked = inv.asked;
    replied = inv.replied;
    lag = inv.lag;
    within = inv.within;
    client_counts = inv.client_counts;
    server_counts = inv.server_counts;
    server_word = inv.server_word;
    finishes = inv.finishes;
    finished = inv.finished;
  }
  Step-Inv inv (response_report k ks e) = record {
    asking = inv.asking;
    answering = report-Flow client_mr rx mem fits.client inv.answering k ks e;
    replies = inv.replies;
    asked = inv.asked;
    replied = inv.replied;
    lag = inv.lag;
    within = inv.within;
    client_counts = inv.client_counts;
    server_counts = inv.server_counts;
    server_word = inv.server_word;
    finishes = inv.finishes;
    finished = inv.finished;
  }

  pub Reach-Inv : {s : Run Rx} → Reach total (begin server_mr client_mr rx mem) s → Kept s
  Reach-Inv here = begin-Inv total server_mr client_mr rx mem fits
  Reach-Inv (later r st) = Step-Inv (Reach-Inv r) st
