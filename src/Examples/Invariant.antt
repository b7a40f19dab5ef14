-- ===== src/Examples/Invariant.antt =====
-- What holds in every state of the example programs (examples/client.rs, examples/server.rs).
use mathlib.Core.List.{Perm, perm_middle}
use mathlib.Core.List.Perm
use ibv.Prelude.{
  ℕ, ◌+◌, ◌*◌, ◌≤◌, ◌<◌, ◌^◌, ◌≡◌, refl, ap, none, List, [], ◌∷◌, ◌++◌, append_assoc, length,
  length-append, All, All-append, All-remove, sum, true, ◌==◌, u32_mod, ◌%◌, arith,
}
use ibv.Memory.{Memory}
use ibv.Mr.Region.{Mr}
use ibv.Link.Delivery.{Registered}
use ibv.Link.Invariant.{lengths}
use ibv.Examples.{to_be_bytes, Run, begin}
use ibv.Examples.Words.{words, words-add_one, length-to_be_bytes}
use ibv.Examples.Flat.{sum-lengths-snoc}
use ibv.Examples.Flow.{Flow, start-Flow, held_of}

-- Of the messages for the `n` numbers from `from` on, some are sent and the others wait in their tasks.
pub record Issued (from n : ℕ) (sent pending : List (List ℕ)) : Type 0 where
  pub amount : length sent + length pending ≡ n
  pub bytes : sum (lengths sent) ≡ 4 * length sent
  pub four : All (λ m. length m ≡ 4) pending
  pub same : Perm (sent ++ pending) (words from n)

module _ {from n : ℕ} {sent pending : List (List ℕ)} (i : Issued from n sent pending) where
  pub Issued-spawn :
      (k : ℕ) → k ≡ from + n → Issued from (n + 1) sent (pending ++ to_be_bytes k ∷ [])
  Issued-spawn k e = record {
    amount = omega (arith, i.amount, length-append pending (to_be_bytes k ∷ []));
    bytes = i.bytes;
    four =
        All-append (λ m. length m ≡ 4) pending (to_be_bytes k ∷ []) i.four
          (length-to_be_bytes k, tt);
    same = rw (← append_assoc, words-add_one, ← e) (Perm.append_right (to_be_bytes k ∷ []) i.same);
  }

  pub Issued-four : (xs ys : List (List ℕ)) (m : List ℕ) → pending ≡ xs ++ m ∷ ys → length m ≡ 4
  Issued-four xs ys m e = (All-remove (λ m. length m ≡ 4) xs ys m (rw e at i.four)).0

  pub Issued-send :
      (xs ys : List (List ℕ)) (m : List ℕ)
      → pending ≡ xs ++ m ∷ ys
      → Issued from n (sent ++ m ∷ []) (xs ++ ys)
  Issued-send xs ys m e = record {
    amount = omega (
      arith,
      i.amount,
      ap length e,
      length-append sent (m ∷ []),
      length-append xs (m ∷ ys),
      length-append xs ys,
    );
    bytes = omega (arith, i.bytes, four.0, sum-lengths-snoc sent m, length-append sent (m ∷ []));
    four = four.1;
    same =
        rw append_assoc
          (Perm.trans (Perm.append_left sent (Perm.symm (perm_middle xs ys))) (rw e at i.same));
  }
    where
      four : (length m ≡ 4) × All (λ m. length m ≡ 4) (xs ++ ys)
      four = All-remove (λ m. length m ≡ 4) xs ys m (rw e at i.four)

-- Both regions have room for all messages of a run, and the counters do not come to 2 ^ 31.
pub record Fits (total : ℕ) (server_mr client_mr : Mr) : Type 0 where
  pub server : Registered server_mr
  pub client : Registered client_mr
  pub positive : 0 < total
  pub few : total < 2 ^ 31
  pub server_room : 4 * total ≤ server_mr.length
  pub client_room : 4 * total ≤ client_mr.length

module _ {Rx : Type 0} (total : ℕ) (server_mr client_mr : Mr) (rx : Rx) (mem : Memory) where
  pub record Inv (s : Run Rx) : Type 0 where
    pub asking : Flow server_mr rx mem s.server.count s.server.holding s.requests
    pub answering : Flow client_mr rx mem s.client.count s.client.holding s.responses
    pub replies : ℕ
    pub asked : Issued 0 s.client.next s.requests.sent s.client.pending
    pub replied : Issued 1 replies s.responses.sent s.server.spawned
    pub lag : replies + length (held_of s.server.holding) ≡ s.server.count
    pub within : s.client.next ≤ total
    pub client_counts : s.client_sending + s.client.count ≡ length s.requests.sent
    pub server_counts : (s.server_sending + s.server.count) % u32_mod ≡ length s.responses.sent
    pub server_word : s.server_sending < u32_mod
    pub finishes : s.client.holding ≡ none → s.client.finished ≡ (s.client.count == total)
    pub finished : s.client.finished ≡ true → s.client.count ≡ total

  pub begin-Inv : Fits total server_mr client_mr → Inv (begin server_mr client_mr rx mem)
  begin-Inv fits = record {
    asking = start-Flow server_mr rx mem fits.server;
    answering = start-Flow client_mr rx mem fits.client;
    replies = 0;
    asked = record { amount = refl; bytes = refl; four = tt; same = Perm.rfl };
    replied = record { amount = refl; bytes = refl; four = tt; same = Perm.rfl };
    lag = refl;
    within = omega arith;
    client_counts = refl;
    server_counts = refl;
    server_word = omega arith;
    finishes = λ e. ground (arith, fits.positive);
    finished = λ e. cc;
  }
