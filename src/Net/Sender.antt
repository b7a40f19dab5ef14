-- ===== src/Net/Sender.antt =====
-- All messages under way of a sender (src/types/mr.rs, lines 191 to 286).
use ibv.Prelude.{
  ℕ, ◌+◌, ◌≤◌, ◌<◌, ◌≡◌, ap, List, [], ◌∷◌, ◌++◌, arith, ℕ_discrete, All, All-append, All-imp,
  All-remove,
}
use ibv.Channel.{Mpsc}
use ibv.Memory.{Memory}
use ibv.Mr.SendBufs.{SendBuffer, Entry, complete, task, event, Inv}
use ibv.Mr.SendBufs.Events.{event-Inv}
use ibv.Net.{Ticket, Posted, count, ticket_count, tickets_of}
use mathlib.Core.List.{map-append}
use ibv.Net.Outgoing.{Holds, Holds-bounds, Holds-load, Holds-complete, Holds-task}
use ibv.Net.Writes.{load-congr}

count-append : (f : ℕ) (xs ys : List ℕ) → count f (xs ++ ys) ≡ count f xs + count f ys
count-append f [] ys = omega arith
count-append f (x ∷ xs) ys = omega (arith, count-append f xs ys)

ticket_count-append :
    (f : ℕ) (xs ys : List Ticket)
    → ticket_count f (xs ++ ys) ≡ ticket_count f xs + ticket_count f ys
ticket_count-append f [] ys = omega arith
ticket_count-append f (x ∷ xs) ys = omega (arith, ticket_count-append f xs ys)

module _ (Q : Mpsc Entry) where
  -- `waiting` are the messages that are not posted, `posted` those in the send queue. A flag stands
  -- for one message, or for one completion that is not taken.
  pub record IsSound (s : SendBuffer Q.Chan) (mem : Memory) (waiting : List Ticket)
      (posted : List Posted) (completions : List ℕ) : Type 0 where
    pub valid : Inv Q s
    pub waiting_hold : All (Holds Q s mem) waiting
    pub posted_hold : All (Holds Q s mem) (tickets_of posted)
    pub once :
        (f : ℕ)
        → ticket_count f waiting + ticket_count f (tickets_of posted) + count f completions ≤ 1

  module _ {s : SendBuffer Q.Chan} {mem : Memory} {waiting : List Ticket} {posted : List Posted}
      {completions : List ℕ} (o : IsSound s mem waiting posted completions) where
    pub IsSound-memory :
        (k : Memory)
        → ((x : ℕ) → s.left ≤ x → x < s.right → k x ≡ mem x)
        → IsSound s k waiting posted completions
    IsSound-memory k e = record {
      valid = o.valid;
      waiting_hold = All-imp _ _ keep waiting o.waiting_hold;
      posted_hold = All-imp _ _ keep (tickets_of posted) o.posted_hold;
      once = o.once;
    }
      where
        keep : (t : Ticket) → Holds Q s mem t → Holds Q s k t
        keep t h =
            let bounds = Holds-bounds Q h o.valid in
            Holds-load Q h k (
              load-congr k mem t.local_buf.addr t.local_buf.length
                (λ x low high. e x (omega arith) (omega arith)))

    pub IsSound-task : IsSound (event Q s task) mem waiting posted completions
    IsSound-task = record {
      valid = event-Inv Q task o.valid;
      waiting_hold = All-imp _ _ (λ t. Holds-task Q o.valid) waiting o.waiting_hold;
      posted_hold = All-imp _ _ (λ t. Holds-task Q o.valid) (tickets_of posted) o.posted_hold;
      once = o.once;
    }

    other_flags :
        (f : ℕ) (ts : List Ticket)
        → ticket_count f ts ≡ 0
        → All (Holds Q s mem) ts
        → All (Holds Q (event Q s (complete f)) mem) ts
    other_flags f [] z h = tt
    other_flags f (t ∷ ts) z h =
        (Holds-complete Q f (λ q. ground arith) h.0, other_flags f ts (ground arith) h.1)

    pub IsSound-complete :
        (f : ℕ) (fs : List ℕ)
        → completions ≡ f ∷ fs
        → IsSound (event Q s (complete f)) mem waiting posted fs
    IsSound-complete f fs e = record {
      valid = event-Inv Q (complete f) o.valid;
      waiting_hold = other_flags f waiting (ground (arith, o.once f)) o.waiting_hold;
      posted_hold = other_flags f (tickets_of posted) (ground (arith, o.once f)) o.posted_hold;
      once = λ g. ground (arith, o.once g);
    }

    -- The newest write is transferred.
    pub IsSound-transfer :
        (p : Posted) (ps : List Posted)
        → posted ≡ p ∷ ps
        → IsSound s mem waiting ps (completions ++ p.ticket.flag ∷ [])
    IsSound-transfer p ps e = record {
      valid = o.valid;
      waiting_hold = o.waiting_hold;
      posted_hold = (rw e at o.posted_hold).1;
      once = λ g. ground (arith, o.once g, count-append g completions (p.ticket.flag ∷ []));
    }

    pub IsSound-post :
        (xs ys : List Ticket) (t : Ticket) (p : Posted)
        → waiting ≡ xs ++ t ∷ ys
        → p.ticket ≡ t
        → IsSound s mem (xs ++ ys) (posted ++ p ∷ []) completions
    IsSound-post xs ys t p e pt = record {
      valid = o.valid;
      waiting_hold = (All-remove (Holds Q s mem) xs ys t (rw e at o.waiting_hold)).1;
      posted_hold = rw map-append (
          All-append (Holds Q s mem) (tickets_of posted) (p.ticket ∷ []) o.posted_hold
            (rw pt ((All-remove (Holds Q s mem) xs ys t (rw e at o.waiting_hold)).0), tt));
      once = λ g. rw map-append (
          ground (
            arith,
            o.once g,
            pt,
            ap (ticket_count g) e,
            ticket_count-append g xs (t ∷ ys),
            ticket_count-append g xs ys,
            ticket_count-append g (tickets_of posted) (p.ticket ∷ []),
          ));
    }

    pub IsSound-reserve :
        (u : SendBuffer Q.Chan) (k : Memory) (t : Ticket)
        → Inv Q u
        → ((t : Ticket) → Holds Q s mem t → Holds Q u k t)
        → Holds Q u k t
        → ticket_count t.flag waiting
            + ticket_count t.flag (tickets_of posted)
            + count t.flag completions
          ≡ 0
        → IsSound u k (waiting ++ t ∷ []) posted completions
    IsSound-reserve u k t v old new fresh = record {
      valid = v;
      waiting_hold =
          All-append (Holds Q u k) waiting (t ∷ []) (All-imp _ _ old waiting o.waiting_hold)
            (new, tt);
      posted_hold = All-imp _ _ old (tickets_of posted) o.posted_hold;
      once = λ g. elim (ℕ_discrete g t.flag) [
        | yes same ↦ ground (
          arith,
          fresh,
          ap
              (λ f.
                ticket_count f waiting + ticket_count f (tickets_of posted) + count f completions)
              same,
          ticket_count-append g waiting (t ∷ []),
        )
        | no other ↦ ground (arith, o.once g, ticket_count-append g waiting (t ∷ []))
      ];
    }
