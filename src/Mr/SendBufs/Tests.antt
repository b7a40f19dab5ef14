-- ===== src/Mr/SendBufs/Tests.antt =====
-- The send buffer at concrete states of a buffer of 100 bytes.
use mathlib.Core.List.{Mem, mem-cons_self}
use ibv.Prelude.{
  ℕ, ◌≡◌, ◌≢◌, refl, inl, Bool, true, false, some, none, List, [], ◌∷◌, ◌++◌, arith, ◌==◌,
  if◌then◌else◌,
}
use ibv.Channel.Bounded.{Bounded, bounded, push}
use ibv.Ring.{flat}
use ibv.Mr.SendBufs.{
  SendBuffer, Entry, Event, complete, task, event, task_step, release_done, alloc, take_buffer,
  entries, Inv,
}
use ibv.Mr.SendBufs.Events.{event-Inv}
use ibv.Mr.SendBufs.InUse.{event-in_use}
use ibv.Mr.SendBufs.Waiting.{quiet}
use ibv.Mr.SendBufs.Alloc.{Safe, alloc-Safe}
use ibv.Mr.SendBufs.Progress.{after_rounds, alloc-finishes}

abbrev Queue : Type 0
Queue = Bounded Entry

-- Two buffers in use, of 40 and 50 bytes; the release task waits for the first.
abbrev busy_at : ℕ → ℕ → (ℕ → Bool) → SendBuffer Queue
busy_at done index flags = record {
  mr = record { inner = 7; addr = 1000; length = 100; lkey = 1; rkey = 2 };
  done = done;
  index = index;
  left = 1000;
  right = 1100;
  to_release = record { values = (2, 50) ∷ []; limit = 8 };
  holding = some (1, 40);
  flags = flags;
}

abbrev all_used : ℕ → Bool
all_used p = true

abbrev two_used : SendBuffer Queue
two_used = busy_at 1000 1090 all_used

two_used-Inv : Inv (bounded Entry) two_used
two_used-Inv = record {
  layout = flat (omega arith) refl (omega arith);
  headroom = omega arith;
  short = omega arith;
}

event-Inv_example : Inv (bounded Entry) (event (bounded Entry) two_used (complete 1))
event-Inv_example = event-Inv (bounded Entry) {s = two_used} (complete 1) two_used-Inv

one_ne_two : complete 2 ≢ complete 1
one_ne_two e = cc

event-in_use_example :
    Mem (1, 40) (entries (bounded Entry) (event (bounded Entry) two_used (complete 2)))
    × ((event (bounded Entry) two_used (complete 2)).flags 1 ≡ true)
unfolding event
event-in_use_example =
    event-in_use (bounded Entry) two_used (complete 2) 1 40 refl one_ne_two mem-cons_self

-- The first write completes and the task releases its buffer while `alloc` sleeps; then 30 bytes go
-- to the start of the ring.
abbrev rounds : List (List Event)
rounds = (complete 1 ∷ task ∷ []) ∷ []

abbrev granted_buffer : SendBuffer Queue
granted_buffer =
    record (busy_at 1040 1030 (λ p. if p == 3 then true else if p == 1 then false else true)) {
      to_release = record { values = (2, 50) ∷ (3, 30) ∷ []; limit = 8 };
      holding = none;
    }

granted_run :
    alloc (bounded Entry) (quiet (rounds ++ [] ∷ [])) two_used 3 30
    ≡ some (record { addr = 1000; length = 30; lkey = 1 }, 3, granted_buffer)
unfolding alloc event task_step release_done take_buffer push
granted_run = refl

alloc-Safe_example :
    Safe
      (bounded Entry)
      two_used
      3
      30
      (record { addr = 1000; length = 30; lkey = 1 }, 3, granted_buffer)
alloc-Safe_example =
    alloc-Safe (bounded Entry) two_used 3 30 two_used-Inv (omega arith) (rounds ++ [] ∷ [])
      granted_run

released_done : (after_rounds (bounded Entry) two_used rounds).done ≡ 1040
unfolding event task_step release_done
released_done = refl

alloc-finishes_example : alloc (bounded Entry) (quiet (rounds ++ [] ∷ [])) two_used 3 30 ≢ none
alloc-finishes_example =
    alloc-finishes (bounded Entry) two_used 3 30 rounds two_used-Inv (omega arith) (omega arith)
      (inl (omega (arith, released_done)))
