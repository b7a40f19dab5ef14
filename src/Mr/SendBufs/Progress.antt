-- ===== src/Mr/SendBufs/Progress.antt =====
-- When `SendBuffer::alloc` returns (src/types/mr.rs, lines 242 to 271).
use ibv.Prelude.{
  ℕ, suc, ◌≤◌, ◌<◌, ◌≡◌, ◌≢◌, refl, inl, inr, none, some, List, [], ◌∷◌, ◌++◌, ltb, add64, u32_mod,
  arith, length, Bool-cases, Option-cases, ltb→lt, not-ltb→le,
}
use ibv.Channel.{Mpsc}
use ibv.Ring.{HasRoom}
use ibv.Ring.Moves.{Layout-bounds}
use ibv.Mr.SendBufs.{
  SendBuffer, Entry, Event, complete, task, event, events, wait_wrap, wait_here, take_buffer, alloc,
  Inv, release_done, task_step, wrap_blocked, here_blocked,
}
use ibv.Mr.SendBufs.Events.{
  SameRing, events-SameRing, task_step-idle, task_step-take, task_step-wait, task_step-release,
}
use ibv.Mr.SendBufs.Waiting.{quiet, WrapOpen, HereOpen}

module _ (Q : Mpsc Entry) where
  -- The state behind the events of some rounds.
  abbrev pub after_rounds : SendBuffer Q.Chan → List (List Event) → SendBuffer Q.Chan
  after_rounds s [] = s
  after_rounds s (es ∷ ss) = after_rounds (events Q s es) ss

  after_rounds-SameRing :
      (s : SendBuffer Q.Chan) (ss : List (List Event)) → SameRing Q s (after_rounds s ss)
  after_rounds-SameRing s [] = record { index = refl; left = refl; right = refl; mr = refl }
  after_rounds-SameRing s (es ∷ ss) =
      ground (arith, events-SameRing Q s es, after_rounds-SameRing (events Q s es) ss)

  -- The queue to the release task can take one more entry.
  abbrev pub QueueRoom : SendBuffer Q.Chan → Type 0
  QueueRoom s = length (Q.queued s.to_release) < Q.bound s.to_release

  release_done-QueueRoom :
      (s : SendBuffer Q.Chan) (n : ℕ) → QueueRoom s → QueueRoom (release_done Q s n)
  unfolding release_done
  release_done-QueueRoom s n room = ground arith

  idle-QueueRoom :
      (s : SendBuffer Q.Chan) (q : List Entry)
      → Q.queued s.to_release ≡ q
      → s.holding ≡ none
      → QueueRoom s
      → QueueRoom (task_step Q s)
  idle-QueueRoom s [] e idle room =
      rw (task_step-idle Q s idle (Q.try_recv-nil s.to_release e)) room
  idle-QueueRoom s (a ∷ q) e idle room =
      let (d, got, rest, kept) = Q.try_recv-cons s.to_release a q e in
      rw (task_step-take Q s a d idle got, rest, kept) (omega (arith, shorter))
    where
      shorter : suc (length q) < Q.bound s.to_release
      shorter = rw e at room

  event-QueueRoom : (s : SendBuffer Q.Chan) (e : Event) → QueueRoom s → QueueRoom (event Q s e)
  unfolding event
  event-QueueRoom s (complete flag) room = room
  event-QueueRoom s task room = elim (Option-cases s.holding) [
    | inl idle ↦ idle-QueueRoom s (Q.queued s.to_release) refl idle room
    | inr ((flag, n), held) ↦ elim (Bool-cases (s.flags flag)) [
      | inl used ↦ rw (task_step-wait Q s flag n held used) room
      | inr free ↦ rw (task_step-release Q s flag n held free) (release_done-QueueRoom s n room)
    ]
  ]

  events-QueueRoom :
      (s : SendBuffer Q.Chan) (es : List Event) → QueueRoom s → QueueRoom (events Q s es)
  events-QueueRoom s [] room = room
  events-QueueRoom s (e ∷ es) room = events-QueueRoom (event Q s e) es (event-QueueRoom s e room)

  module _ (n : ℕ) where
    wait_wrap-some :
        (ss : List (List Event)) (s : SendBuffer Q.Chan)
        → WrapOpen Q (after_rounds s ss) n
        → QueueRoom s
        → (t : SendBuffer Q.Chan) × (wait_wrap Q (quiet (ss ++ [] ∷ [])) s n ≡ some t) × QueueRoom t
    unfolding wait_wrap
    wait_wrap-some [] s open_now room = (s, ground arith, room)
    wait_wrap-some (es ∷ ss) s open_now room = elim (Bool-cases (wrap_blocked Q s n []).0) [
      | inl blocked ↦
          let (t, h, rest) =
            wait_wrap-some ss (events Q s es) open_now (events-QueueRoom s es room) in
          (t, rw (blocked) h, rest)
      | inr free ↦ (s, rw (free) refl, room)
    ]

    wait_here-some :
        (ss : List (List Event)) (s : SendBuffer Q.Chan)
        → HereOpen Q (after_rounds s ss) n
        → QueueRoom s
        → (t : SendBuffer Q.Chan) × (wait_here Q (quiet (ss ++ [] ∷ [])) s n ≡ some t) × QueueRoom t
    unfolding wait_here
    wait_here-some [] s open_now room = (s, ground arith, room)
    wait_here-some (es ∷ ss) s open_now room = elim (Bool-cases (here_blocked Q s n []).0) [
      | inl blocked ↦
          let (t, h, rest) =
            wait_here-some ss (events Q s es) open_now (events-QueueRoom s es room) in
          (t, rw (blocked) h, rest)
      | inr free ↦ (s, rw (free) refl, room)
    ]

  take_buffer-returns :
      (t : SendBuffer Q.Chan) (flag n : ℕ) → QueueRoom t → take_buffer Q t flag n ≢ none
  unfolding take_buffer
  take_buffer-returns t flag n room =
      let (d, sent, _, _) = Q.try_send-room t.to_release (flag, n) room in ground arith

  -- If the invariant holds, the length is below 2 ^ 32, the queue to the release task has room,
  -- nothing runs between the two loads of a test, and the events of the rounds `ss` make room in
  -- the ring, `SendBuffer::alloc` returns in the round behind them at the latest.
  pub alloc-finishes :
      (s : SendBuffer Q.Chan) (flag n : ℕ) (ss : List (List Event))
      → Inv Q s
      → n < u32_mod
      → QueueRoom s
      → HasRoom s.left s.right (after_rounds s ss).done s.index n
      → alloc Q (quiet (ss ++ [] ∷ [])) s flag n ≢ none
  unfolding alloc
  alloc-finishes s flag n ss v short queue_room room =
      elim (Bool-cases (ltb s.right (add64 s.index n))) [
        | inl over ↦
            let (t, h, more) = wait_wrap-some n ss s (wrap_open (ltb→lt _ _ over)) queue_room in
            rw (over, h) (take_buffer-returns (record t { index = t.left }) flag n more)
        | inr fits ↦
            let (t, h, more) = wait_here-some n ss s (here_open (not-ltb→le _ _ fits)) queue_room in
            rw (fits, h) (take_buffer-returns t flag n more)
      ]
    where
      same : SameRing Q s (after_rounds s ss)
      same = after_rounds-SameRing s ss

      bounds : (s.left ≤ s.done) × (s.done ≤ s.right) × (s.left ≤ s.index) × (s.index ≤ s.right)
      bounds = Layout-bounds v.layout

      wrap_open : s.right < add64 s.index n → WrapOpen Q (after_rounds s ss) n
      wrap_open over = ground (arith, same, bounds, room)

      here_open : add64 s.index n ≤ s.right → HereOpen Q (after_rounds s ss) n
      here_open fits = ground (arith, same, bounds, room)
