-- ===== src/Mr/SendBufs/Events.antt =====
-- The release task's steps and the daemon's completions, as changes of a `SendBuffer`
-- (src/types/mr.rs, lines 216 to 229).
use mathlib.Core.Path.{subst}
use ibv.Prelude.{
  ℕ, ◌+◌, ◌^◌, ◌≤◌, ◌<◌, ◌≡◌, refl, sym, ap, true, false, inl, inr, none, some, List, [], ◌∷◌,
  arith, Bool-cases, Option-cases, ◌⊎◌,
}
use ibv.Channel.{Mpsc}
use ibv.Channel.Cases.{try_recv-cases}
use ibv.Ring.{advance, Layout}
use ibv.Ring.Moves.{Layout-pop, Layout-bounds, Layout-first}
use ibv.Mr.SendBufs.{
  SendBuffer, Entry, Event, complete, task, release_done, task_step, event, events, entries, sizes,
  Inv,
}

module _ (Q : Mpsc Entry) where
  -- What the events leave alone.
  pub record SameRing (a b : SendBuffer Q.Chan) : Type 0 where
    pub index : b.index ≡ a.index
    pub left : b.left ≡ a.left
    pub right : b.right ≡ a.right
    pub mr : b.mr ≡ a.mr

  -- The three things that a step of the task may do: nothing, take an entry, or release the buffer
  -- of the entry that it holds, whose flag is clear.
  abbrev pub Moves : SendBuffer Q.Chan → SendBuffer Q.Chan → Type 0
  Moves s t =
      (t ≡ s)
      ⊎ ((s.holding ≡ none)
          × (entries Q t ≡ entries Q s)
          × (t.done ≡ s.done)
          × (t.flags ≡ s.flags)
          × SameRing s t)
      ⊎ ((flag : ℕ) × (length : ℕ) × (s.flags flag ≡ false)
          × (entries Q s ≡ (flag, length) ∷ entries Q t)
          × (t ≡ release_done Q s length))

  module _ (s : SendBuffer Q.Chan) where
    pub task_step-idle : s.holding ≡ none → Q.try_recv s.to_release ≡ none → task_step Q s ≡ s
    unfolding task_step
    task_step-idle idle e = ground arith

    pub task_step-take :
        (a : Entry) (d : Q.Chan)
        → s.holding ≡ none
        → Q.try_recv s.to_release ≡ some (a, d)
        → task_step Q s ≡ record s { to_release = d; holding = some a }
    unfolding task_step
    task_step-take a d idle e = ground arith

    pub task_step-wait :
        (flag length : ℕ)
        → s.holding ≡ some (flag, length)
        → s.flags flag ≡ true
        → task_step Q s ≡ s
    unfolding task_step
    task_step-wait flag length h used = ground arith

    pub task_step-release :
        (flag length : ℕ)
        → s.holding ≡ some (flag, length)
        → s.flags flag ≡ false
        → task_step Q s ≡ release_done Q s length
    unfolding task_step
    task_step-release flag length h free = ground arith

    entries-release : (length : ℕ) → entries Q (release_done Q s length) ≡ Q.queued s.to_release
    unfolding release_done
    entries-release length = ground arith

    pub task_step-Moves : Moves s (task_step Q s)
    task_step-Moves = elim (Option-cases s.holding) [
      | inl idle ↦ elim (try_recv-cases Q s.to_release) [
        | inl (_, e) ↦ inl (task_step-idle idle e)
        | inr (a, d, e, q) ↦ subst (Moves s) (sym (task_step-take a d idle e)) (
            inr (
              inl (
                idle,
                rw idle (sym q),
                refl,
                refl,
                record { index = refl; left = refl; right = refl; mr = refl },
              )))
      ]
      | inr ((flag, length), h) ↦ elim (Bool-cases (s.flags flag)) [
        | inl used ↦ inl (task_step-wait flag length h used)
        | inr free ↦ inr (
            inr (
              flag,
              length,
              free,
              rw (task_step-release flag length h free, entries-release length, h) refl,
              task_step-release flag length h free,
            ))
      ]
    ]

  pub release_done-advance :
      (s : SendBuffer Q.Chan) (length : ℕ)
      → s.done + length < 2 ^ 64
      → s.left + length < 2 ^ 64
      → (release_done Q s length).done ≡ advance s.left s.right s.done length
  unfolding release_done
  release_done-advance s length no_wrap low = ground arith

  pub release_done-SameRing :
      (s : SendBuffer Q.Chan) (length : ℕ) → SameRing s (release_done Q s length)
  unfolding release_done
  release_done-SameRing s length = ground arith

  SameRing-refl : (s : SendBuffer Q.Chan) → SameRing s s
  SameRing-refl s = record { index = refl; left = refl; right = refl; mr = refl }

  pub event-SameRing : (s : SendBuffer Q.Chan) (e : Event) → SameRing s (event Q s e)
  unfolding event
  event-SameRing s (complete flag) = record { index = refl; left = refl; right = refl; mr = refl }
  event-SameRing s task = elim (task_step-Moves s) [
    | inl e ↦ rw e (SameRing-refl s)
    | inr (inl (_, _, _, _, same)) ↦ same
    | inr (inr (flag, length, _, _, e)) ↦ rw e (release_done-SameRing s length)
  ]

  pub events-SameRing : (s : SendBuffer Q.Chan) (es : List Event) → SameRing s (events Q s es)
  events-SameRing s [] = SameRing-refl s
  events-SameRing s (e ∷ es) = ground (arith, event-SameRing s e, events-SameRing (event Q s e) es)

  moved-Inv :
      {s t : SendBuffer Q.Chan}
      → Inv Q s
      → SameRing s t
      → Layout s.left s.right t.done s.index (sizes Q (entries Q t))
      → Inv Q t
  moved-Inv v same l = record {
    layout = rw (same.index, same.left, same.right) l;
    headroom = omega arith;
    short = omega arith;
  }

  -- The release of the oldest buffer moves `done` as the ring does.
  release-Layout :
      {s t : SendBuffer Q.Chan} (flag length : ℕ)
      → Inv Q s
      → entries Q s ≡ (flag, length) ∷ entries Q t
      → t ≡ release_done Q s length
      → Layout s.left s.right t.done s.index (sizes Q (entries Q t))
  release-Layout {s} {t} flag length v es e =
      rw
        (
          ap (λ x. x.done) e,
          release_done-advance s length (omega (arith, bounds, first))
              (omega (arith, bounds, first)),
        )
        (Layout-pop now)
    where
      now : Layout s.left s.right s.done s.index (length ∷ sizes Q (entries Q t))
      now = rw es at v.layout

      bounds : (s.left ≤ s.done) × (s.done ≤ s.right) × (s.left ≤ s.index) × (s.index ≤ s.right)
      bounds = Layout-bounds now

      first : s.left + length ≤ s.right
      first = Layout-first now

  -- A completion and a step of the release task keep the invariant of the send buffer.
  pub event-Inv : {s : SendBuffer Q.Chan} (e : Event) → Inv Q s → Inv Q (event Q s e)
  unfolding event
  event-Inv (complete flag) v = record { layout = v.layout; headroom = v.headroom; short = v.short }
  event-Inv {s} task v = elim (task_step-Moves s) [
    | inl e ↦ rw e v
    | inr (inl (_, es, kept, _, same)) ↦ moved-Inv v same (rw (kept, es) v.layout)
    | inr (inr (flag, length, _, es, e)) ↦
        moved-Inv v (event-SameRing s task) (release-Layout flag length v es e)
  ]

  pub events-Inv : {s : SendBuffer Q.Chan} (es : List Event) → Inv Q s → Inv Q (events Q s es)
  events-Inv [] v = v
  events-Inv {s} (e ∷ es) v = events-Inv {s = event Q s e} es (event-Inv e v)
