-- ===== src/Mr/SendBufs/InUse.antt =====
-- The release task and the flags (src/types/mr.rs, lines 216 to 229).
use mathlib.Core.List.{Mem, mem-cons}
use mathlib.Core.Logic.Or
use ibv.Prelude.{◌≢◌, ℕ, ◌≡◌, sym, ap, ◌∙◌, Bool, true, false, inl, inr, arith}
use ibv.Channel.{Mpsc}
use ibv.Mr.SendBufs.Events.{task_step-Moves}
use mathlib.Core.Logic.{∥∥₁_prop}
use ibv.Mr.SendBufs.{
  SendBuffer, Entry, set_flag, Event, complete, task, release_done, event, entries,
}

pub set_flag-ne :
    (flags : ℕ → Bool) (p : ℕ) (b : Bool) (q : ℕ) → q ≢ p → set_flag flags p b q ≡ flags q
set_flag-ne flags p b q ne = ground arith

true-ne-false : true ≡ false → ⊥
true-ne-false e = cc

module _ (Q : Mpsc Entry) where
  pub release_done-flags :
      (s : SendBuffer Q.Chan) (length : ℕ) → (release_done Q s length).flags ≡ s.flags
  unfolding release_done
  release_done-flags s length = ground arith

  -- If an entry is in use and its flag is set, it is in use with its flag set behind every event
  -- but its own completion.
  pub event-in_use :
      (s : SendBuffer Q.Chan) (e : Event) (flag length : ℕ)
      → s.flags flag ≡ true
      → e ≢ complete flag
      → Mem (flag, length) (entries Q s)
      → Mem (flag, length) (entries Q (event Q s e)) × ((event Q s e).flags flag ≡ true)
  unfolding event
  event-in_use s (complete other) flag length used ne m =
      (m, rw (set_flag-ne s.flags other false flag (λ q. ne (ap complete (sym q)))) used)
  event-in_use s task flag length used ne m = elim (task_step-Moves Q s) [
    | inl e ↦ rw e (m, used)
    | inr (inl (_, es, kept, flags, same)) ↦ (rw es m, rw flags used)
    | inr (inr (other, n, free, es, e)) ↦ (
      Or.elim ∥∥₁_prop (mem-cons.0 (rw es at m))
          (λ q. absurd (true-ne-false (sym used ∙ ap s.flags (ap (λ x. x.0) q) ∙ free)))
          (λ rest. rest),
      rw (ap (λ x. x.flags) e, release_done-flags s n) used,
    )
  ]
