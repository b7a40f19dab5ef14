-- ===== src/Channel.antt =====
-- The bounded channel `tokio::sync::mpsc`, which the program uses and does not implement, as an
-- interface: a queue of at most `bound` values, first in first out. Both ends stay open, as the
-- program never closes one. `Channel.Bounded` is a value of it.
pub mod Bounded
pub mod Cases
use ibv.Prelude.{ℕ, ◌≤◌, ◌<◌, ◌≡◌, Option, none, some, List, [], ◌∷◌, ◌++◌, length}

pub record Mpsc (A : Type 0) : Type 1 where
  pub Chan : Type 0
  pub channel : ℕ → Chan
  pub queued : Chan → List A
  pub bound : Chan → ℕ
  -- `send`, with `none` where it waits for room
  pub try_send : Chan → A → Option Chan
  -- `recv` and `try_recv`, with `none` where the queue is empty
  pub try_recv : Chan → Option (A × Chan)
  pub queued-channel : (n : ℕ) → queued (channel n) ≡ []
  pub bound-channel : (n : ℕ) → bound (channel n) ≡ n
  pub try_send-full : (c : Chan) (a : A) → bound c ≤ length (queued c) → try_send c a ≡ none
  pub try_send-room :
      (c : Chan) (a : A)
      → length (queued c) < bound c
      → (d : Chan) × (try_send c a ≡ some d) × (queued d ≡ queued c ++ a ∷ []) × (bound d ≡ bound c)
  pub try_recv-nil : (c : Chan) → queued c ≡ [] → try_recv c ≡ none
  pub try_recv-cons :
      (c : Chan) (a : A) (q : List A)
      → queued c ≡ a ∷ q
      → (d : Chan) × (try_recv c ≡ some (a, d)) × (queued d ≡ q) × (bound d ≡ bound c)
