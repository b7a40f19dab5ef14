-- ===== src/Channel/Bounded.antt =====
-- A channel that holds its values in a list.
use ibv.Prelude.{
  ℕ, ◌≤◌, ◌<◌, ◌≡◌, refl, Option, none, some, List, [], ◌∷◌, ◌++◌, length, ltb, if◌then◌else◌,
  arith,
}
use ibv.Channel.{Mpsc}

pub record Bounded (A : Type 0) : Type 0 where
  pub values : List A
  pub limit : ℕ

module _ {A : Type 0} where
  unfoldable pub push : Bounded A → A → Option (Bounded A)
  push c a =
      if ltb (length c.values) c.limit
      then some (record c { values = c.values ++ a ∷ [] })
      else none

  take_first : List A → ℕ → Option (A × Bounded A)
  take_first [] n = none
  take_first (a ∷ q) n = some (a, record { values = q; limit = n })

  unfoldable pub pop : Bounded A → Option (A × Bounded A)
  unfolding take_first
  pop c = take_first c.values c.limit

  pub push-full : (c : Bounded A) (a : A) → c.limit ≤ length c.values → push c a ≡ none
  unfolding push
  push-full c a h = ground arith

  pub push-room :
      (c : Bounded A) (a : A)
      → length c.values < c.limit
      → (d : Bounded A) × (push c a ≡ some d)
        × (d.values ≡ c.values ++ a ∷ [])
        × (d.limit ≡ c.limit)
  unfolding push
  push-room c a h = (record c { values = c.values ++ a ∷ [] }, ground arith, refl, refl)

  pub pop-nil : (c : Bounded A) → c.values ≡ [] → pop c ≡ none
  unfolding pop
  pop-nil c e = rw e

  pub pop-cons :
      (c : Bounded A) (a : A) (q : List A)
      → c.values ≡ a ∷ q
      → (d : Bounded A) × (pop c ≡ some (a, d)) × (d.values ≡ q) × (d.limit ≡ c.limit)
  unfolding pop
  pop-cons c a q e = (record { values = q; limit = c.limit }, rw e, refl, refl)

abbrev pub bounded : (A : Type 0) → Mpsc A
bounded A = record {
  Chan = Bounded A;
  channel = λ n. record { values = []; limit = n };
  queued = λ c. c.values;
  bound = λ c. c.limit;
  try_send = push;
  try_recv = pop;
  queued-channel = λ n. refl;
  bound-channel = λ n. refl;
  try_send-full = push-full;
  try_send-room = push-room;
  try_recv-nil = pop-nil;
  try_recv-cons = pop-cons;
}
