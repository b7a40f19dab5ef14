-- ===== src/Channel/Cases.antt =====
-- What a receive or a send can do.
use ibv.Prelude.{◌≡◌, refl, ◌⊎◌, inl, inr, none, some, List, [], ◌∷◌, ◌++◌, length, arith, dec_lt}
use ibv.Channel.{Mpsc}

module _ {A : Type 0} (Q : Mpsc A) where
  -- A receive finds the queue empty, or takes its first value.
  pub try_recv-cases :
      (c : Q.Chan)
      → ((Q.queued c ≡ []) × (Q.try_recv c ≡ none))
        ⊎ ((a : A) × (d : Q.Chan) × (Q.try_recv c ≡ some (a, d)) × (Q.queued c ≡ a ∷ Q.queued d))
  try_recv-cases c = split (Q.queued c) refl
    where
      split :
          (l : List A)
          → Q.queued c ≡ l
          → ((Q.queued c ≡ []) × (Q.try_recv c ≡ none))
            ⊎ ((a : A) × (d : Q.Chan) × (Q.try_recv c ≡ some (a, d))
                × (Q.queued c ≡ a ∷ Q.queued d))
      split [] e = inl (e, Q.try_recv-nil c e)
      split (a ∷ q) e =
          let (d, got, rest, _) = Q.try_recv-cons c a q e in inr (a, d, got, rw (rest) e)

  -- A send finds the queue full, or adds its value behind the others.
  pub try_send-cases :
      (c : Q.Chan) (a : A)
      → (Q.try_send c a ≡ none)
        ⊎ ((d : Q.Chan) × (Q.try_send c a ≡ some d) × (Q.queued d ≡ Q.queued c ++ a ∷ []))
  try_send-cases c a = elim (dec_lt (length (Q.queued c)) (Q.bound c)) [
    | yes room ↦ let (d, sent, e, _) = Q.try_send-room c a room in inr (d, sent, e)
    | no full ↦ inl (Q.try_send-full c a (omega arith))
  ]
