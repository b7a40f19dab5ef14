-- ===== src/Mr/SendBufs/Waiting.antt =====
-- The waiting loops of `SendBuffer::alloc` (src/types/mr.rs, lines 247 to 264).
use mathlib.Core.Path.{subst}
use ibv.Prelude.{
  ℕ, ◌≤◌, ◌<◌, ◌≡◌, refl, Bool, true, false, ◌&&◌, ◌||◌, ◌⊎◌, Option, some, List, [], ◌∷◌, ltb, leb,
  if◌then◌else◌, add64, arith,
}
use ibv.Channel.{Mpsc}
use ibv.Mr.SendBufs.{SendBuffer, Entry, Event, Turn, events, wait_wrap, wait_here, Inv}
use ibv.Mr.SendBufs.Events.{SameRing, events-SameRing, events-Inv}

-- Rounds in which nothing runs between the two loads of a test.
abbrev pub quiet : List (List Event) → List Turn
quiet [] = []
quiet (s ∷ ss) = record { between = []; asleep = s } ∷ quiet ss

module _ (Q : Mpsc Entry) where
  abbrev pub WrapOpen : SendBuffer Q.Chan → ℕ → Type 0
  WrapOpen s length = (add64 s.left length < s.done) × (s.done ≤ s.index)

  abbrev pub HereOpen : SendBuffer Q.Chan → ℕ → Type 0
  HereOpen s length = (add64 s.index length < s.done) ⊎ (s.done ≤ s.index)

  -- The loop ends in a state that events have led to, with the invariant and the ring as before.
  abbrev pub Ends : (SendBuffer Q.Chan → Type 0) → SendBuffer Q.Chan → SendBuffer Q.Chan → Type 0
  Ends P s t = Inv Q t × SameRing Q s t × P t

  module _ (length : ℕ) where
    wrap_test :
        (s : SendBuffer Q.Chan)
        → (leb s.done (add64 s.left length) || ltb s.index s.done) ≡ false
        → WrapOpen s length
    wrap_test s h = ground arith

    here_test :
        (s : SendBuffer Q.Chan)
        → (leb s.done (add64 s.index length) && ltb s.index s.done) ≡ false
        → HereOpen s length
    here_test s h = ground arith

    Ends-round :
        (P : SendBuffer Q.Chan → Type 0) (b : Bool) (s t : SendBuffer Q.Chan) (es : List Event)
        (rest : Option (SendBuffer Q.Chan))
        → Inv Q s
        → (b ≡ false → P s)
        → (rest ≡ some t → Ends P (events Q s es) t)
        → (if b then rest else some s) ≡ some t
        → Ends P s t
    Ends-round P true s t es rest v now later h =
        let (w, same, p) = later h in (w, ground (arith, events-SameRing Q s es), p)
    Ends-round P false s t es rest v now later h =
        let e : s ≡ t = cc in
        subst (Ends P s) e
          (v, record { index = refl; left = refl; right = refl; mr = refl }, now refl)

    pub wait_wrap-Ends :
        (ss : List (List Event)) (s : SendBuffer Q.Chan) {t : SendBuffer Q.Chan}
        → Inv Q s
        → wait_wrap Q (quiet ss) s length ≡ some t
        → Ends (λ n. WrapOpen n length) s t
    unfolding wait_wrap
    wait_wrap-Ends [] s v h = cc
    wait_wrap-Ends (es ∷ ss) s {t} v h =
        Ends-round (λ n. WrapOpen n length) _ s t es _ v (wrap_test s)
          (wait_wrap-Ends ss (events Q s es) (events-Inv Q es v)) h

    pub wait_here-Ends :
        (ss : List (List Event)) (s : SendBuffer Q.Chan) {t : SendBuffer Q.Chan}
        → Inv Q s
        → wait_here Q (quiet ss) s length ≡ some t
        → Ends (λ n. HereOpen n length) s t
    unfolding wait_here
    wait_here-Ends [] s v h = cc
    wait_here-Ends (es ∷ ss) s {t} v h =
        Ends-round (λ n. HereOpen n length) _ s t es _ v (here_test s)
          (wait_here-Ends ss (events Q s es) (events-Inv Q es v)) h
