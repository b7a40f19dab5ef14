-- ===== src/Mr/RemoteBufs/Waiting.antt =====
-- The waiting loops of `RemoteBufManager::alloc` (src/types/mr.rs, lines 159 to 176).
use ibv.Prelude.{
  ℕ, ◌≤◌, ◌<◌, ◌≡◌, ◌≢◌, refl, sym, ◌∙◌, Bool, true, false, ◌&&◌, ◌||◌, ◌⊎◌, Option, none, some,
  List, [], ◌∷◌, ◌++◌, ltb, leb, if◌then◌else◌, add64, arith,
}
use ibv.Mr.RemoteBufs.{RemoteBufManager, update, updates, Turn, wait_wrap, wait_here}

-- `update` moves `done` alone.
pub record SameRing (a b : RemoteBufManager) : Type 0 where
  pub index : b.index ≡ a.index
  pub left : b.left ≡ a.left
  pub right : b.right ≡ a.right
  pub mr : b.mr ≡ a.mr

pub update-SameRing : (m : RemoteBufManager) (k : ℕ) → SameRing m (update m k)
unfolding update
update-SameRing m k = ground arith

pub updates-SameRing : (m : RemoteBufManager) (ks : List ℕ) → SameRing m (updates m ks)
updates-SameRing m [] = record { index = refl; left = refl; right = refl; mr = refl }
updates-SameRing m (k ∷ ks) = ground (arith, update-SameRing m k, updates-SameRing (update m k) ks)

updates-append :
    (m : RemoteBufManager) (ks js : List ℕ) → updates m (ks ++ js) ≡ updates (updates m ks) js
updates-append m [] js = refl
updates-append m (k ∷ ks) js = updates-append (update m k) ks js

-- Rounds in which no update comes between the two loads of a test: each is given by the updates
-- that run while the task sleeps.
abbrev pub quiet : List (List ℕ) → List Turn
quiet [] = []
quiet (s ∷ ss) = record { between = []; asleep = s } ∷ quiet ss

-- The state after some rounds.
abbrev pub after_rounds : RemoteBufManager → List (List ℕ) → RemoteBufManager
after_rounds m [] = m
after_rounds m (s ∷ ss) = after_rounds (updates m s) ss

pub after_rounds-SameRing :
    (m : RemoteBufManager) (ss : List (List ℕ)) → SameRing m (after_rounds m ss)
after_rounds-SameRing m [] = record { index = refl; left = refl; right = refl; mr = refl }
after_rounds-SameRing m (s ∷ ss) =
    ground (arith, updates-SameRing m s, after_rounds-SameRing (updates m s) ss)

-- The first loop's test is false, and so is the second's.
abbrev pub WrapOpen : RemoteBufManager → ℕ → Type 0
WrapOpen m length = (add64 m.left length < m.done) × (m.done ≤ m.index)

abbrev pub HereOpen : RemoteBufManager → ℕ → Type 0
HereOpen m length = (add64 m.index length < m.done) ⊎ (m.done ≤ m.index)

-- The loop ended behind the updates `us`, in a state in which its test is false.
abbrev pub Ends : (RemoteBufManager → Type 0) → RemoteBufManager → RemoteBufManager → Type 0
Ends P m m' = (us : List ℕ) × (m' ≡ updates m us) × P m'

module _ (length : ℕ) where
  wrap_test :
      (m : RemoteBufManager)
      → (leb m.done (add64 m.left length) || ltb m.index m.done) ≡ false
      → WrapOpen m length
  wrap_test m h = ground arith

  here_test :
      (m : RemoteBufManager)
      → (leb m.done (add64 m.index length) && ltb m.index m.done) ≡ false
      → HereOpen m length
  here_test m h = ground arith

  -- one round: the loop ends now, or goes on behind the updates `ks`
  Ends-round :
      (P : RemoteBufManager → Type 0) (b : Bool) (m m' : RemoteBufManager) (ks : List ℕ)
      (rest : Option RemoteBufManager)
      → (b ≡ false → P m)
      → (rest ≡ some m' → Ends P (updates m ks) m')
      → (if b then rest else some m) ≡ some m'
      → Ends P m m'
  Ends-round P true m m' ks rest now later h =
      let (us, e, p) = later h in (ks ++ us, e ∙ sym (updates-append m ks us), p)
  Ends-round P false m m' ks rest now later h =
      let e : m ≡ m' = cc in ([], sym e, rw (← e) (now refl))

  pub wait_wrap-Ends :
      (ss : List (List ℕ)) (m : RemoteBufManager) {m' : RemoteBufManager}
      → wait_wrap (quiet ss) m length ≡ some m'
      → Ends (λ n. WrapOpen n length) m m'
  unfolding wait_wrap
  wait_wrap-Ends [] m h = cc
  wait_wrap-Ends (s ∷ ss) m {m'} h =
      Ends-round (λ n. WrapOpen n length) _ m m' s _ (wrap_test m) (wait_wrap-Ends ss (updates m s))
        h

  pub wait_here-Ends :
      (ss : List (List ℕ)) (m : RemoteBufManager) {m' : RemoteBufManager}
      → wait_here (quiet ss) m length ≡ some m'
      → Ends (λ n. HereOpen n length) m m'
  unfolding wait_here
  wait_here-Ends [] m h = cc
  wait_here-Ends (s ∷ ss) m {m'} h =
      Ends-round (λ n. HereOpen n length) _ m m' s _ (here_test m) (wait_here-Ends ss (updates m s))
        h

  -- While a test holds in every state, the loop goes on; it ends at the latest in the round in
  -- which its test is false.
  pub wait_wrap-returns :
      (ss : List (List ℕ)) (m : RemoteBufManager)
      → WrapOpen (after_rounds m ss) length
      → wait_wrap (quiet (ss ++ [] ∷ [])) m length ≢ none
  unfolding wait_wrap
  wait_wrap-returns [] m h = ground arith
  wait_wrap-returns (s ∷ ss) m h = ground (arith, wait_wrap-returns ss (updates m s) h)

  pub wait_here-returns :
      (ss : List (List ℕ)) (m : RemoteBufManager)
      → HereOpen (after_rounds m ss) length
      → wait_here (quiet (ss ++ [] ∷ [])) m length ≢ none
  unfolding wait_here
  wait_here-returns [] m h = ground arith
  wait_here-returns (s ∷ ss) m h = ground (arith, wait_here-returns ss (updates m s) h)
