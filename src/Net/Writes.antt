-- ===== src/Net/Writes.antt =====
-- The writes that a card has still to make, and the memory behind them.
use ibv.Prelude.{
  ℕ, zero, suc, ◌+◌, ◌≤◌, ◌<◌, ◌≡◌, refl, ◌∙◌, List, [], ◌∷◌, ◌++◌, length, arith, All, map,
}
use ibv.Memory.{Memory, poke, load, store, load-store_apart}
use ibv.Ring.{Piece, Apart}

-- an address and the bytes that go there
abbrev pub Write : Type 0
Write = ℕ × List ℕ

abbrev pub write_piece : Write → Piece
write_piece w = record { start = w.0; size = length w.1 }

abbrev pub apply : List Write → Memory → Memory
apply [] mem = mem
apply (w ∷ ws) mem = apply ws (store mem w.0 w.1)

pub apply-append :
    (ws : List Write) (w : Write) (mem : Memory)
    → apply (ws ++ w ∷ []) mem ≡ store (apply ws mem) w.0 w.1
apply-append [] w mem = refl
apply-append (v ∷ ws) w mem = apply-append ws w (store mem v.0 v.1)

-- A byte behind a store rests on the byte before it.
pub store-congr :
    (m k : Memory) (a : ℕ) (bs : List ℕ) (x : ℕ) → m x ≡ k x → store m a bs x ≡ store k a bs x
unfolding store
store-congr m k a [] x e = e
store-congr m k a (b ∷ bs) x e = store-congr (poke m a b) (poke k a b) (a + 1) bs x (ground arith)

pub apply-congr : (ws : List Write) (m k : Memory) (x : ℕ) → m x ≡ k x → apply ws m x ≡ apply ws k x
apply-congr [] m k x e = e
apply-congr (w ∷ ws) m k x e =
    apply-congr ws (store m w.0 w.1) (store k w.0 w.1) x (store-congr m k w.0 w.1 x e)

-- What is read rests on the bytes of the piece.
pub load-congr :
    (m k : Memory) (a n : ℕ) → ((x : ℕ) → a ≤ x → x < a + n → m x ≡ k x) → load m a n ≡ load k a n
unfolding load
load-congr m k a zero h = refl
load-congr m k a (suc n) h =
    ground (arith, h a, load-congr m k (a + 1) n (λ x low high. h x (omega arith) (omega arith)))

-- Writes apart from a piece leave what it holds.
pub load-apply :
    (ws : List Write) (mem : Memory) (c n : ℕ)
    → All (λ p. Apart p (record { start = c; size = n })) (map write_piece ws)
    → load (apply ws mem) c n ≡ load mem c n
load-apply [] mem c n h = refl
load-apply (w ∷ ws) mem c n h =
    load-apply ws (store mem w.0 w.1) c n h.1 ∙ load-store_apart mem w.0 w.1 c n h.0
