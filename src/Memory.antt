-- ===== src/Memory.antt =====
-- The memory of a process, byte by byte: what `Vec<u8>` slices read, what `copy_nonoverlapping` and
-- an RDMA write of the network card write.
use ibv.Prelude.{
  ℕ, zero, suc, ◌+◌, ◌≤◌, ◌<◌, ◌≡◌, refl, ap, ◌∙◌, ◌⊎◌, List, [], ◌∷◌, ◌++◌, ◌==◌, if◌then◌else◌,
  length, arith,
}

abbrev pub Memory : Type 0
Memory = ℕ → ℕ

-- `Vec<u8>`: where its bytes stand, and how many
pub record Bytes : Type 0 where
  pub ptr : ℕ
  pub len : ℕ

unfoldable pub load : Memory → ℕ → ℕ → List ℕ
load mem a zero = []
load mem a (suc n) = mem a ∷ load mem (a + 1) n

abbrev pub poke : Memory → ℕ → ℕ → Memory
poke mem a b x = if x == a then b else mem x

unfoldable pub store : Memory → ℕ → List ℕ → Memory
store mem a [] = mem
store mem a (b ∷ bs) = store (poke mem a b) (a + 1) bs

pub length-load : (mem : Memory) (a n : ℕ) → length (load mem a n) ≡ n
unfolding load
length-load mem a zero = refl
length-load mem a (suc n) = ap suc (length-load mem (a + 1) n)

store-outside :
    (mem : Memory) (a : ℕ) (bs : List ℕ) (x : ℕ)
    → (x < a) ⊎ (a + length bs ≤ x)
    → store mem a bs x ≡ mem x
unfolding store
store-outside mem a [] x h = refl
store-outside mem a (b ∷ bs) x h = ground (arith, store-outside (poke mem a b) (a + 1) bs x)

-- Bytes outside the written range are as they were.
pub load-store_apart :
    (mem : Memory) (a : ℕ) (bs : List ℕ) (c n : ℕ)
    → (a + length bs ≤ c) ⊎ (c + n ≤ a)
    → load (store mem a bs) c n ≡ load mem c n
unfolding load
load-store_apart mem a bs c zero h = refl
load-store_apart mem a bs c (suc n) h =
    ground (arith, store-outside mem a bs c, load-store_apart mem a bs (c + 1) n)

-- What was written is read back.
pub load-store_self :
    (mem : Memory) (a : ℕ) (bs : List ℕ) → load (store mem a bs) a (length bs) ≡ bs
unfolding load store
load-store_self mem a [] = refl
load-store_self mem a (b ∷ bs) =
    ground
      (arith, store-outside (poke mem a b) (a + 1) bs a, load-store_self (poke mem a b) (a + 1) bs)

pub store-append :
    (mem : Memory) (a : ℕ) (bs cs : List ℕ)
    → store mem a (bs ++ cs) ≡ store (store mem a bs) (a + length bs) cs
unfolding store
store-append mem a [] cs = ap (λ k. store mem k cs) (omega arith)
store-append mem a (b ∷ bs) cs =
    store-append (poke mem a b) (a + 1) bs cs
    ∙ ap (λ k. store (store (poke mem a b) (a + 1) bs) k cs) (omega arith)
