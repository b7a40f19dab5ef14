-- ===== src/Conn/Copying.antt =====
-- The copy loop of `send_msg` (src/connection/conn.rs, lines 94 to 100).
use ibv.Prelude.{
  ℕ, ◌+◌, ◌^◌, ◌≤◌, ◌<◌, ◌≡◌, refl, ap, ◌∙◌, sym, ◌⊎◌, List, [], ◌∷◌, ◌++◌, length, length-append,
  add64, arith,
}
use ibv.Memory.{Memory, load, store, store-append, load-store_self, load-store_apart}
use ibv.Conn.{total_len, copy_slices}

-- The message that the slices make up.
abbrev pub joined : List (List ℕ) → List ℕ
joined [] = []
joined (slice ∷ msg) = slice ++ joined msg

pub length-joined : (msg : List (List ℕ)) → length (joined msg) ≡ total_len msg
length-joined [] = refl
length-joined (slice ∷ msg) =
    length-append slice (joined msg) ∙ ap (λ n. length slice + n) (length-joined msg)

-- The loop writes the slices one behind the other, as one store of the whole message.
pub copy_slices-joined :
    (mem : Memory) (addr : ℕ) (msg : List (List ℕ))
    → addr + total_len msg < 2 ^ 64
    → copy_slices mem addr msg ≡ store mem addr (joined msg)
unfolding copy_slices store
copy_slices-joined mem addr [] below = refl
copy_slices-joined mem addr (slice ∷ msg) below =
    ap (λ a. copy_slices (store mem addr slice) a msg) step
    ∙ copy_slices-joined (store mem addr slice) (addr + length slice) msg (omega arith)
    ∙ sym (store-append mem addr slice (joined msg))
  where
    step : add64 addr (length slice) ≡ addr + length slice
    step = omega arith

module _ (mem : Memory) (addr : ℕ) (msg : List (List ℕ))
    (below : addr + total_len msg < 2 ^ 64) where
  -- If the message ends below 2 ^ 64, it is read back from where the loop has copied it to,
  -- slice behind slice, and no byte outside is changed.
  pub load-copy_slices :
      (load (copy_slices mem addr msg) addr (total_len msg) ≡ joined msg)
      × ((c n : ℕ)
          → (addr + total_len msg ≤ c) ⊎ (c + n ≤ addr)
          → load (copy_slices mem addr msg) c n ≡ load mem c n)
  load-copy_slices = rw (copy_slices-joined mem addr msg below) (
    rw (← length-joined msg) (load-store_self mem addr (joined msg)),
    λ c n outside. load-store_apart mem addr (joined msg) c n (rw (length-joined msg) outside),
  )
