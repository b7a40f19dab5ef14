-- ===== src/Link/Invariant.antt =====
-- The invariant of a link.
use ibv.Prelude.{
  ℕ, ◌+◌, ◌≤◌, ◌<◌, ◌≡◌, refl, inl, some, List, [], ◌∷◌, ◌++◌, map, length, All, u32_mod, u64_mod,
  arith,
}
use ibv.Memory.{Memory, load}
use ibv.Ring.{place, advance, advance_all, Layout, flat}
use ibv.Mr.Region.{Mr, from_mr}
use ibv.Mr.RemoteBufs
use ibv.Mr.RecvBufs
use ibv.Mr.RecvBufs.Agreement.{Agrees}
use ibv.Link.{Link, start}

abbrev pub join : List (List ℕ) → List ℕ
join [] = []
join (b ∷ bs) = b ++ join bs

module _ (left right : ℕ) where
  -- The reports `ks` under way take `done` from `d` to `s`, each over the whole messages of its
  -- batch.
  abbrev pub Reports : ℕ → List (List ℕ) → List ℕ → ℕ → Type 0
  Reports d [] [] s = d ≡ s
  Reports d (b ∷ bs) (k ∷ ks) s =
      (left + k ≤ right)
      × (advance left right d k ≡ advance_all left right d b)
      × Reports (advance left right d k) bs ks s
  Reports d _ _ s = ⊥

  -- The messages stand in the memory where the ring places them, from `pos` on.
  abbrev pub Stored : Memory → ℕ → List (List ℕ) → Type 0
  Stored mem pos [] = Unit
  Stored mem pos (b ∷ bs) =
      (load mem (place left right pos (length b)) (length b) ≡ b)
      × Stored mem (advance left right pos (length b)) bs

abbrev pub lengths : List (List ℕ) → List ℕ
lengths = map length

module _ {Rx : Type 0} where
  -- All messages that the sender may not overwrite, oldest first: those of the reports under way,
  -- the released and unreported, the held, and those on the wire.
  abbrev pub live : Link Rx → List (List ℕ) → List ℕ → List ℕ
  live l batches un = (join batches ++ un ++ l.held) ++ lengths l.wire

  pub record Inv (left right : ℕ) (l : Link Rx) : Type 0 where
    pub batches : List (List ℕ)
    pub un : List ℕ
    pub final : ℕ
    pub ends :
        (l.sender.left ≡ left)
        × (l.sender.right ≡ right)
        × (l.receiver.left ≡ left)
        × (l.receiver.right ≡ right)
    pub layout : Layout left right l.sender.done l.sender.index (live l batches un)
    pub reports : Reports left right l.sender.done batches l.notes final
    pub agrees : Agrees final un l.receiver
    pub reads :
        advance_all left right (l.receiver.done + l.receiver.released) l.held ≡ l.receiver.index
    pub stored : Stored left right l.mem l.receiver.index l.wire
    pub small_held : All (λ n. left + n ≤ right) l.held
    pub small_wire : All (λ b. left + length b ≤ right) l.wire
    pub received : l.got ++ map some l.wire ≡ map some l.sent

  pub start-Inv :
      (mr : Mr) (rx : Rx) (mem : Memory)
      → mr.length < u32_mod
      → mr.addr + mr.length + u32_mod ≤ u64_mod
      → Inv mr.addr (mr.addr + mr.length) (start mr rx mem)
  unfolding RemoteBufs.new RecvBufs.new from_mr
  start-Inv mr rx mem short room = record {
    batches = [];
    un = [];
    final = mr.addr;
    ends = omega arith;
    layout = flat (omega arith) (omega arith) (omega arith);
    reports = refl;
    agrees = record { valid = omega arith; total = refl; ends = omega arith; mode = inl refl };
    reads = omega arith;
    stored = tt;
    small_held = tt;
    small_wire = tt;
    received = refl;
  }
