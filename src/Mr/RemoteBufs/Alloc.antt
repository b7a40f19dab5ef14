-- ===== src/Mr/RemoteBufs/Alloc.antt =====
-- The buffers that `RemoteBufManager::alloc` gives, and when (src/types/mr.rs, lines 154 to 179).
use mathlib.Core.Option.{some-injective}
use mathlib.Core.Path.{subst}
use ibv.Prelude.{
  sym, ◌∙◌, ℕ, ◌+◌, ◌≤◌, ◌<◌, ◌≡◌, ◌≢◌, inl, inr, none, some, List, [], ◌∷◌, ◌++◌, ltb, add64,
  u32_mod, true, false, arith, All, Bool-cases, Option-cases, ltb→lt, not-ltb→le,
}
use ibv.Ring.{Piece, Apart, place, advance, pieces, HasRoom, Layout}
use ibv.Ring.Moves.{Layout-push}
use ibv.Ring.Overlap.{pieces-Apart, place-bounds}
use ibv.Mr.Region.{RemoteBuf}
use ibv.Mr.RemoteBufs.{RemoteBufManager, updates, wait_wrap, wait_here, bump, alloc, IsValid}
use ibv.Mr.RemoteBufs.Waiting.{
  SameRing, updates-SameRing, quiet, after_rounds, WrapOpen, HereOpen, wait_wrap-Ends,
  wait_here-Ends, wait_wrap-returns, wait_here-returns, after_rounds-SameRing,
}

-- the piece of the peer's memory that a buffer stands for
abbrev pub piece_of : RemoteBuf → Piece
piece_of b = record { start = b.addr; size = b.length }

-- The buffer and the state that `alloc` gives, where its wait ended with `done` at `d`: there was
-- room, and the buffer stands where the ring places the next message.
pub record Allocated (m : RemoteBufManager) (length d : ℕ) (b : RemoteBuf) (m' : RemoteBufManager)
    : Type 0 where
  pub room : HasRoom m.left m.right d m.index length
  pub addr : b.addr ≡ place m.left m.right m.index length
  pub size : b.length ≡ length
  pub rkey : b.rkey ≡ m.mr.rkey
  pub index : m'.index ≡ advance m.left m.right m.index length
  pub done : m'.done ≡ d
  pub left : m'.left ≡ m.left
  pub right : m'.right ≡ m.right

-- As long as `index` stays, `done` is all that an allocation depends on.
module _ (m : RemoteBufManager) (length : ℕ) (v : IsValid m) (short : length < u32_mod) where
  wrapped_end :
      (n : RemoteBufManager) {b : RemoteBuf} {m' : RemoteBufManager}
      → SameRing m n
      → m.right < add64 m.index length
      → WrapOpen n length
      → bump (record n { index = n.left }) length ≡ (b, m')
      → Allocated m length n.done b m'
  unfolding bump
  wrapped_end n same over open_now h = record {
    room = inl (ground arith);
    addr = ground arith;
    size = ground arith;
    rkey = ground arith;
    index = ground arith;
    done = ground arith;
    left = ground arith;
    right = ground arith;
  }

  here_end :
      (n : RemoteBufManager) {b : RemoteBuf} {m' : RemoteBufManager}
      → SameRing m n
      → add64 m.index length ≤ m.right
      → HereOpen n length
      → bump n length ≡ (b, m')
      → Allocated m length n.done b m'
  unfolding bump
  here_end n same fits open_now h = record {
    room = inr (ground arith);
    addr = ground arith;
    size = ground arith;
    rkey = ground arith;
    index = ground arith;
    done = ground arith;
    left = ground arith;
    right = ground arith;
  }

  abbrev Grants : RemoteBuf → RemoteBufManager → Type 0
  Grants b m' = (us : List ℕ) × Allocated m length (updates m us).done b m'

  granted :
      (n : RemoteBufManager) {b : RemoteBuf} {m' : RemoteBufManager} (us : List ℕ)
      → n ≡ updates m us
      → Allocated m length n.done b m'
      → Grants b m'
  granted n us e a = (us, rw (← e) a)

  same_ring : (n : RemoteBufManager) (us : List ℕ) → n ≡ updates m us → SameRing m n
  same_ring n us e = rw e (updates-SameRing m us)

  wrap_branch :
      (ss : List (List ℕ)) {b : RemoteBuf} {m' : RemoteBufManager}
      → ltb m.right (add64 m.index length) ≡ true
      → alloc (quiet ss) m length ≡ some (b, m')
      → Grants b m'
  unfolding alloc
  wrap_branch ss over h = elim (Option-cases (wait_wrap (quiet ss) m length)) [
    | inl e ↦ cc (rw (over, e) at h)
    | inr (n, e) ↦
        let (us, same, open_now) = wait_wrap-Ends length ss m e in
        granted n us same (
          wrapped_end n (same_ring n us same) (ltb→lt _ _ over) open_now
            (some-injective _ _ (rw (over, e) at h)))
  ]

  here_branch :
      (ss : List (List ℕ)) {b : RemoteBuf} {m' : RemoteBufManager}
      → ltb m.right (add64 m.index length) ≡ false
      → alloc (quiet ss) m length ≡ some (b, m')
      → Grants b m'
  unfolding alloc
  here_branch ss fits h = elim (Option-cases (wait_here (quiet ss) m length)) [
    | inl e ↦ cc (rw (fits, e) at h)
    | inr (n, e) ↦
        let (us, same, open_now) = wait_here-Ends length ss m e in
        granted n us same (
          here_end n (same_ring n us same) (not-ltb→le _ _ fits) open_now
            (some-injective _ _ (rw (fits, e) at h)))
  ]

  pub alloc-Allocated :
      (ss : List (List ℕ)) {b : RemoteBuf} {m' : RemoteBufManager}
      → alloc (quiet ss) m length ≡ some (b, m')
      → (us : List ℕ) × Allocated m length (updates m us).done b m'
  alloc-Allocated ss h = elim (Bool-cases (ltb m.right (add64 m.index length))) [
    | inl over ↦ wrap_branch ss over h
    | inr fits ↦ here_branch ss fits h
  ]

  -- If the state is valid, the length is below 2 ^ 32, nothing runs between the two loads of a
  -- test, and the updates of the rounds `ss` make room, `alloc` returns in the round behind them
  -- at the latest.
  pub alloc-returns :
      (ss : List (List ℕ))
      → HasRoom m.left m.right (after_rounds m ss).done m.index length
      → alloc (quiet (ss ++ [] ∷ [])) m length ≢ none
  unfolding alloc
  alloc-returns ss room = ground (
    arith,
    after_rounds-SameRing m ss,
    wait_wrap-returns length ss m,
    wait_here-returns length ss m,
  )

  -- If the state is valid, the length is below 2 ^ 32, and the message fits neither behind
  -- `index` nor strictly before it, `alloc` gives it no buffer in any number of rounds, whatever
  -- is released while it sleeps.
  pub alloc_hangs :
      (ss : List (List ℕ))
      → m.right < m.index + length
      → m.index ≤ m.left + length
      → alloc (quiet ss) m length ≡ none
  alloc_hangs ss over under = elim (Option-cases (alloc (quiet ss) m length)) [
    | inl e ↦ e
    | inr ((b, m'), e) ↦ let (us, a) = alloc-Allocated ss e in absurd (omega (arith, a.room))
  ]

  -- If the state is valid, the length is below 2 ^ 32, nothing runs between the two loads of a
  -- test, and the live messages are laid out from `done` to `index` when the wait ends, the
  -- buffer that `RemoteBufManager::alloc` gives overlaps none of them and lies in the peer's
  -- buffer, and the layout goes on behind it.
  pub alloc-Apart :
      (ss : List (List ℕ)) {b : RemoteBuf} {m' : RemoteBufManager} {lens : List ℕ}
      → alloc (quiet ss) m length ≡ some (b, m')
      → Layout m.left m.right m'.done m.index lens
      → All (Apart (piece_of b)) (pieces m.left m.right m'.done lens)
        × (m.left ≤ b.addr)
        × (b.addr + b.length ≤ m.right)
        × Layout m.left m.right m'.done m'.index (lens ++ length ∷ [])
  alloc-Apart ss {b} {m'} {lens} h l =
      let (us, a) = alloc-Allocated ss h in
      let room : HasRoom m.left m.right m'.done m.index length = rw a.done a.room in
      let (low, end, top) = place-bounds m.left m.right length l room in
      (
        rw (a.addr, a.size) (pieces-Apart m.left m.right length l room),
        omega (arith, a.addr, low),
        omega (arith, a.addr, a.size, end, top),
        rw a.index (Layout-push length l room),
      )

  -- A call that does not wait leaves `done` as it is.
  pub alloc-done :
      {b : RemoteBuf} {m' : RemoteBufManager}
      → alloc (quiet ([] ∷ [])) m length ≡ some (b, m')
      → m'.done ≡ m.done
  unfolding alloc
  alloc-done h = ground arith

  pub alloc-at_once :
      {b : RemoteBuf} {m' : RemoteBufManager}
      → alloc (quiet ([] ∷ [])) m length ≡ some (b, m')
      → Allocated m length m.done b m'
  alloc-at_once {b} {m'} h =
      let (us, a) = alloc-Allocated ([] ∷ []) h in
      subst (λ d. Allocated m length d b m') (sym a.done ∙ alloc-done h) a
