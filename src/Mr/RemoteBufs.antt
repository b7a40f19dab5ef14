-- ===== src/Mr/RemoteBufs.antt =====
-- `RemoteBufManager` (src/types/mr.rs, lines 133 to 189): the sender's view of the peer's receive
-- buffer. `alloc` waits in a loop that reads `done` twice in a round, while `update` may run in
-- another task; the updates that run in a round are arguments of the model.
pub mod Waiting
pub mod Alloc
pub mod Race
mod Tests
use ibv.Prelude.{
  ℕ, ◌+◌, ◌≤◌, ◌^◌, Bool, true, false, ◌&&◌, ◌||◌, Option, none, some, List, [], ◌∷◌, foldl, ltb,
  leb, if◌then◌else◌, add64, u32_mod, u64_mod,
}
use ibv.Mr.Region.{RemoteMr, RemoteBuf}

pub record RemoteBufManager : Type 0 where
  pub done : ℕ
  pub index : ℕ
  pub left : ℕ
  pub right : ℕ
  pub mr : RemoteMr

unfoldable pub new : RemoteMr → RemoteBufManager
new mr = record {
  done = mr.addr;
  index = mr.addr;
  left = mr.addr;
  right = add64 mr.addr mr.length;
  mr = mr;
}

-- `update`
unfoldable pub update : RemoteBufManager → ℕ → RemoteBufManager
update m length =
    if ltb m.right (add64 m.done length)
    then record m { done = add64 m.left length }
    else record m { done = add64 m.done length }

abbrev pub updates : RemoteBufManager → List ℕ → RemoteBufManager
updates m lengths = foldl update m lengths

-- What other tasks do in one round of a waiting loop: the updates between the two loads of `done`
-- in the loop's test, and those while the task sleeps.
pub record Turn : Type 0 where
  pub between : List ℕ
  pub asleep : List ℕ

-- One evaluation of `self.left + length >= done || done > index`, with the state behind it. Where
-- the first test holds, the second load is not made; the updates then come behind the test.
unfoldable pub wrap_blocked : RemoteBufManager → ℕ → List ℕ → Bool × RemoteBufManager
wrap_blocked m length between =
    let m' = updates m between in (leb m.done (add64 m.left length) || ltb m'.index m'.done, m')

-- One evaluation of `index + length >= done && done > index`.
unfoldable pub here_blocked : RemoteBufManager → ℕ → List ℕ → Bool × RemoteBufManager
here_blocked m length between =
    let m' = updates m between in (leb m.done (add64 m.index length) && ltb m'.index m'.done, m')

-- The two `while` loops, a turn to each round; `none` where the task still waits when the turns
-- are over.
unfoldable pub wait_wrap : List Turn → RemoteBufManager → ℕ → Option RemoteBufManager
unfolding wrap_blocked
wait_wrap [] m length = none
wait_wrap (t ∷ ts) m length =
    let (blocked, m') = wrap_blocked m length t.between in
    let rest = wait_wrap ts (updates m' t.asleep) length in if blocked then rest else some m'

unfoldable pub wait_here : List Turn → RemoteBufManager → ℕ → Option RemoteBufManager
unfolding here_blocked
wait_here [] m length = none
wait_here (t ∷ ts) m length =
    let (blocked, m') = here_blocked m length t.between in
    let rest = wait_here ts (updates m' t.asleep) length in if blocked then rest else some m'

-- `index.fetch_add(length)` and the buffer that it gives
unfoldable pub bump : RemoteBufManager → ℕ → RemoteBuf × RemoteBufManager
bump m length = (
  record { addr = m.index; length = length; rkey = m.mr.rkey },
  record m { index = add64 m.index length },
)

unfoldable pub alloc : List Turn → RemoteBufManager → ℕ → Option (RemoteBuf × RemoteBufManager)
unfolding bump wait_wrap wait_here
alloc ts m length =
    if ltb m.right (add64 m.index length)
    then elim (wait_wrap ts m length) [
      | none ↦ none
      | some m' ↦ some (bump (record m' { index = m'.left }) length)
    ]
    else elim (wait_here ts m length) [ none ↦ none | some m' ↦ some (bump m' length) ]

-- The pointers stand in the ring, and no `u64` addition of a `u32` to one of them wraps.
pub record IsValid (m : RemoteBufManager) : Type 0 where
  pub done_low : m.left ≤ m.done
  pub done_high : m.done ≤ m.right
  pub index_low : m.left ≤ m.index
  pub index_high : m.index ≤ m.right
  pub headroom : m.right + u32_mod ≤ u64_mod
