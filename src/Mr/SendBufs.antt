-- ===== src/Mr/SendBufs.antt =====
-- `SendBuffer` and `MyQueue` (src/types/mr.rs, lines 191 to 286 and 377 to 398). The release task
-- and the daemon run beside `alloc`; what they do in a round of its waiting loops is an argument.
-- `AtomicBool` flags stand in a store by their address, which the caller of `Arc::new` is given.
pub mod Events
pub mod InUse
pub mod Waiting
pub mod Alloc
pub mod Progress
mod Tests
use ibv.Prelude.{
  ℕ, ◌+◌, ◌*◌, ◌≤◌, ◌<◌, ◌≡◌, Bool, true, false, ◌&&◌, ◌||◌, Option, none, some, List, [], ◌∷◌,
  foldl, ltb, leb, ◌==◌, if◌then◌else◌, add64, u32_mod, u64_mod, map, ◌++◌,
}
use ibv.Defaults.{max_sending}
use ibv.Channel.{Mpsc}
use ibv.Ring.{Layout}
use ibv.Mr.Region.{Mr, LocalBuf, local_of_mr}

-- a flag and the length of the buffer that it guards
abbrev pub Entry : Type 0
Entry = ℕ × ℕ

-- `holding` is the entry that the release task has taken from the queue and waits for; `flags` holds
-- the value of each flag, `true` while the buffer is used.
pub record SendBuffer (Chan : Type 0) : Type 0 where
  pub mr : Mr
  pub done : ℕ
  pub index : ℕ
  pub left : ℕ
  pub right : ℕ
  pub to_release : Chan
  pub holding : Option Entry
  pub flags : ℕ → Bool

abbrev pub set_flag : (ℕ → Bool) → ℕ → Bool → ℕ → Bool
set_flag flags p b q = if q == p then b else flags q

-- What runs beside `alloc`: the daemon stores `false` in the flag of a completed write, and the
-- release task makes a step.
pub data Event : Type 0 where
  complete : ℕ → Event
  task : Event

pub record Turn : Type 0 where
  pub between : List Event
  pub asleep : List Event

module _ (Q : Mpsc Entry) where
  -- `MyQueue::push`, `MyQueue::pop`
  unfoldable pub push : Q.Chan → ℕ → ℕ → Option Q.Chan
  push c flag length = Q.try_send c (flag, length)

  unfoldable pub pop : Q.Chan → Option (Entry × Q.Chan)
  pop c = Q.try_recv c

  unfoldable pub new : Mr → (ℕ → Bool) → SendBuffer Q.Chan
  unfolding local_of_mr
  new mr flags =
      let local_buf = local_of_mr mr in
      record {
        mr = mr;
        done = local_buf.addr;
        index = local_buf.addr;
        left = local_buf.addr;
        right = add64 local_buf.addr local_buf.length;
        to_release = Q.channel (2 * max_sending);
        holding = none;
        flags = flags;
      }

  -- the release of `length` bytes in the task's loop
  unfoldable pub release_done : SendBuffer Q.Chan → ℕ → SendBuffer Q.Chan
  release_done s length =
      if ltb s.right (add64 s.done length)
      then record s { done = add64 s.left length; holding = none }
      else record s { done = add64 s.done length; holding = none }

  -- One step of the task: take the next entry, or look at the flag of the one it has.
  unfoldable pub task_step : SendBuffer Q.Chan → SendBuffer Q.Chan
  unfolding pop release_done
  task_step s = elim s.holding [
    | none ↦ elim (pop s.to_release) [
      | none ↦ s
      | some (entry, c) ↦ record s { to_release = c; holding = some entry }
    ]
    | some (flag, length) ↦ if s.flags flag then s else release_done s length
  ]

  unfoldable pub event : SendBuffer Q.Chan → Event → SendBuffer Q.Chan
  event s (complete flag) = record s { flags = set_flag s.flags flag false }
  event s task = task_step s

  abbrev pub events : SendBuffer Q.Chan → List Event → SendBuffer Q.Chan
  events s es = foldl event s es

  -- The tests of the two waiting loops, as in `RemoteBufManager::alloc`.
  unfoldable pub wrap_blocked : SendBuffer Q.Chan → ℕ → List Event → Bool × SendBuffer Q.Chan
  wrap_blocked s length between =
      let s' = events s between in (leb s.done (add64 s.left length) || ltb s.index s'.done, s')

  unfoldable pub here_blocked : SendBuffer Q.Chan → ℕ → List Event → Bool × SendBuffer Q.Chan
  here_blocked s length between =
      let s' = events s between in (leb s.done (add64 s.index length) && ltb s.index s'.done, s')

  unfoldable pub wait_wrap : List Turn → SendBuffer Q.Chan → ℕ → Option (SendBuffer Q.Chan)
  unfolding wrap_blocked
  wait_wrap [] s length = none
  wait_wrap (t ∷ ts) s length =
      let (blocked, s') = wrap_blocked s length t.between in
      let rest = wait_wrap ts (events s' t.asleep) length in if blocked then rest else some s'

  unfoldable pub wait_here : List Turn → SendBuffer Q.Chan → ℕ → Option (SendBuffer Q.Chan)
  unfolding here_blocked
  wait_here [] s length = none
  wait_here (t ∷ ts) s length =
      let (blocked, s') = here_blocked s length t.between in
      let rest = wait_here ts (events s' t.asleep) length in if blocked then rest else some s'

  -- `add_to_release`: a new flag at the address `flag`, which is also the `wr_id`; `none` where the
  -- queue has no room.
  unfoldable pub add_to_release : SendBuffer Q.Chan → ℕ → ℕ → Option (ℕ × SendBuffer Q.Chan)
  unfolding push
  add_to_release s flag length = elim (push s.to_release flag length) [
    | none ↦ none
    | some c ↦ some (flag, record s { to_release = c; flags = set_flag s.flags flag true })
  ]

  -- the end of `alloc`, behind its loops
  unfoldable pub take_buffer : SendBuffer Q.Chan → ℕ → ℕ → Option (LocalBuf × ℕ × SendBuffer Q.Chan)
  unfolding add_to_release
  take_buffer s flag length =
      elim (add_to_release (record s { index = add64 s.index length }) flag length) [
        | none ↦ none
        | some (wr_id, s') ↦
            some (record { addr = s.index; length = length; lkey = s.mr.lkey }, wr_id, s')
      ]

  unfoldable pub alloc :
      List Turn → SendBuffer Q.Chan → ℕ → ℕ → Option (LocalBuf × ℕ × SendBuffer Q.Chan)
  unfolding wait_wrap wait_here take_buffer
  alloc ts s flag length =
      if ltb s.right (add64 s.index length)
      then elim (wait_wrap ts s length) [
        | none ↦ none
        | some s' ↦ take_buffer (record s' { index = s'.left }) flag length
      ]
      else elim (wait_here ts s length) [ none ↦ none | some s' ↦ take_buffer s' flag length ]

  -- The buffers in use, oldest first: the one that the task waits for, and the queue's.
  abbrev pub held : Option Entry → List Entry
  held none = []
  held (some e) = e ∷ []

  abbrev pub entries : SendBuffer Q.Chan → List Entry
  entries s = held s.holding ++ Q.queued s.to_release

  abbrev pub sizes : List Entry → List ℕ
  sizes = map (λ e. e.1)

  pub record Inv (s : SendBuffer Q.Chan) : Type 0 where
    pub layout : Layout s.left s.right s.done s.index (sizes (entries s))
    pub headroom : s.right + u32_mod ≤ u64_mod
    pub short : s.right < s.left + u32_mod
