-- ===== src/Daemon.antt =====
-- The polling task (src/connection/daemon.rs). It shares the device with the connection, the
-- channel `tx` with `RecvBuffer::recv`, and the flags with the send buffer's release task.
pub mod Dispatch
pub mod Notify
mod Tests
use ibv.Prelude.{
  ℕ, zero, suc, Bool, true, false, Option, none, some, List, [], ◌∷◌, ◌==◌, if◌then◌else◌,
}
use ibv.Channel.{Mpsc}
use ibv.Mr.SendBufs.{set_flag}
use ibv.Verbs.{IbvWc, Verbs}
use ibv.Wr.{ok, err}
use ibv.Cq.{Opcode, opcode, poll_wc}
use ibv.Qp.{post_null_recv}

pub record Daemon (Dev Chan : Type 0) : Type 0 where
  pub dev : Dev
  pub tx : Chan
  pub flags : ℕ → Bool

-- How a run of the loop stands: ended by a poll error, waiting in `tx.send` for room, or going on.
pub data Progress (Dev Chan : Type 0) : Type 0 where
  ended : Daemon Dev Chan → Progress Dev Chan
  waits : Progress Dev Chan
  going : Daemon Dev Chan → Progress Dev Chan

module _ (V : Verbs) (Q : Mpsc (ℕ × ℕ)) where
  -- the arm `WriteWithImm`: post a receive request, then report length and immediate value; `none`
  -- where the channel is full
  unfoldable pub arrived : Daemon V.Dev Q.Chan → IbvWc → Option (Daemon V.Dev Q.Chan)
  arrived d wc = elim (post_null_recv V d.dev) [
    | none ↦ none
    | some dev ↦ elim (Q.try_send d.tx (wc.byte_len, wc.imm_data)) [
      | none ↦ none
      | some tx ↦ some (record d { dev = dev; tx = tx })
    ]
  ]

  -- the arm `Write`: the flag at the address `wr_id` is cleared
  unfoldable pub completed : Daemon V.Dev Q.Chan → IbvWc → Daemon V.Dev Q.Chan
  completed d wc = record d { flags = set_flag d.flags wc.wr_id false }

  unfoldable pub dispatch : Daemon V.Dev Q.Chan → IbvWc → Option (Daemon V.Dev Q.Chan)
  unfolding completed opcode
  dispatch d wc = elim (opcode wc) [
    | Opcode.write_with_imm ↦ arrived d wc
    | Opcode.write ↦ some (completed d wc)
    | _ ↦ some d
  ]

  -- `for wc in wcs.iter()`
  unfoldable pub dispatch_all : Daemon V.Dev Q.Chan → List IbvWc → Option (Daemon V.Dev Q.Chan)
  dispatch_all d [] = some d
  dispatch_all d (wc ∷ wcs) = elim (dispatch d wc) [ none ↦ none | some d' ↦ dispatch_all d' wcs ]

  -- `polling`, for a number of rounds
  unfoldable pub polling : ℕ → Daemon V.Dev Q.Chan → Progress V.Dev Q.Chan
  polling zero d = going d
  polling (suc n) d =
      let (result, dev) = poll_wc V 100 d.dev in
      elim result [
        | err e ↦ ended (record d { dev = dev })
        | ok wcs ↦ elim (dispatch_all (record d { dev = dev }) wcs) [
          | none ↦ waits
          | some d' ↦ polling n d'
        ]
      ]
