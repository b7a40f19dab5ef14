-- ===== src/Qp.antt =====
-- The queue pair (src/types/qp.rs): the requests that it posts, its states, and the exchange of
-- endpoints.
pub mod Requests
pub mod Attributes
pub mod Setup
pub mod Handshake
pub mod Addresses
pub mod Stream
pub mod Codec
pub mod Model
mod Tests
use ibv.Prelude.{ℕ, Option, none, some, List, [], ◌∷◌, ◌==◌, if◌then◌else◌}
use ibv.Mr.Region.{LocalBuf, RemoteBuf, into_sge}
use ibv.Verbs.{Verbs}
use ibv.Wr
use ibv.Wr.{WrType, IoResult, ok, err, writeimm, post_to_qp}

module _ (V : Verbs) where
  -- `QP::write_with_imm`: an error is logged, and the call returns.
  unfoldable pub write_with_imm : LocalBuf → RemoteBuf → ℕ → ℕ → V.Dev → V.Dev
  unfolding Wr.new
  write_with_imm local_buf remote_buf imm wr_id dev =
      let wr_write =
        Wr.new wr_id WrType.send (into_sge local_buf ∷ [])
          (some (record { type = writeimm imm; addr = remote_buf.addr; rkey = remote_buf.rkey })) in
      (post_to_qp V wr_write dev).1

  unwrap : IoResult (Unit {0}) → V.Dev → Option V.Dev
  unwrap (ok _) dev = some dev
  unwrap (err e) dev = none

  -- `QP::post_null_recv`, with `none` for the panic of `unwrap`
  unfoldable pub post_null_recv : V.Dev → Option V.Dev
  unfolding unwrap Wr.new
  post_null_recv dev =
      let (result, dev') = post_to_qp V (Wr.new 0 WrType.recv [] none) dev in unwrap result dev'
