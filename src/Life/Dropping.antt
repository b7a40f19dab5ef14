-- ===== src/Life/Dropping.antt =====
-- The end of a connection: the drop of a `Conn` (src/connection/conn.rs, lines 40 to 50), with
-- `Drop for RecvBuffer` and `Drop for SendBuffer` (src/types/mr.rs), and the end of its polling task,
-- which shares the queue pair (src/connection/conn.rs, lines 64 to 69; src/connection/daemon.rs).
use ibv.Prelude.{ℕ, ◌-◌, ◌≡◌, refl, ◌==◌, if◌then◌else◌}
use ibv.Life.{dereg_mr, Heap, Qp, call, drop_qp}

-- The queue pair and how many `Arc`s of it there are.
pub record Shared : Type 0 where
  pub heap : Heap
  pub qp : Qp
  pub owners : ℕ

-- `Arc::new(qp)` of `connect` and the clone of `Conn::new`
unfoldable pub share : Heap → Qp → Shared
share h qp = record { heap = h; qp = qp; owners = 2 }

-- the drop of an `Arc<QP>`
unfoldable pub drop_arc : Shared → Shared
drop_arc s =
    if s.owners == 1
    then record s { heap = drop_qp s.heap s.qp; owners = 0 }
    else record s { owners = s.owners - 1 }

unfoldable pub drop_recv_buf : Shared → ℕ → Shared
drop_recv_buf s mr = record s { heap = call s.heap (dereg_mr mr) }

unfoldable pub drop_send_buf : Shared → ℕ → Shared
drop_send_buf s mr = record s { heap = call s.heap (dereg_mr mr) }

-- The fields in their order; the task of `daemon` is detached.
unfoldable pub drop_conn : Shared → ℕ → ℕ → Shared
unfolding drop_arc drop_recv_buf drop_send_buf
drop_conn s recv_mr send_mr = drop_arc (drop_send_buf (drop_recv_buf s recv_mr) send_mr)

-- `polling` ends at a poll error, or at the panic of a send to the dropped receiver.
unfoldable pub end_polling : Shared → Shared
unfolding drop_arc
end_polling s = drop_arc s

-- Dropping the connection deregisters its two regions and leaves the queue pair alive, the end of the
-- polling task alone frees nothing, and the two in either order free the queue pair after the regions.
drop_conn-shared :
    (h : Heap) (qp : Qp) (recv_mr send_mr : ℕ)
    → let deregistered = call (call h (dereg_mr recv_mr)) (dereg_mr send_mr) in
      ((drop_conn (share h qp) recv_mr send_mr).heap ≡ deregistered)
      × ((end_polling (share h qp)).heap ≡ h)
      × ((end_polling (drop_conn (share h qp) recv_mr send_mr)).heap ≡ drop_qp deregistered qp)
      × (drop_conn (end_polling (share h qp)) recv_mr send_mr
          ≡ end_polling (drop_conn (share h qp) recv_mr send_mr))
unfolding share drop_conn end_polling
drop_conn-shared h qp recv_mr send_mr = (refl, refl, refl, refl)
