-- ===== src/Life.antt =====
-- The objects of libibverbs that a queue pair is made of, and who destroys them: src/types/device.rs,
-- src/types/pd.rs, src/types/cq.rs (lines 12 to 52, 93 to 99) and src/types/qp.rs (lines 34 to 50,
-- 268 to 328). The library is the interface `Host`, whose answers may rest on all calls so far. The
-- calls stand in a log, newest first. `strong` counts the `Arc`s of each device; the other `Arc`s are
-- held by one queue pair only. A panic is `none`.
pub mod Counts
pub mod Totals
pub mod History
pub mod Dropping
mod Tests
use ibv.Prelude.{
  ℕ, ◌+◌, ◌-◌, Bool, true, false, Option, none, some, List, [], ◌∷◌, ◌==◌, if◌then◌else◌,
}
use ibv.Defaults.{max_cqe}
use ibv.Cq
use ibv.Cq.{Cq}

-- `QPCap`, which is also `ibv_qp_cap`
pub record QpCap : Type 0 where
  pub max_send_wr : ℕ
  pub max_recv_wr : ℕ
  pub max_send_sge : ℕ
  pub max_recv_sge : ℕ
  pub max_inline_data : ℕ

-- `ibv_qp_init_attr`; the fields `qp_context` and `srq` are null.
pub record IbvQpInitAttr : Type 0 where
  pub send_cq : ℕ
  pub recv_cq : ℕ
  pub qp_type : ℕ
  pub cap : QpCap
  pub sq_sig_all : ℕ

-- A call that made an object, with its handle, or that destroys one.
pub data Call : Type 0 where
  open_device close_device : ℕ → Call
  dereg_mr : ℕ → Call
  alloc_pd : ℕ → ℕ → Call
  create_cq : ℕ → ℕ → Call
  create_qp : ℕ → ℕ → IbvQpInitAttr → Call
  dealloc_pd destroy_cq destroy_qp : ℕ → Call

pub record Host : Type 0 where
  pub open_device_answer : List Call → Option ℕ
  pub alloc_pd_answer : List Call → ℕ → Option ℕ
  pub create_comp_channel_answer : List Call → ℕ → Option ℕ
  pub create_cq_answer : List Call → ℕ → ℕ → Option ℕ → Option ℕ
  pub create_qp_answer : List Call → ℕ → IbvQpInitAttr → Option ℕ

pub record Heap : Type 0 where
  pub log : List Call
  pub strong : ℕ → ℕ

pub record Pd : Type 0 where
  pub inner : ℕ
  pub device : ℕ

pub record Qp : Type 0 where
  pub inner : ℕ
  pub pd : Pd
  pub cq : Cq
  pub cq_device : ℕ

abbrev pub call : Heap → Call → Heap
call h c = record h { log = c ∷ h.log }

-- `Arc::new`, `Arc::clone` and the drop of an `Arc<Device>`, with `Drop for Device`
abbrev pub set_strong : Heap → ℕ → ℕ → Heap
set_strong h d n = record h { strong = λ c. if c == d then n else h.strong c }

unfoldable pub clone_device : Heap → ℕ → Heap
clone_device h d = set_strong h d (h.strong d + 1)

unfoldable pub drop_device : Heap → ℕ → Heap
drop_device h d =
    if h.strong d == 1
    then call (set_strong h d 0) (close_device d)
    else set_strong h d (h.strong d - 1)

-- `QPCap::new`
unfoldable pub new_cap : ℕ → ℕ → ℕ → ℕ → QpCap
new_cap max_send_wr max_recv_wr max_send_sge max_recv_sge = record {
  max_send_wr = max_send_wr;
  max_recv_wr = max_recv_wr;
  max_send_sge = max_send_sge;
  max_recv_sge = max_recv_sge;
  max_inline_data = 0;
}

-- what `create_qp` asks for; 2 is `IBV_QPT_RC`
unfoldable pub init_attr : ℕ → QpCap → IbvQpInitAttr
init_attr cq qp_cap = record {
  send_cq = cq;
  recv_cq = cq;
  qp_type = 2;
  cap = qp_cap;
  sq_sig_all = 1;
}

-- `Drop for PD`, `Drop for CQ` and `Drop for QP`, with the fields behind them
unfoldable pub drop_pd : Heap → Pd → Heap
unfolding drop_device
drop_pd h pd = drop_device (call h (dealloc_pd pd.inner)) pd.device

unfoldable pub drop_cq : Heap → ℕ → ℕ → Heap
unfolding drop_device
drop_cq h cq device = drop_device (call h (destroy_cq cq)) device

unfoldable pub drop_qp : Heap → Qp → Heap
unfolding drop_pd drop_cq
drop_qp h qp = drop_cq (drop_pd (call h (destroy_qp qp.inner)) qp.pd) qp.cq.inner qp.cq_device

module _ (L : Host) where
  -- `Arc::new(Device::new(default_device()))`
  unfoldable pub default_device : Heap → Option (ℕ × Heap)
  default_device h = elim (L.open_device_answer h.log) [
    | none ↦ none
    | some d ↦ some (d, set_strong (call h (open_device d)) d 1)
  ]

  -- `PD::new`: the `Arc` moves into the new object.
  unfoldable pub new_pd : Heap → ℕ → Option (Pd × Heap)
  new_pd h device = elim (L.alloc_pd_answer h.log device) [
    | none ↦ none
    | some pd ↦ some (record { inner = pd; device = device }, call h (alloc_pd pd device))
  ]

  -- `CQ::new`: the object holds a clone, and the argument is dropped.
  unfoldable pub new_cq : Heap → ℕ → Bool → Option (Cq × Heap)
  unfolding clone_device drop_device
  new_cq h device with_channel =
      elim (Cq.new (L.create_comp_channel_answer h.log device) (L.create_cq_answer h.log device)
        with_channel) [
          | none ↦ none
          | some cq ↦
              some
                (cq, drop_device (clone_device (call h (create_cq cq.inner device)) device) device)
        ]

  -- `create_qp`
  unfoldable pub new_inner : Heap → Pd → Cq → QpCap → Option (ℕ × Heap)
  unfolding init_attr
  new_inner h pd cq qp_cap = elim (L.create_qp_answer h.log pd.inner (init_attr cq.inner qp_cap)) [
    | none ↦ none
    | some qp ↦ some (qp, call h (create_qp qp pd.inner (init_attr cq.inner qp_cap)))
  ]

  -- `QP::new`: both parts get a clone, and the argument is dropped.
  unfoldable pub new_qp : Heap → ℕ → QpCap → Option (Qp × Heap)
  unfolding clone_device drop_device
  new_qp h device qp_cap = elim (new_pd (clone_device h device) device) [
    | none ↦ none
    | some (pd, h1) ↦ elim (new_cq (clone_device h1 device) device false) [
      | none ↦ none
      | some (cq, h2) ↦ elim (new_inner h2 pd cq qp_cap) [
        | none ↦ none
        | some (qp, h3) ↦
            some
              (record { inner = qp; pd = pd; cq = cq; cq_device = device }, drop_device h3 device)
      ]
    ]
  ]
