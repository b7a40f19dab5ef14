-- ===== src/Cq/Making.antt =====
-- `create_cq` (src/types/cq.rs, lines 101 to 124), which nothing calls, beside `CQ::new`.
use mathlib.Core.Option
use ibv.Prelude.{ℕ, ◌≡◌, Bool, true, false, Option, Option-cases, none, inl, inr, arith}
use ibv.Defaults.{max_cqe}
use ibv.Cq.{new}

-- The two create functions of the library are as for `new`; `none` is the panic of `unwrap`.
unfoldable create_cq : Option ℕ → (ℕ → Option ℕ → Option ℕ) → ℕ → Bool → Option ℕ
create_cq create_comp_channel ibv_create_cq size true = ibv_create_cq size create_comp_channel
create_cq create_comp_channel ibv_create_cq size false = ibv_create_cq size none

-- With the size of `CQ::new` it makes the queue that `CQ::new` makes, or panics with it.
create_cq-new :
    (create_comp_channel : Option ℕ) (ibv_create_cq : ℕ → Option ℕ → Option ℕ) (with_channel : Bool)
    → create_cq create_comp_channel ibv_create_cq max_cqe with_channel
      ≡ Option.map (λ cq. cq.inner) (new create_comp_channel ibv_create_cq with_channel)
unfolding create_cq new
create_cq-new channel make true = elim (Option-cases (make max_cqe channel)) [
  | inl fails ↦ ground arith
  | inr (cq, made) ↦ ground arith
]
create_cq-new channel make false = elim (Option-cases (make max_cqe none)) [
  | inl fails ↦ ground arith
  | inr (cq, made) ↦ ground arith
]
