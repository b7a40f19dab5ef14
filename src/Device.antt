-- ===== src/Device.antt =====
-- `Device` (src/types/device.rs, lines 4 to 46): what it keeps of its port and of its limits, and what a
-- queue pair announces of it (src/types/qp.rs, lines 107 to 113). The query functions of libibverbs are
-- the interface `Queries`; each takes what stands in the struct before the call.
mod Tests
use ibv.Prelude.{ℕ, ◌≡◌, ◌≢◌, refl, ap, List, [], ◌∷◌}
use ibv.Defaults.{default_gid_index}
use ibv.Qp.Attributes.{EndPoint}
use ibv.Qp.Setup.{zeroed_vec}

-- `ibv_port_attr` and `ibv_device_attr`, the fields that the program reads
pub record IbvPortAttr : Type 0 where
  pub lid : ℕ

pub record IbvDeviceAttr : Type 0 where
  pub max_qp_wr : ℕ
  pub max_mr_size : ℕ

pub record Queries : Type 1 where
  pub Context : Type 0
  pub query_port : Context → ℕ → IbvPortAttr → ℕ × IbvPortAttr
  pub query_device : Context → IbvDeviceAttr → ℕ × IbvDeviceAttr
  pub query_gid : Context → ℕ → ℕ → List ℕ → ℕ × List ℕ

pub record Device (Context : Type 0) : Type 0 where
  pub context : Context
  pub port_attr : IbvPortAttr
  pub device_attr : IbvDeviceAttr

module _ (L : Queries) where
  -- `Device::new`: the answers of both queries are passed over
  unfoldable pub new : L.Context → Device L.Context
  new context = record {
    context = context;
    port_attr = (L.query_port context 1 (record { lid = 0 })).1;
    device_attr = (L.query_device context (record { max_qp_wr = 0; max_mr_size = 0 })).1;
  }

  unfoldable pub lid : Device L.Context → ℕ
  lid device = device.port_attr.lid

  unfoldable pub gid : Device L.Context → ℕ → List ℕ
  unfolding zeroed_vec
  gid device idx = (L.query_gid device.context 1 idx (zeroed_vec 16)).1

  unfoldable pub max_qp_wr : Device L.Context → ℕ
  max_qp_wr device = device.device_attr.max_qp_wr

  unfoldable pub max_mr_size : Device L.Context → ℕ
  max_mr_size device = device.device_attr.max_mr_size

  -- `QP::endpoint`, for a queue pair of the number `qpn`
  unfoldable pub announced : Device L.Context → ℕ → EndPoint
  unfolding lid gid
  announced device qpn = record { lid = lid device; qpn = qpn; gid = gid device default_gid_index }

  -- Where both queries fail and leave their structs as they were, the queue pair announces the
  -- address 0, and nothing tells it from a device with this address.
  announced-failed :
      (context : L.Context) (qpn : ℕ)
      → (L.query_port context 1 (record { lid = 0 })).1 ≡ record { lid = 0 }
      → (L.query_gid context 1 default_gid_index (zeroed_vec 16)).1 ≡ zeroed_vec 16
      → announced (new context) qpn ≡ record { lid = 0; qpn = qpn; gid = zeroed_vec 16 }
  unfolding announced new zeroed_vec
  announced-failed context qpn port table = cc (ap (λ a. a.lid) port)
