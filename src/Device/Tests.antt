-- ===== src/Device/Tests.antt =====
-- A device whose port has the address 7 (src/types/device.rs), and one whose queries fail.
use ibv.Prelude.{ℕ, ◌≡◌, refl, [], ◌∷◌, ◌==◌, if◌then◌else◌}
use ibv.Qp.Setup.{zeroed_vec}
use ibv.Device.{Queries, new, announced, max_qp_wr, max_mr_size}

abbrev queries : Queries
queries = record {
  Context = ℕ;
  query_port = λ context port attr. if context == 1 then (0, record { lid = 7 }) else (22, attr);
  query_device = λ context attr.
      if context == 1 then (0, record { max_qp_wr = 16384; max_mr_size = 65536 }) else (22, attr);
  query_gid = λ context port idx raw. if context == 1 then (0, idx ∷ 254 ∷ []) else (22, raw);
}

announced_run :
    announced queries (new queries 1) 300 ≡ record { lid = 7; qpn = 300; gid = 1 ∷ 254 ∷ [] }
unfolding announced new
announced_run = refl

limits_run :
    (max_qp_wr queries (new queries 1) ≡ 16384) × (max_mr_size queries (new queries 1) ≡ 65536)
unfolding new max_qp_wr max_mr_size
limits_run = (refl, refl)

failed_run :
    announced queries (new queries 2) 300 ≡ record { lid = 0; qpn = 300; gid = zeroed_vec 16 }
unfolding announced new zeroed_vec
failed_run = refl
