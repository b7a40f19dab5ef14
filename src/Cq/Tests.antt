-- ===== src/Cq/Tests.antt =====
-- Completions read at their codes, and the theorems about the queue at concrete states.
use ibv.Prelude.{ℕ, ◌≡◌, refl, [], ◌∷◌}
use ibv.Verbs.{IbvWc}
use ibv.Verbs.Model.{Device, verbs, poll_cq}
use ibv.Wr.{ok}
use ibv.Cq.{poll_wc}

abbrev a_completion : IbvWc
a_completion = record {
  wr_id = 0;
  status = 0;
  opcode = 129;
  imm_data = 5;
  wc_flags = 3;
  byte_len = 8;
}

abbrev one : ℕ
one = 1

abbrev busy : Device
busy = record { sends = []; recvs = []; completions = a_completion ∷ a_completion ∷ []; limit = 4 }

one_polled : (poll_wc verbs 1 busy).0 ≡ ok (a_completion ∷ [])
unfolding poll_wc poll_cq
one_polled = refl
