-- ===== src/Defaults.antt =====
-- The constants of src/types/default.rs, and `MAX_SENDING` of src/connection/conn.rs.
use ibv.Prelude.{ℕ, ◌*◌}

abbrev pub default_gid_index : ℕ
default_gid_index = 1

abbrev pub max_cqe : ℕ
max_cqe = 32767

abbrev pub max_qp_wr : ℕ
max_qp_wr = 16384

abbrev pub default_rqe_count : ℕ
default_rqe_count = max_qp_wr

abbrev pub default_send_buffer_size : ℕ
default_send_buffer_size = 64 * 1024 * 1024

abbrev pub default_recv_buffer_size : ℕ
default_recv_buffer_size = 64 * 1024 * 1024

abbrev pub min_length_to_notify_release : ℕ
min_length_to_notify_release = 8 * 1024

abbrev pub max_sending : ℕ
max_sending = default_rqe_count
