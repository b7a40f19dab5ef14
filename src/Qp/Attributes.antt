-- ===== src/Qp/Attributes.antt =====
-- What the start of a connection works with: the states and attributes of a queue pair (src/types/qp.rs
-- and rdma_sys), and the parts of libibverbs, of TCP and of bincode that it uses, as interfaces.
use ibv.Prelude.{ℕ, ◌≡◌, ◌≢◌, Bool, true, Option, some, List, [], ◌∷◌, ◌++◌, length}
use ibv.Mr.Region.{IbvAccessFlags}

pub data IbvQpState : Type 0 where
  reset init rtr rts sqd sqe error : IbvQpState

pub data Status : Type 0 where
  init rtr rts error unknown : Status

pub record EndPoint : Type 0 where
  pub gid : List ℕ
  pub qpn : ℕ
  pub lid : ℕ

pub record IbvGlobalRoute : Type 0 where
  pub dgid : List ℕ
  pub flow_label : ℕ
  pub sgid_index : ℕ
  pub hop_limit : ℕ
  pub traffic_class : ℕ

pub record IbvAhAttr : Type 0 where
  pub grh : IbvGlobalRoute
  pub dlid : ℕ
  pub sl : ℕ
  pub src_path_bits : ℕ
  pub static_rate : ℕ
  pub is_global : ℕ
  pub port_num : ℕ

-- `ibv_qp_attr`, the fields that the program sets
pub record IbvQpAttr : Type 0 where
  pub qp_state : IbvQpState
  pub path_mtu : ℕ
  pub rq_psn : ℕ
  pub sq_psn : ℕ
  pub dest_qp_num : ℕ
  pub qp_access_flags : List IbvAccessFlags
  pub ah_attr : IbvAhAttr
  pub pkey_index : ℕ
  pub max_rd_atomic : ℕ
  pub max_dest_rd_atomic : ℕ
  pub min_rnr_timer : ℕ
  pub port_num : ℕ
  pub timeout : ℕ
  pub retry_cnt : ℕ
  pub rnr_retry : ℕ

-- `ibv_qp_attr_mask`; a mask is the list of its bits
pub data IbvQpAttrMask : Type 0 where
  qp_state access_flags pkey_index port av path_mtu timeout retry_cnt rnr_retry rq_psn
        max_qp_rd_atomic min_rnr_timer sq_psn max_dest_rd_atomic dest_qpn :
      IbvQpAttrMask

-- What the program uses of the device for a queue pair. `modify_qp` answers 0 where it makes the
-- change; a queue pair becomes ready to send only from ready to receive.
pub record QpVerbs : Type 1 where
  pub Dev : Type 0
  pub state : Dev → IbvQpState
  pub qp_num : Dev → ℕ
  pub port_lid : Dev → ℕ
  pub query_gid : Dev → ℕ → List ℕ
  pub last_os_error : Dev → ℕ
  pub modify_qp : Dev → IbvQpAttr → List IbvQpAttrMask → ℕ × Dev
  pub modify_qp-ok :
      (d : Dev) (a : IbvQpAttr) (mask : List IbvQpAttrMask)
      → (modify_qp d a (qp_state ∷ mask)).0 ≡ 0
      → state (modify_qp d a (qp_state ∷ mask)).1 ≡ a.qp_state
  pub modify_qp-fails :
      (d : Dev) (a : IbvQpAttr) (mask : List IbvQpAttrMask)
      → (modify_qp d a (qp_state ∷ mask)).0 ≢ 0
      → state (modify_qp d a (qp_state ∷ mask)).1 ≡ state d
  pub modify_qp-order :
      (d : Dev) (a : IbvQpAttr) (mask : List IbvQpAttrMask)
      → a.qp_state ≡ IbvQpState.rts
      → state d ≢ IbvQpState.rtr
      → (modify_qp d a (qp_state ∷ mask)).0 ≢ 0

-- A TCP stream: `write_all` and `read_exact` answer whether they succeed. A read that finds enough
-- bytes fills the buffer with them.
pub record Tcp : Type 1 where
  pub Stream : Type 0
  pub incoming : Stream → List ℕ
  pub write_all : Stream → List ℕ → Bool × Stream
  pub read_exact : Stream → List ℕ → Bool × List ℕ × Stream
  pub write_all-incoming :
      (s : Stream) (bytes : List ℕ) → incoming (write_all s bytes).1 ≡ incoming s
  pub read_exact-enough :
      (s : Stream) (buf bytes rest : List ℕ)
      → incoming s ≡ bytes ++ rest
      → length bytes ≡ length buf
      → ((read_exact s buf).0 ≡ true)
        × ((read_exact s buf).1 ≡ bytes)
        × (incoming (read_exact s buf).2 ≡ rest)

-- `bincode` for one type: values that `Fits` take `size` bytes and are read back.
pub record Bincode (A : Type 0) : Type 1 where
  pub Fits : A → Type 0
  pub size : ℕ
  pub serialize : A → List ℕ
  pub deserialize : List ℕ → Option A
  pub length-serialize : (a : A) → Fits a → length (serialize a) ≡ size
  pub deserialize-serialize : (a : A) → Fits a → deserialize (serialize a) ≡ some a

-- `mem::zeroed`
abbrev pub zeroed_attr : IbvQpAttr
zeroed_attr = record {
  qp_state = IbvQpState.reset;
  path_mtu = 0;
  rq_psn = 0;
  sq_psn = 0;
  dest_qp_num = 0;
  qp_access_flags = [];
  ah_attr = record {
    grh = record { dgid = []; flow_label = 0; sgid_index = 0; hop_limit = 0; traffic_class = 0 };
    dlid = 0;
    sl = 0;
    src_path_bits = 0;
    static_rate = 0;
    is_global = 0;
    port_num = 0;
  };
  pkey_index = 0;
  max_rd_atomic = 0;
  max_dest_rd_atomic = 0;
  min_rnr_timer = 0;
  port_num = 0;
  timeout = 0;
  retry_cnt = 0;
  rnr_retry = 0;
}
