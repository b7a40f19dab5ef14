-- ===== src/Mr/Region.antt =====
-- `MR`, `RemoteMR`, `RemoteBuf`, `LocalBuf` and their conversions (src/types/mr.rs, lines 15 to 131).
-- `ibv_reg_mr` and `ibv_dereg_mr` are code of rdma_sys: they enter as arguments.
use ibv.Prelude.{ℕ, Option, none, some, List, [], ◌∷◌, as_u32}

-- `ibv_mr`, the fields that `MR::new` reads, with the pointer at which it stands
pub record IbvMr : Type 0 where
  pub handle : ℕ
  pub addr : ℕ
  pub length : ℕ
  pub lkey : ℕ
  pub rkey : ℕ

pub record Mr : Type 0 where
  pub inner : ℕ
  pub addr : ℕ
  pub length : ℕ
  pub lkey : ℕ
  pub rkey : ℕ

pub data IbvAccessFlags : Type 0 where
  local_write remote_write remote_read remote_atomic : IbvAccessFlags

pub record IbvSge : Type 0 where
  pub addr : ℕ
  pub length : ℕ
  pub lkey : ℕ

pub record RemoteMr : Type 0 where
  pub addr : ℕ
  pub length : ℕ
  pub rkey : ℕ

pub record RemoteBuf : Type 0 where
  pub addr : ℕ
  pub length : ℕ
  pub rkey : ℕ

pub record LocalBuf : Type 0 where
  pub addr : ℕ
  pub length : ℕ
  pub lkey : ℕ

-- the flags that `MR::new` joins by `|`
abbrev pub mr_access : List IbvAccessFlags
mr_access = local_write ∷ remote_write ∷ remote_read ∷ remote_atomic ∷ []

-- `MR::new`. The buffer is its address and length; `reg_mr` answers `none` for a null pointer, at
-- which the program faults.
unfoldable pub new_mr : (ℕ → ℕ → ℕ → List IbvAccessFlags → Option IbvMr) → ℕ → ℕ → ℕ → Option Mr
new_mr reg_mr pd addr len = elim (reg_mr pd addr len mr_access) [
  | none ↦ none
  | some mr ↦ some (record {
    inner = mr.handle;
    addr = mr.addr;
    length = as_u32 mr.length;
    lkey = mr.lkey;
    rkey = mr.rkey;
  })
]

-- `MR::sge`
unfoldable pub sge : Mr → IbvSge
sge mr = record { addr = mr.addr; length = mr.length; lkey = mr.lkey }

-- `MR::dereg`
unfoldable pub dereg : (ℕ → ℕ) → Mr → ℕ
dereg dereg_mr mr = dereg_mr mr.inner

-- `RemoteMR::from_mr`
unfoldable pub from_mr : Mr → RemoteMr
from_mr mr = record { addr = mr.addr; length = as_u32 mr.length; rkey = mr.rkey }

-- `Into<ibv_sge> for LocalBuf`
unfoldable pub into_sge : LocalBuf → IbvSge
into_sge b = record { addr = b.addr; length = b.length; lkey = b.lkey }

-- `From<Arc<MR>> for LocalBuf`
unfoldable pub local_of_mr : Mr → LocalBuf
local_of_mr mr = record { addr = mr.addr; length = mr.length; lkey = mr.lkey }
