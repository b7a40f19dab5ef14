-- ===== src/Qp/Model.antt =====
-- Values of the interfaces of Qp.Attributes: a queue pair that accepts what its state allows,
-- and a stream of two lists.
use ibv.Prelude.{
  ℕ, ◌≡◌, ◌≢◌, refl, Bool, true, false, List, ◌∷◌, ◌++◌, length, length-append, take, drop, leb,
  if◌then◌else◌, arith,
}
use ibv.Qp.Codec.{take-append, drop-append}
use ibv.Qp.Attributes.{
  IbvQpState, reset, init, rtr, rts, IbvQpAttr, IbvQpAttrMask, qp_state, QpVerbs, Tcp,
}

pub record Pipe : Type 0 where
  pub incoming : List ℕ
  pub outgoing : List ℕ

unfoldable pub write_all : Pipe → List ℕ → Bool × Pipe
write_all s bytes = (true, record s { outgoing = s.outgoing ++ bytes })

unfoldable pub read_exact : Pipe → List ℕ → Bool × List ℕ × Pipe
read_exact s buf =
    if leb (length buf) (length s.incoming)
    then (true, take (length buf) s.incoming, record s { incoming = drop (length buf) s.incoming })
    else (false, buf, s)

pub write_all-incoming : (s : Pipe) (bytes : List ℕ) → (write_all s bytes).1.incoming ≡ s.incoming
unfolding write_all
write_all-incoming s bytes = refl

pub read_exact-enough :
    (s : Pipe) (buf bytes rest : List ℕ)
    → s.incoming ≡ bytes ++ rest
    → length bytes ≡ length buf
    → ((read_exact s buf).0 ≡ true)
      × ((read_exact s buf).1 ≡ bytes)
      × ((read_exact s buf).2.incoming ≡ rest)
unfolding read_exact
read_exact-enough s buf bytes rest e same = ground (
  arith,
  length-append bytes rest,
  take-append (length buf) bytes rest same,
  drop-append (length buf) bytes rest same,
)

abbrev pub pipe : Tcp
pipe = record {
  Stream = Pipe;
  incoming = λ s. s.incoming;
  write_all = write_all;
  read_exact = read_exact;
  write_all-incoming = write_all-incoming;
  read_exact-enough = read_exact-enough;
}

pub record QueuePair : Type 0 where
  pub state : IbvQpState
  pub num : ℕ
  pub lid : ℕ
  pub gid : List ℕ
  -- the peer, as the change to RTR names it
  pub peer : ℕ

-- The changes of state that a connection makes, in their order.
unfoldable pub follows : IbvQpState → IbvQpState → Bool
follows reset init = true
follows init rtr = true
follows rtr rts = true
follows _ _ = false

unfoldable pub modify_qp : QueuePair → IbvQpAttr → List IbvQpAttrMask → ℕ × QueuePair
modify_qp d a mask =
    if follows d.state a.qp_state
    then (0, record d { state = a.qp_state; peer = a.dest_qp_num })
    else (22, d)

pub modify_qp-ok :
    (d : QueuePair) (a : IbvQpAttr) (mask : List IbvQpAttrMask)
    → (modify_qp d a (qp_state ∷ mask)).0 ≡ 0
    → (modify_qp d a (qp_state ∷ mask)).1.state ≡ a.qp_state
unfolding modify_qp
modify_qp-ok d a mask h = ground arith

pub modify_qp-fails :
    (d : QueuePair) (a : IbvQpAttr) (mask : List IbvQpAttrMask)
    → (modify_qp d a (qp_state ∷ mask)).0 ≢ 0
    → (modify_qp d a (qp_state ∷ mask)).1.state ≡ d.state
unfolding modify_qp
modify_qp-fails d a mask h = ground arith

follows-rts : (s : IbvQpState) → s ≢ rtr → follows s rts ≡ false
unfolding follows
follows-rts rtr h = absurd (h refl)
follows-rts _ h = refl

pub modify_qp-order :
    (d : QueuePair) (a : IbvQpAttr) (mask : List IbvQpAttrMask)
    → a.qp_state ≡ rts
    → d.state ≢ rtr
    → (modify_qp d a (qp_state ∷ mask)).0 ≢ 0
unfolding modify_qp
modify_qp-order d a mask e h = rw (e, follows-rts d.state h) (ground arith)

abbrev pub queue_pairs : QpVerbs
queue_pairs = record {
  Dev = QueuePair;
  state = λ d. d.state;
  qp_num = λ d. d.num;
  port_lid = λ d. d.lid;
  query_gid = λ d i. d.gid;
  last_os_error = λ d. 22;
  modify_qp = modify_qp;
  modify_qp-ok = modify_qp-ok;
  modify_qp-fails = modify_qp-fails;
  modify_qp-order = modify_qp-order;
}
