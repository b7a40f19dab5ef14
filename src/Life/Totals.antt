-- ===== src/Life/Totals.antt =====
-- How often the log makes and destroys an object (src/types/pd.rs, src/types/cq.rs, src/types/qp.rs).
use ibv.Prelude.{ℕ, ◌+◌, ◌≡◌, List, [], ◌∷◌, ◌++◌, ◌==◌, if◌then◌else◌, arith}
use ibv.Life.{
  init_attr, QpCap, Call, open_device, close_device, alloc_pd, create_cq, create_qp, dealloc_pd,
  destroy_cq, destroy_qp, Qp,
}

pub data Kind : Type 0 where
  pd cq qp : Kind

abbrev pub handle : Kind → Qp → ℕ
handle pd q = q.pd.inner
handle cq q = q.cq.inner
handle qp q = q.inner

-- How often an object with the handle `x` was made, or destroyed, by the log.
abbrev pub made_by : Kind → ℕ → Call → ℕ
made_by pd x (alloc_pd p d) = if x == p then 1 else 0
made_by cq x (create_cq c d) = if x == c then 1 else 0
made_by qp x (create_qp q p attr) = if x == q then 1 else 0
made_by k x c = 0

abbrev pub freed_by : Kind → ℕ → Call → ℕ
freed_by pd x (dealloc_pd p) = if x == p then 1 else 0
freed_by cq x (destroy_cq c) = if x == c then 1 else 0
freed_by qp x (destroy_qp q) = if x == q then 1 else 0
freed_by k x c = 0

abbrev pub closed_by : ℕ → Call → ℕ
closed_by d (close_device c) = if d == c then 1 else 0
closed_by d c = 0

abbrev pub total : (Call → ℕ) → List Call → ℕ
total f [] = 0
total f (c ∷ log) = f c + total f log

abbrev pub live : Kind → ℕ → List Qp → ℕ
live k x [] = 0
live k x (q ∷ qs) = (if x == handle k q then 1 else 0) + live k x qs

pub live-append :
    (k : Kind) (x : ℕ) (qs rs : List Qp) → live k x (qs ++ rs) ≡ live k x qs + live k x rs
live-append k x [] rs = omega arith
live-append k x (q ∷ qs) rs = omega (arith, live-append k x qs rs)

abbrev pub after_new : Qp → ℕ → QpCap → List Call → List Call
after_new q d qp_cap log =
    create_qp q.inner q.pd.inner (init_attr q.cq.inner qp_cap)
    ∷ create_cq q.cq.inner d
    ∷ alloc_pd q.pd.inner d
    ∷ log

abbrev pub after_drop : Qp → List Call → List Call
after_drop q log = destroy_cq q.cq.inner ∷ dealloc_pd q.pd.inner ∷ destroy_qp q.inner ∷ log

pub after_new-total :
    (k : Kind) (x : ℕ) (q : Qp) (d : ℕ) (qp_cap : QpCap) (log : List Call)
    → (total (made_by k x) (after_new q d qp_cap log)
        ≡ (if x == handle k q then 1 else 0) + total (made_by k x) log)
      × (total (freed_by k x) (after_new q d qp_cap log) ≡ total (freed_by k x) log)
after_new-total pd x q d qp_cap log = omega arith
after_new-total cq x q d qp_cap log = omega arith
after_new-total qp x q d qp_cap log = omega arith

pub after_drop-total :
    (k : Kind) (x : ℕ) (q : Qp) (log : List Call)
    → (total (made_by k x) (after_drop q log) ≡ total (made_by k x) log)
      × (total (freed_by k x) (after_drop q log)
          ≡ (if x == handle k q then 1 else 0) + total (freed_by k x) log)
after_drop-total pd x q log = omega arith
after_drop-total cq x q log = omega arith
after_drop-total qp x q log = omega arith

pub close-total :
    (k : Kind) (x d : ℕ) (log : List Call)
    → (total (made_by k x) (close_device d ∷ log) ≡ total (made_by k x) log)
      × (total (freed_by k x) (close_device d ∷ log) ≡ total (freed_by k x) log)
close-total pd x d log = omega arith
close-total cq x d log = omega arith
close-total qp x d log = omega arith

pub open-total :
    (k : Kind) (x d : ℕ)
    → (total (made_by k x) (open_device d ∷ []) ≡ 0)
      × (total (freed_by k x) (open_device d ∷ []) ≡ 0)
open-total pd x d = omega arith
open-total cq x d = omega arith
open-total qp x d = omega arith
