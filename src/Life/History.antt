-- ===== src/Life/History.antt =====
-- The queue pairs of one device, made and dropped in any order (src/types/qp.rs, lines 42 to 50 and
-- 268 to 274; src/connection/conn.rs, lines 154 to 203).
use ibv.Prelude.{
  ℕ, ◌+◌, ◌*◌, ◌<◌, ◌≡◌, refl, Bool, true, false, some, List, [], ◌∷◌, ◌++◌, ◌==◌, if◌then◌else◌,
  arith, length, length-append, All, All-remove,
}
use ibv.Life.{QpCap, Host, Heap, Qp, clone_device, drop_device, new_qp, drop_qp, default_device}
use ibv.Life.Totals.{
  Kind, made_by, freed_by, closed_by, total, live, live-append, after_drop, after_new-total,
  after_drop-total, close-total, open-total,
}
use ibv.Life.Counts.{
  Made, new_qp-Made, drop_qp-log, drop_device-strong, drop_device-log, clone_device-strong,
  clone_device-log,
}

abbrev pub no_heap : Heap
no_heap = record { log = []; strong = λ c. 0 }

module _ (L : Host) (d : ℕ) where
  -- `held` says whether `run`, or `connect` before its `QP::new`, still has its `Arc` of the device;
  -- then come the queue pairs that are not dropped.
  pub data History : Bool → List Qp → Heap → Type 0 where
    opened : {h : Heap} → default_device L no_heap ≡ some (d, h) → History true [] h
    -- the loop of `run` gives each queue pair a clone, `connect` its own `Arc`
    accepted :
        {qps : List Qp} {h h' : Heap} {q : Qp} (qp_cap : QpCap)
        → History true qps h
        → new_qp L (clone_device h d) d qp_cap ≡ some (q, h')
        → History true (q ∷ qps) h'
    connected :
        {qps : List Qp} {h h' : Heap} {q : Qp} (qp_cap : QpCap)
        → History true qps h
        → new_qp L h d qp_cap ≡ some (q, h')
        → History false (q ∷ qps) h'
    stopped : {qps : List Qp} {h : Heap} → History true qps h → History false qps (drop_device h d)
    dropped :
        {held : Bool} {h : Heap} (qs rs : List Qp) (q : Qp)
        → History held (qs ++ q ∷ rs) h
        → History held (qs ++ rs) (drop_qp h q)

  -- The count of the `Arc`s is that of the owners; of each object as many are destroyed as were made
  -- and are not live; and the device is closed once, when no owner is left.
  pub record Balanced (held : Bool) (qps : List Qp) (h : Heap) : Type 0 where
    pub strong : h.strong d ≡ (if held then 1 else 0) + 2 * length qps
    pub devices : All (λ q. (q.pd.device ≡ d) × (q.cq_device ≡ d)) qps
    pub objects :
        (k : Kind) (x : ℕ) → total (made_by k x) h.log ≡ total (freed_by k x) h.log + live k x qps
    pub closed : total (closed_by d) h.log ≡ (if h.strong d == 0 then 1 else 0)

  opened-Balanced : {h : Heap} → default_device L no_heap ≡ some (d, h) → Balanced true [] h
  unfolding default_device
  opened-Balanced e = record {
    strong = ground arith;
    devices = tt;
    objects = λ k x. ground (arith, open-total k x d);
    closed = ground arith;
  }

  new_qp-Balanced :
      {held then_held : Bool} {qps : List Qp} {h g h' : Heap} {q : Qp} (qp_cap : QpCap)
      → Balanced held qps h
      → g.log ≡ h.log
      → g.strong d ≡ (if then_held then 1 else 0) + 2 * length qps + 1
      → 0 < h.strong d
      → Made g d qp_cap q h'
      → Balanced then_held (q ∷ qps) h'
  new_qp-Balanced {h = h} {g} {q = q} qp_cap b same owners held m = record {
    strong = omega (arith, m.strong);
    devices = ((m.pd_device, m.cq_device), b.devices);
    objects = λ k x.
        rw (m.log, same) (omega (arith, after_new-total k x q d qp_cap h.log, b.objects k x));
    closed = ground (arith, m.strong, m.log, b.closed);
  }

  stopped-Balanced :
      {qps : List Qp} {h : Heap} → Balanced true qps h → Balanced false qps (drop_device h d)
  stopped-Balanced {h = h} b = record {
    strong = omega (arith, b.strong, drop_device-strong h d (omega (arith, b.strong)));
    devices = b.devices;
    objects =
        λ k x. rw (drop_device-log h d) (ground (arith, b.objects k x, close-total k x d h.log));
    closed =
        rw (drop_device-log h d)
          (ground (arith, b.strong, b.closed, drop_device-strong h d (omega (arith, b.strong))));
  }

  dropped-Balanced :
      {held : Bool} {h : Heap} (qs rs : List Qp) (q : Qp)
      → Balanced held (qs ++ q ∷ rs) h
      → Balanced held (qs ++ rs) (drop_qp h q)
  dropped-Balanced {held} {h} qs rs q b =
      let (of_d, others) =
        All-remove (λ q. (q.pd.device ≡ d) × (q.cq_device ≡ d)) qs rs q b.devices in
      let n : length (qs ++ q ∷ rs) ≡ length (qs ++ rs) + 1 =
        omega (arith, length-append qs (q ∷ rs), length-append qs rs) in
      let (log, strong) = drop_qp-log h q d of_d.0 of_d.1 (omega (arith, b.strong, n)) in
      record {
        strong = omega (arith, strong, b.strong, n);
        devices = others;
        objects = λ k x. rw log (
            ground (
              arith,
              b.objects k x,
              close-total k x d (after_drop q h.log),
              after_drop-total k x q h.log,
              live-append k x qs (q ∷ rs),
              live-append k x qs rs,
            ));
        closed = rw log (ground (arith, b.closed, strong));
      }

  -- However queue pairs of one device are made, by `run` or by `connect`, and dropped, the count
  -- of the device's `Arc`s is that of its owners, of each protection domain, completion queue
  -- and queue pair as many are destroyed as were made and are not live, and the device is closed
  -- once, when no owner is left.
  pub History-Balanced :
      {held : Bool} {qps : List Qp} {h : Heap} → History held qps h → Balanced held qps h
  History-Balanced (opened e) = opened-Balanced e
  History-Balanced (accepted {h = h} qp_cap past e) =
      let b = History-Balanced past in
      new_qp-Balanced {held = true} {then_held = true} qp_cap b (clone_device-log h d)
        (omega (arith, b.strong, clone_device-strong h d)) (omega (arith, b.strong))
        (new_qp-Made L (clone_device h d) d qp_cap (omega (arith, clone_device-strong h d)) e)
  History-Balanced (connected {h = h} qp_cap past e) =
      let b = History-Balanced past in
      new_qp-Balanced {held = true} {then_held = false} qp_cap b refl (omega (arith, b.strong))
        (omega (arith, b.strong)) (new_qp-Made L h d qp_cap (omega (arith, b.strong)) e)
  History-Balanced (stopped past) = stopped-Balanced (History-Balanced past)
  History-Balanced (dropped qs rs q past) = dropped-Balanced qs rs q (History-Balanced past)
