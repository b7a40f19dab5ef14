-- ===== src/Life/Counts.antt =====
-- What the making and the dropping of a queue pair does to the log and to the count of the device's
-- `Arc`s (src/types/qp.rs, lines 42 to 50 and 268 to 274).
use mathlib.Core.Option.{some-injective}
use ibv.Prelude.{
  ℕ, ◌+◌, ◌≤◌, ◌<◌, ◌≡◌, refl, ap, ◌∙◌, inl, inr, false, some, List, ◌∷◌, ◌==◌, if◌then◌else◌,
  arith, Option-cases,
}
use ibv.Cq.{Cq}
use ibv.Life.{
  QpCap, init_attr, Call, close_device, alloc_pd, create_cq, create_qp, dealloc_pd, destroy_cq,
  destroy_qp, Host, Heap, Pd, Qp, clone_device, drop_device, new_pd, new_cq, new_inner, new_qp,
  drop_pd, drop_cq, drop_qp,
}

-- The effect of `QP::new` with a device that has `Arc`s.
pub record Made (h : Heap) (d : ℕ) (cap : QpCap) (qp : Qp) (h' : Heap) : Type 0 where
  pub pd_device : qp.pd.device ≡ d
  pub cq_device : qp.cq_device ≡ d
  pub strong : h'.strong d ≡ h.strong d + 1
  pub log :
      h'.log
      ≡ create_qp qp.inner qp.pd.inner (init_attr qp.cq.inner cap)
        ∷ create_cq qp.cq.inner d
        ∷ alloc_pd qp.pd.inner d
        ∷ h.log

-- The count behind a drop, and whether it closes the device.
abbrev pub closing : ℕ → ℕ → List Call → List Call
closing n d log = if n == 1 then close_device d ∷ log else log

pub drop_device-strong :
    (h : Heap) (d : ℕ) → 0 < h.strong d → (drop_device h d).strong d + 1 ≡ h.strong d
unfolding drop_device
drop_device-strong h d some_left = ground arith

pub drop_device-log : (h : Heap) (d : ℕ) → (drop_device h d).log ≡ closing (h.strong d) d h.log
unfolding drop_device
drop_device-log h d = ground arith

pub clone_device-strong : (h : Heap) (d : ℕ) → (clone_device h d).strong d ≡ h.strong d + 1
unfolding clone_device
clone_device-strong h d = ground arith

pub clone_device-log : (h : Heap) (d : ℕ) → (clone_device h d).log ≡ h.log
unfolding clone_device
clone_device-log h d = refl

module _ (L : Host) where
  new_pd-some :
      (h : Heap) (d : ℕ) {pd : Pd} {h' : Heap}
      → new_pd L h d ≡ some (pd, h')
      → (pd.device ≡ d) × (h'.strong ≡ h.strong) × (h'.log ≡ alloc_pd pd.inner d ∷ h.log)
  unfolding new_pd
  new_pd-some h d e = ground arith

  new_cq-some :
      (h : Heap) (d : ℕ) {cq : Cq} {h' : Heap}
      → 0 < h.strong d
      → new_cq L h d false ≡ some (cq, h')
      → (h'.strong d ≡ h.strong d) × (h'.log ≡ create_cq cq.inner d ∷ h.log)
  unfolding new_cq clone_device drop_device
  new_cq-some h d held e = ground arith

  new_inner-some :
      (h : Heap) (pd : Pd) (cq : Cq) (cap : QpCap) {qp : ℕ} {h' : Heap}
      → new_inner L h pd cq cap ≡ some (qp, h')
      → (h'.strong ≡ h.strong) × (h'.log ≡ create_qp qp pd.inner (init_attr cq.inner cap) ∷ h.log)
  unfolding new_inner
  new_inner-some h pd cq cap e = ground arith

  pub new_qp-Made :
      (h : Heap) (d : ℕ) (cap : QpCap) {qp : Qp} {h' : Heap}
      → 0 < h.strong d
      → new_qp L h d cap ≡ some (qp, h')
      → Made h d cap qp h'
  unfolding new_qp
  new_qp-Made h d cap {qp} {h'} held e = elim (Option-cases (new_pd L (clone_device h d) d)) [
    | inl a ↦ cc (rw (a, new_qp) at e)
    | inr ((pd, h1), a) ↦ elim (Option-cases (new_cq L (clone_device h1 d) d false)) [
      | inl b ↦ cc (rw (a, b, new_qp) at e)
      | inr ((cq, h2), b) ↦ elim (Option-cases (new_inner L h2 pd cq cap)) [
        | inl c ↦ cc (rw (a, b, c, new_qp) at e)
        | inr ((inner, h3), c) ↦
            made pd h1 cq h2 inner h3 a b c
              (ap (λ x. x.0) (some-injective _ _ (rw (a, b, c, new_qp) at e)))
              (ap (λ x. x.1) (some-injective _ _ (rw (a, b, c, new_qp) at e)))
      ]
    ]
  ]
    where
      made :
          (pd : Pd) (h1 : Heap) (cq : Cq) (h2 : Heap) (inner : ℕ) (h3 : Heap)
          → new_pd L (clone_device h d) d ≡ some (pd, h1)
          → new_cq L (clone_device h1 d) d false ≡ some (cq, h2)
          → new_inner L h2 pd cq cap ≡ some (inner, h3)
          → record { inner = inner; pd = pd; cq = cq; cq_device = d } ≡ qp
          → drop_device h3 d ≡ h'
          → Made h d cap qp h'
      made pd h1 cq h2 inner h3 a b c q end =
          let (device, strong1, log1) = new_pd-some (clone_device h d) d a in
          let n1 : h1.strong d ≡ h.strong d + 1 = ap (λ s. s d) strong1 ∙ clone_device-strong h d in
          let n2 : (clone_device h1 d).strong d ≡ h.strong d + 2 =
            omega (arith, clone_device-strong h1 d) in
          let (strong2, log2) = new_cq-some (clone_device h1 d) d (omega arith) b in
          let (strong3, log3) = new_inner-some h2 pd cq cap c in
          let n3 : h3.strong d ≡ h.strong d + 2 = ap (λ s. s d) strong3 ∙ strong2 ∙ n2 in
          rw (← q, ← end)
            (record {
              pd_device = device;
              cq_device = refl;
              strong = omega (arith, drop_device-strong h3 d (omega arith));
              log = ground (
                arith,
                drop_device-log h3 d,
                log3,
                log2,
                log1,
                n3,
                clone_device-log h1 d,
                clone_device-log h d,
              );
            })

-- The effect of a drop of a queue pair of the device `d`.
pub drop_qp-log :
    (h : Heap) (qp : Qp) (d : ℕ)
    → qp.pd.device ≡ d
    → qp.cq_device ≡ d
    → 2 ≤ h.strong d
    → ((drop_qp h qp).log ≡ (
        let log = destroy_cq qp.cq.inner ∷ dealloc_pd qp.pd.inner ∷ destroy_qp qp.inner ∷ h.log in
        if h.strong d == 2 then close_device d ∷ log else log))
      × ((drop_qp h qp).strong d + 2 ≡ h.strong d)
unfolding drop_qp drop_pd drop_cq drop_device
drop_qp-log h qp d e f two = ground arith
