-- ===== src/Link/Releasing.antt =====
-- The steps `release` and `deliver` and the invariant of a link.
use mathlib.Core.Path.{ap₂, subst₂}
use ibv.Prelude.{
  ℕ, ◌+◌, ◌≤◌, ◌≡◌, refl, sym, ◌∙◌, Option, none, some, List, [], ◌∷◌, ◌++◌, append_assoc,
  append-nil, arith,
}
use ibv.Ring.{advance, advance_all}
use ibv.Ring.Moves.{Layout-pop_all}
use ibv.Mr.RemoteBufs.{update}
use ibv.Mr.RecvBufs.{RecvBuffer, notify_release}
use ibv.Mr.RecvBufs.Releasing.{notify_release-IsValid, notify_release-frame}
use ibv.Mr.RecvBufs.Agreement.{Follows, notify_release-Follows}
use ibv.Link.{Link, acknowledge, to_notes}
use ibv.Link.Invariant.{join, Reports, live, Inv}
use ibv.Link.Sending.{sender-IsValid}
use ibv.Link.Receiving.{move_one, fits_buffer}

join-append : (bs : List (List ℕ)) (b : List ℕ) → join (bs ++ b ∷ []) ≡ join bs ++ b
join-append [] b = append-nil b
join-append (c ∷ bs) b = rw (join-append bs b) (sym (append_assoc c (join bs) b))

module _ (left right : ℕ) where
  Reports-append :
      (d : ℕ) (bs : List (List ℕ)) (ks : List ℕ) (s : ℕ) (b : List ℕ) (k : ℕ)
      → Reports left right d bs ks s
      → left + k ≤ right
      → advance left right s k ≡ advance_all left right s b
      → Reports left right d (bs ++ b ∷ []) (ks ++ k ∷ []) (advance left right s k)
  Reports-append d [] [] s b k e fits h = rw e (fits, h, refl)
  Reports-append d [] (j ∷ ks) s b k r fits h = absurd r
  Reports-append d (c ∷ bs) [] s b k r fits h = absurd r
  Reports-append d (c ∷ bs) (j ∷ ks) s b k r fits h =
      (r.0, r.1, Reports-append (advance left right d j) bs ks s b k r.2 fits h)

  -- The oldest report has its batch.
  Reports-head :
      (d : ℕ) (bs : List (List ℕ)) (k : ℕ) (ks : List ℕ) {s : ℕ}
      → Reports left right d bs (k ∷ ks) s
      → (b : List ℕ) × (rest : List (List ℕ)) × (bs ≡ b ∷ rest)
        × (left + k ≤ right)
        × (advance left right d k ≡ advance_all left right d b)
        × Reports left right (advance left right d k) rest ks s
  Reports-head d [] k ks h = absurd h
  Reports-head d (b ∷ bs) k ks h = (b, bs, refl, h.0, h.1, h.2)

module _ {Rx : Type 0} {left right : ℕ} {l : Link Rx} (inv : Inv left right l) where
  -- What `release` does, for any answer that `notify_release` may give.
  release_answer :
      (n : ℕ) (h : List ℕ) (x : Option ℕ × RecvBuffer Rx)
      → l.held ≡ n ∷ h
      → Follows left right inv.final (inv.un ++ n ∷ []) x
      → x.1.done + x.1.released ≡ advance left right (l.receiver.done + l.receiver.released) n
      → (x.1.index ≡ l.receiver.index) × (x.1.left ≡ left) × (x.1.right ≡ right)
      → Inv left right (record l { receiver = x.1; held = h; notes = l.notes ++ to_notes x.0 })
  release_answer n h (none, r) e a at frame = record {
    batches = inv.batches;
    un = inv.un ++ n ∷ [];
    final = inv.final;
    ends = (inv.ends.0, inv.ends.1, frame.1, frame.2);
    layout = rw (move_one (join inv.batches) inv.un h n) (rw e at inv.layout);
    reports = rw append-nil inv.reports;
    agrees = a;
    reads = rw (at, frame.0) (rw e at inv.reads);
    stored = rw frame.0 inv.stored;
    small_held = (rw e at inv.small_held).1;
    small_wire = inv.small_wire;
    received = inv.received;
  }
  release_answer n h (some k, r) e (batch, rest, parts, total, fits, over, a) at frame = record {
    batches = inv.batches ++ batch ∷ [];
    un = rest;
    final = advance left right inv.final k;
    ends = (inv.ends.0, inv.ends.1, frame.1, frame.2);
    layout =
        rw
          (
            join-append,
            append_assoc (join inv.batches),
            ← parts,
            move_one (join inv.batches) inv.un h n,
          )
          (rw e at inv.layout);
    reports =
        Reports-append left right l.sender.done inv.batches l.notes inv.final batch k inv.reports
          fits over;
    agrees = a;
    reads = rw (at, frame.0) (rw e at inv.reads);
    stored = rw frame.0 inv.stored;
    small_held = (rw e at inv.small_held).1;
    small_wire = inv.small_wire;
    received = inv.received;
  }

  pub release-Inv :
      (n : ℕ) (h : List ℕ)
      → l.held ≡ n ∷ h
      → Inv left right (record l {
        receiver = (notify_release l.receiver n).1;
        held = h;
        notes = l.notes ++ to_notes (notify_release l.receiver n).0;
      })
  release-Inv n h e =
      release_answer n h (notify_release l.receiver n) e
        (subst₂ (λ a b. Follows a b inv.final (inv.un ++ n ∷ []) (notify_release l.receiver n))
          inv.ends.2 inv.ends.3 (notify_release-Follows l.receiver n inv.agrees fits))
        ((notify_release-IsValid l.receiver n inv.agrees.valid fits).1
          ∙ ap₂ (λ a b. advance a b (l.receiver.done + l.receiver.released) n) inv.ends.2
              inv.ends.3)
        (frame.0, frame.1 ∙ inv.ends.2, frame.2 ∙ inv.ends.3)
    where
      fits : l.receiver.left + n ≤ l.receiver.right
      fits = fits_buffer inv n (rw e at inv.small_held).0

      frame :
          let r' = (notify_release l.receiver n).1 in
          (r'.index ≡ l.receiver.index)
          × (r'.left ≡ l.receiver.left)
          × (r'.right ≡ l.receiver.right)
      frame = notify_release-frame l.receiver n

  -- A report moves `done` as the ring does, and nothing else.
  acknowledge-advance :
      (k : ℕ)
      → left + k ≤ right
      → acknowledge l.sender k ≡ record l.sender { done = advance left right l.sender.done k }
  unfolding acknowledge update
  acknowledge-advance k fits = ground (arith, sender-IsValid inv, inv.ends, inv.agrees.valid)

  pub deliver-Inv :
      (k : ℕ) (ks : List ℕ)
      → l.notes ≡ k ∷ ks
      → Inv left right (record l { sender = acknowledge l.sender k; notes = ks })
  deliver-Inv k ks e = rw (acknowledge-advance k fits) (record {
    batches = rest;
    un = inv.un;
    final = inv.final;
    ends = inv.ends;
    layout = rw over (
        Layout-pop_all b {lens = live l rest inv.un}
          (rw (cons, append_assoc b, append_assoc b, append_assoc b) at inv.layout));
    reports = reports;
    agrees = inv.agrees;
    reads = inv.reads;
    stored = inv.stored;
    small_held = inv.small_held;
    small_wire = inv.small_wire;
    received = inv.received;
  })
    where
      open (Reports-head left right l.sender.done inv.batches k ks (rw e at inv.reports)) use {
        0 as b, 1 as rest, 2 as cons, 3 as fits, 4 as over, 5 as reports,
      }
