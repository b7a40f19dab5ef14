-- ===== src/Net/Outgoing.antt =====
-- A message in the send buffer, from `reserve` to the completion of its write (src/types/mr.rs,
-- lines 216 to 271; src/connection/conn.rs, lines 88 to 117).
use ibv.Prelude.{
  ℕ, ◌+◌, ◌≤◌, ◌<◌, ◌≡◌, ◌≢◌, refl, sym, ap, ◌∙◌, true, false, inl, inr, List, [], ◌∷◌, ◌++◌, arith,
  u32_mod, All, append_assoc,
}
use mathlib.Core.List.{map-append}
use ibv.Channel.{Mpsc}
use ibv.Memory.{Memory, load}
use ibv.Ring.{Piece, place, advance, advance_all, pieces, Layout}
use ibv.Ring.Moves.{Layout-pop_all, Layout-first, Layout-bounds}
use ibv.Ring.Overlap.{pieces-suffix}
use ibv.Mr.SendBufs.{SendBuffer, Entry, complete, task, release_done, event, entries, sizes, Inv}
use ibv.Mr.SendBufs.Events.{SameRing, task_step-Moves, release_done-advance, release_done-SameRing}
use ibv.Mr.SendBufs.InUse.{release_done-flags, set_flag-ne}
use ibv.Conn.{total_len}
use ibv.Conn.Copying.{joined}
use ibv.Net.{Ticket}

module _ (Q : Mpsc Entry) where
  -- The piece of the message stands in the ring with its flag set, and holds the message.
  pub record Holds (s : SendBuffer Q.Chan) (mem : Memory) (t : Ticket) : Type 0 where
    pub before : List Entry
    pub after : List Entry
    pub stands : entries Q s ≡ before ++ (t.flag, t.local_buf.length) ∷ after
    pub addr :
        t.local_buf.addr
        ≡ place s.left s.right
            (advance_all s.left s.right s.done (sizes Q before))
            t.local_buf.length
    pub used : s.flags t.flag ≡ true
    pub content : load mem t.local_buf.addr t.local_buf.length ≡ joined t.msg
    pub size : t.local_buf.length ≡ total_len t.msg
    pub short : total_len t.msg < u32_mod

  module _ {s : SendBuffer Q.Chan} {mem : Memory} {t : Ticket} (h : Holds s mem t) where
    stands-sizes : sizes Q (entries Q s) ≡ sizes Q h.before ++ t.local_buf.length ∷ sizes Q h.after
    stands-sizes = rw (h.stands, map-append) refl

    -- Its piece lies in the buffer.
    pub Holds-bounds :
        Inv Q s → (s.left ≤ t.local_buf.addr) × (t.local_buf.addr + t.local_buf.length ≤ s.right)
    Holds-bounds v =
        let l : Layout s.left s.right (advance_all s.left s.right s.done (sizes Q h.before)) s.index
            (t.local_buf.length ∷ sizes Q h.after) =
          Layout-pop_all (sizes Q h.before) (rw stands-sizes at v.layout) in
        rw h.addr (ground (arith, Layout-first l, Layout-bounds l))

    -- What is apart from all pieces in use is apart from its piece.
    pub Holds-All :
        (P : Piece → Type 0)
        → All P (pieces s.left s.right s.done (sizes Q (entries Q s)))
        → P (record { start = t.local_buf.addr; size = t.local_buf.length })
    Holds-All P a = rw h.addr (
        (pieces-suffix s.left s.right P s.done (sizes Q h.before)
          (t.local_buf.length ∷ sizes Q h.after) (rw stands-sizes at a)).0)

    -- It rests on the bytes of its piece only.
    pub Holds-load :
        (k : Memory)
        → load k t.local_buf.addr t.local_buf.length ≡ load mem t.local_buf.addr t.local_buf.length
        → Holds s k t
    Holds-load k e = record {
      before = h.before;
      after = h.after;
      stands = h.stands;
      addr = h.addr;
      used = h.used;
      content = e ∙ h.content;
      size = h.size;
      short = h.short;
    }

    -- A new entry behind the others leaves it.
    pub Holds-newer :
        (u : SendBuffer Q.Chan) (e : Entry)
        → entries Q u ≡ entries Q s ++ e ∷ []
        → u.done ≡ s.done
        → u.left ≡ s.left
        → u.right ≡ s.right
        → u.flags t.flag ≡ true
        → Holds u mem t
    Holds-newer u e more done left right used = record {
      before = h.before;
      after = h.after ++ e ∷ [];
      stands = rw (more, h.stands, append_assoc) refl;
      addr = rw (done, left, right) h.addr;
      used = used;
      content = h.content;
      size = h.size;
      short = h.short;
    }

    -- The entry is not the one that the task releases.
    Holds-pop :
        (before : List Entry) (flag length : ℕ) {u : SendBuffer Q.Chan}
        → Inv Q s
        → before ≡ h.before
        → s.flags flag ≡ false
        → entries Q s ≡ (flag, length) ∷ entries Q u
        → u ≡ release_done Q s length
        → Holds u mem t
    Holds-pop [] flag length v e free es eq = absurd (cc (h.used, free, sym h.stands ∙ es, e))
    Holds-pop (x ∷ before) flag length {u} v e free es eq =
        let first : s.left + length ≤ s.right = Layout-first now in
        let bounds = Layout-bounds now in
        let moved : u.done ≡ advance s.left s.right s.done length =
          ap (λ y. y.done) eq ∙ release_done-advance Q s length (omega arith) (omega arith) in
        let same : SameRing Q s u = rw eq (release_done-SameRing Q s length) in
        record {
          before = before;
          after = h.after;
          stands = cc (es, h.stands, e);
          addr = rw (moved, same.left, same.right, ← head) (rw (← e) at h.addr);
          used = rw (ap (λ y. y.flags) eq, release_done-flags Q s length) h.used;
          content = h.content;
          size = h.size;
          short = h.short;
        }
      where
        now : Layout s.left s.right s.done s.index (length ∷ sizes Q (entries Q u))
        now = rw es at v.layout

        oldest : x ≡ (flag, length)
        oldest = cc (es, h.stands, e)

        head : x.1 ≡ length
        head = ap (λ y. y.1) oldest

  pub Holds-complete :
      {s : SendBuffer Q.Chan} {mem : Memory} {t : Ticket} (f : ℕ)
      → t.flag ≢ f
      → Holds s mem t
      → Holds (event Q s (complete f)) mem t
  unfolding event
  Holds-complete {s} {mem} {t} f ne h = record {
    before = h.before;
    after = h.after;
    stands = h.stands;
    addr = h.addr;
    used = set_flag-ne s.flags f false t.flag ne ∙ h.used;
    content = h.content;
    size = h.size;
    short = h.short;
  }

  -- A step of the release task leaves it.
  pub Holds-task :
      {s : SendBuffer Q.Chan} {mem : Memory} {t : Ticket}
      → Inv Q s
      → Holds s mem t
      → Holds (event Q s task) mem t
  unfolding event
  Holds-task {s} {mem} {t} v h = elim (task_step-Moves Q s) [
    | inl e ↦ rw e h
    | inr (inl (_, es, done, flags, same)) ↦ record {
      before = h.before;
      after = h.after;
      stands = es ∙ h.stands;
      addr = rw (done, same.left, same.right) h.addr;
      used = rw flags h.used;
      content = h.content;
      size = h.size;
      short = h.short;
    }
    | inr (inr (flag, length, free, es, e)) ↦ Holds-pop h h.before flag length v refl free es e
  ]
