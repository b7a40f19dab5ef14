-- ===== src/Mr/SendBufs/Alloc.antt =====
-- The buffers that `SendBuffer::alloc` gives (src/types/mr.rs, lines 242 to 271).
use mathlib.Core.List.{map-append}
use mathlib.Core.Path.{subst, subst₂}
use mathlib.Core.Option.{some-injective}
use ibv.Prelude.{
  ℕ, ◌+◌, ◌≤◌, ◌<◌, ◌≡◌, refl, sym, ◌∙◌, true, inl, inr, none, some, List, [], ◌∷◌, ◌++◌,
  append_assoc, ltb, add64, u32_mod, arith, Bool-cases, Option-cases, All, ltb→lt, not-ltb→le,
}
use ibv.Channel.{Mpsc}
use ibv.Channel.Cases.{try_send-cases}
use ibv.Ring.{Apart, place, advance, pieces, HasRoom}
use ibv.Ring.Moves.{Layout-push, Layout-bounds}
use ibv.Ring.Overlap.{pieces-Apart, place-bounds}
use ibv.Mr.Region.{LocalBuf}
use ibv.Mr.SendBufs.{
  SendBuffer, Entry, set_flag, Event, wait_wrap, wait_here, take_buffer, alloc, entries, sizes, Inv,
}
use ibv.Mr.SendBufs.Events.{SameRing}
use ibv.Mr.SendBufs.Waiting.{quiet, WrapOpen, HereOpen, Ends, wait_wrap-Ends, wait_here-Ends}

module _ (Q : Mpsc Entry) where
  -- What `alloc` gives, from the state `t` in which its wait ended.
  record Granted (t : SendBuffer Q.Chan) (flag n : ℕ) (x : LocalBuf × ℕ × SendBuffer Q.Chan)
      : Type 0 where
    addr : x.0.addr ≡ place t.left t.right t.index n
    size : x.0.length ≡ n
    id : x.1 ≡ flag
    used : x.2.flags flag ≡ true
    added : entries Q x.2 ≡ entries Q t ++ (flag, n) ∷ []
    index : x.2.index ≡ advance t.left t.right t.index n
    done : x.2.done ≡ t.done
    left : x.2.left ≡ t.left
    right : x.2.right ≡ t.right

  abbrev queued_up : SendBuffer Q.Chan → Q.Chan → ℕ → ℕ → SendBuffer Q.Chan
  queued_up t d flag n = record t {
    index = add64 t.index n;
    to_release = d;
    flags = set_flag t.flags flag true;
  }

  take_buffer-some :
      (t : SendBuffer Q.Chan) (flag n : ℕ) (d : Q.Chan)
      → Q.try_send t.to_release (flag, n) ≡ some d
      → take_buffer Q t flag n
        ≡ some (record { addr = t.index; length = n; lkey = t.mr.lkey }, flag, queued_up t d flag n)
  unfolding take_buffer
  take_buffer-some t flag n d e = ground arith

  take_buffer-none :
      (t : SendBuffer Q.Chan) (flag n : ℕ)
      → Q.try_send t.to_release (flag, n) ≡ none
      → take_buffer Q t flag n ≡ none
  unfolding take_buffer
  take_buffer-none t flag n e = ground arith

  -- `start` is where the buffer begins: `left` behind a wrap, `index` else.
  take_buffer-Granted :
      (t : SendBuffer Q.Chan) (flag n start : ℕ) {x : LocalBuf × ℕ × SendBuffer Q.Chan}
      → start ≡ place t.left t.right t.index n
      → add64 start n ≡ advance t.left t.right t.index n
      → take_buffer Q (record t { index = start }) flag n ≡ some x
      → Granted t flag n x
  take_buffer-Granted t flag n start {x} at end h = elim (try_send-cases Q t.to_release (flag, n)) [
    | inl full ↦ cc (take_buffer-none (record t { index = start }) flag n full)
    | inr (d, sent, q) ↦
        subst (Granted t flag n)
          (some-injective _ _
            (sym (take_buffer-some (record t { index = start }) flag n d sent) ∙ h))
          (record {
            addr = at;
            size = refl;
            id = refl;
            used = ground arith;
            added = rw (q, append_assoc) refl;
            index = end;
            done = refl;
            left = refl;
            right = refl;
          })
  ]

  -- The buffer is apart from those in use, and behind it the invariant holds again.
  abbrev pub Safe : SendBuffer Q.Chan → ℕ → ℕ → LocalBuf × ℕ × SendBuffer Q.Chan → Type 0
  Safe s flag n (b, wr_id, u) =
      Inv Q u
      × (wr_id ≡ flag)
      × (u.flags flag ≡ true)
      × (b.length ≡ n)
      × (s.left ≤ b.addr)
      × (b.addr + n ≤ s.right)
      × ((before : List Entry) × (entries Q u ≡ before ++ (flag, n) ∷ [])
          × All (Apart (record { start = b.addr; size = n }))
              (pieces s.left s.right u.done (sizes Q before)))

  Granted-Safe :
      (s t : SendBuffer Q.Chan) (flag n : ℕ) (x : LocalBuf × ℕ × SendBuffer Q.Chan)
      → Inv Q t
      → SameRing Q s t
      → HasRoom t.left t.right t.done t.index n
      → Granted t flag n x
      → Safe s flag n x
  Granted-Safe s t flag n (b, wr_id, u) v same room g = (
    record {
      layout =
          rw (g.added, g.index, g.done, g.left, g.right, map-append) (Layout-push n v.layout room);
      headroom = omega (arith, g.right);
      short = omega (arith, g.right, g.left);
    },
    g.id,
    g.used,
    g.size,
    omega (arith, g.addr, place-bounds t.left t.right n v.layout room),
    omega (arith, g.addr, place-bounds t.left t.right n v.layout room),
    (
      entries Q t,
      g.added,
      rw (g.done, g.addr)
          (subst₂
            (λ l r.
              All (Apart (record { start = place t.left t.right t.index n; size = n }))
                (pieces l r t.done (sizes Q (entries Q t))))
            same.left same.right (pieces-Apart t.left t.right n v.layout room)),
    ),
  )

  module _ (s : SendBuffer Q.Chan) (flag n : ℕ) (v : Inv Q s) (small : n < u32_mod)
      {x : LocalBuf × ℕ × SendBuffer Q.Chan} where
    wrapped :
        (t : SendBuffer Q.Chan)
        → s.right < add64 s.index n
        → Ends Q (λ k. WrapOpen Q k n) s t
        → take_buffer Q (record t { index = t.left }) flag n ≡ some x
        → Safe s flag n x
    wrapped t over (w, same, open_now) h =
        let bounds = Layout-bounds w.layout in
        Granted-Safe s t flag n x w same (inl (omega arith))
          (take_buffer-Granted t flag n t.left (ground arith) (ground arith) h)

    placed_here :
        (t : SendBuffer Q.Chan)
        → add64 s.index n ≤ s.right
        → Ends Q (λ k. HereOpen Q k n) s t
        → take_buffer Q t flag n ≡ some x
        → Safe s flag n x
    placed_here t fits (w, same, open_now) h =
        let bounds = Layout-bounds w.layout in
        Granted-Safe s t flag n x w same (inr (omega arith))
          (take_buffer-Granted t flag n t.index (ground arith) (ground arith) h)

    -- If the invariant holds, the length is below 2 ^ 32 and nothing runs between the two loads
    -- of a test, a buffer that `SendBuffer::alloc` gives has its flag set, is the newest entry
    -- in use, overlaps none of the others and lies in the ring, and the invariant holds behind
    -- the call.
    pub alloc-Safe :
        (ss : List (List Event)) → alloc Q (quiet ss) s flag n ≡ some x → Safe s flag n x
    unfolding alloc
    alloc-Safe ss h = elim (Bool-cases (ltb s.right (add64 s.index n))) [
      | inl over ↦ elim (Option-cases (wait_wrap Q (quiet ss) s n)) [
        | inl e ↦ cc (rw (over, e) at h)
        | inr (t, e) ↦ wrapped t (ltb→lt _ _ over) (wait_wrap-Ends Q n ss s v e) (rw (over, e) at h)
      ]
      | inr fits ↦ elim (Option-cases (wait_here Q (quiet ss) s n)) [
        | inl e ↦ cc (rw (fits, e) at h)
        | inr (t, e) ↦
            placed_here t (not-ltb→le _ _ fits) (wait_here-Ends Q n ss s v e) (rw (fits, e) at h)
      ]
    ]
